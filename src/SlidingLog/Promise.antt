-- ===== src/SlidingLog/Promise.antt =====
-- What the sliding window log promises (src/traffik/strategies/sliding_window.py), in terms of the history
-- of all admitted requests, and of nothing that the strategy computes.
use traffik.Base.{
  ℕ, ◌+◌, ◌-◌, ◌≤◌, ◌<◌, ◌≡◌, refl, true, false, leb, none, some, List, [], ◌∷◌, ◌++◌, ◌⊎◌, inl,
  inr, if◌then◌else◌, Bool-cases, arith,
}
use traffik.Rate.{Rate}
use traffik.SlidingLog.{
  Logged, Request, Wait, allowed, wait_ms, forever, in_window, valid_entries, total_cost, earlier,
  oldest_timestamp, wait_until, logged,
}

-- The cost of the entries that the window still holds at `t`.
unfoldable pub window_cost : ℕ → ℕ → List Logged → ℕ
window_cost duration t [] = 0
window_cost duration t (x ∷ log) =
    (if leb (x.timestamp + duration) t then 0 else x.cost) + window_cost duration t log

abbrev pub Each : (Logged → Type 0) → List Logged → Type 0
Each P [] = Unit {0}
Each P (x ∷ log) = P x × Each P log

abbrev pub Some : (Logged → Type 0) → List Logged → Type 0
Some P [] = ⊥
Some P (x ∷ log) = P x ⊎ Some P log

-- What a request is promised against a history: it is admitted if its cost and that of the window are
-- within the limit. Else it waits until the first entry leaves that is in the window, and for ever
-- if there is none.
pub data Promised (rate : Rate) (r : Request) (history : List Logged) (w : Wait) : Type 0 where
  admits :
      window_cost rate.expire r.now history + r.cost ≤ rate.limit
      → w ≡ allowed
      → Promised rate r history w
  delays :
      (n : ℕ)
      → rate.limit < window_cost rate.expire r.now history + r.cost
      → 0 < n
      → Some (λ x. x.timestamp + rate.expire ≡ r.now + n) history
      → Each
          (λ x. r.now < x.timestamp + rate.expire → r.now + n ≤ x.timestamp + rate.expire)
          history
      → w ≡ wait_ms n
      → Promised rate r history w
  refuses :
      rate.limit < window_cost rate.expire r.now history + r.cost
      → Each (λ x. x.timestamp + rate.expire ≤ r.now) history
      → w ≡ forever
      → Promised rate r history w

-- A request with its answer: it is in the history if it was admitted.
abbrev pub entry_if : Wait → Request → List Logged
entry_if allowed r = logged r ∷ []
entry_if (wait_ms n) r = []
entry_if forever r = []

-- Each request of a run is answered as it is promised, against the requests admitted before it.
unfoldable pub Kept : Rate → List Request → List Wait → List Logged → Type 0
Kept rate [] [] history = Unit {0}
Kept rate [] (w ∷ waits) history = ⊥
Kept rate (r ∷ requests) [] history = ⊥
Kept rate (r ∷ requests) (w ∷ waits) history =
    Promised rate r history w × Kept rate requests waits (history ++ entry_if w r)

pub total-window :
    (duration t : ℕ) (log : List Logged)
    → total_cost (valid_entries duration t log) ≡ window_cost duration t log
unfolding total_cost valid_entries window_cost
total-window duration t [] = refl
total-window duration t (x ∷ log) = elim (Bool-cases (in_window duration t x)) [
  | inl e ↦ rw (e, stays x e) (omega (arith, total-window duration t log))
  | inr e ↦ rw (e, leaves x e) (omega (arith, total-window duration t log))
]
  where
    stays : (x : Logged) → in_window duration t x ≡ true → leb (x.timestamp + duration) t ≡ false
    stays x e = ground (arith, e)

    leaves : (x : Logged) → in_window duration t x ≡ false → leb (x.timestamp + duration) t ≡ true
    leaves x e = ground (arith, e)

weaken :
    {P Q : Logged → Type 0} (log : List Logged)
    → ((x : Logged) → P x → Q x)
    → Each P log
    → Each Q log
weaken [] f e = tt
weaken (x ∷ log) f e = (f x (e.0), weaken log f (e.1))

-- The oldest entry of the window at `now` is the first to leave.
data Oldest (duration now : ℕ) (log : List Logged) : Type 0 where
  no_entry :
      oldest_timestamp (valid_entries duration now log) ≡ none
      → Each (λ x. x.timestamp + duration ≤ now) log
      → Oldest duration now log
  first :
      (oldest : ℕ)
      → oldest_timestamp (valid_entries duration now log) ≡ some oldest
      → now < oldest + duration
      → Some (λ x. x.timestamp ≡ oldest) log
      → Each (λ x. now < x.timestamp + duration → oldest ≤ x.timestamp) log
      → Oldest duration now log

more :
    (duration now : ℕ) (x : Logged) (log : List Logged)
    → now < x.timestamp + duration
    → Oldest duration now log
    → (oldest : ℕ) × (earlier x.timestamp (oldest_timestamp (valid_entries duration now log))
        ≡ some oldest)
      × (now < oldest + duration)
      × Some (λ x. x.timestamp ≡ oldest) (x ∷ log)
      × Each (λ x. now < x.timestamp + duration → oldest ≤ x.timestamp) (x ∷ log)
more duration now x log lt (no_entry e left) = (
  x.timestamp,
  rw (e) refl,
  lt,
  inl refl,
  ((λ _. omega arith), weaken log (λ y h k. absurd (omega (arith, h, k))) left),
)
more duration now x log lt (first oldest e in_it found below) =
    elim (Bool-cases (leb x.timestamp oldest)) [
      | inl le ↦ (
        x.timestamp,
        rw (e) (ground (arith, le)),
        lt,
        inl refl,
        (
          (λ _. omega arith),
          weaken log (λ y h k. omega (arith, h k, le_of x.timestamp oldest le)) below,
        ),
      )
      | inr gt ↦ (
        oldest,
        rw (e) (ground (arith, gt)),
        in_it,
        inr found,
        ((λ _. ground (arith, gt)), below),
      )
    ]
  where
    le_of : (a b : ℕ) → leb a b ≡ true → a ≤ b
    le_of a b e = ground (arith, e)

Oldest_all : (duration now : ℕ) (log : List Logged) → Oldest duration now log
unfolding valid_entries oldest_timestamp
Oldest_all duration now [] = no_entry refl tt
Oldest_all duration now (x ∷ log) = elim (Bool-cases (in_window duration now x)) [
  | inl e ↦
      let (oldest, f, in_it, found, below) =
        more duration now x log (inside x e) (Oldest_all duration now log) in
      first oldest (rw (e) f) in_it found below
  | inr e ↦ elim (Oldest_all duration now log) [
    | no_entry f left ↦ no_entry (rw (e) f) (outside x e, left)
    | first oldest f in_it found below ↦
        first oldest (rw (e) f) in_it (inr found)
          ((λ k. absurd (omega (arith, k, outside x e))), below)
  ]
]
  where
    inside : (x : Logged) → in_window duration now x ≡ true → now < x.timestamp + duration
    inside x e = ground (arith, e)

    outside : (x : Logged) → in_window duration now x ≡ false → x.timestamp + duration ≤ now
    outside x e = ground (arith, e)

shifted :
    (duration now oldest : ℕ) (log : List Logged)
    → now < oldest + duration
    → Some (λ x. x.timestamp ≡ oldest) log
    → Some (λ x. x.timestamp + duration ≡ now + (oldest + duration - now)) log
shifted duration now oldest [] lt found = elim found [ ]
shifted duration now oldest (x ∷ log) lt (inl e) = inl (omega (arith, e, lt))
shifted duration now oldest (x ∷ log) lt (inr e) = inr (shifted duration now oldest log lt e)

-- A request that the window has no room for is told to wait until its first entry leaves.
pub wait-Promised :
    (rate : Rate) (r : Request) (history : List Logged)
    → rate.limit < window_cost rate.expire r.now history + r.cost
    → Promised rate r history
        (wait_until rate.expire r.now (oldest_timestamp (valid_entries rate.expire r.now history)))
wait-Promised rate r history over = elim (Oldest_all rate.expire r.now history) [
  | no_entry e left ↦ refuses over left (rw (e) refl)
  | first oldest e in_it found below ↦
      delays (oldest + rate.expire - r.now) over (omega (arith, in_it))
        (shifted rate.expire r.now oldest history in_it found)
        (weaken history (λ y h k. omega (arith, h k, in_it)) below) (rw (e) refl)
]
