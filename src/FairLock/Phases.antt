-- ===== src/FairLock/Phases.antt =====
-- The phases of `FairAsyncRLock` (src/traffik/_locks.py), and the wakes of its queue.
use traffik.Base.{
  ℕ, suc, ◌+◌, ◌≡◌, ◌≢◌, refl, sym, ap, ◌∙◌, Bool, true, false, Option, none, some, List, [], ◌∷◌,
  ◌==◌, if◌then◌else◌, Bool-cases, ==_iff, inl, inr, arith,
}
use traffik.FairLock.{Future, no_future, pending, done, cancelled, System, update, wake, wake_first}

-- Nobody has the lock; it passes to a task that was woken; a task holds it `suc n` times.
pub data Phase : Type 0 where
  free : Phase
  passing : ℕ → Phase
  owned : ℕ → ℕ → Phase

abbrev pub owner_of : Phase → Option ℕ
owner_of (owned t n) = some t
owner_of _ = none

abbrev pub count_of : Phase → ℕ
count_of (owned t n) = suc n
count_of _ = 0

abbrev pub is_passing : Phase → Bool
is_passing (passing t) = true
is_passing _ = false

abbrev pub passes : Phase → ℕ → Bool
passes (passing t) u = t == u
passes _ u = false

-- How many calls of `acquire` a task holds.
abbrev pub holds : Phase → ℕ → ℕ
holds (owned t n) u = if t == u then suc n else 0
holds _ u = 0

abbrev pub Waits : Phase → List ℕ → Type 0
Waits free queue = queue ≡ []
Waits _ queue = Unit

abbrev pub is_done : Future → Bool
is_done done = true
is_done _ = false

abbrev pub is_queued : Future → ℕ
is_queued pending = 1
is_queued cancelled = 1
is_queued _ = 0

unfoldable pub occurs : ℕ → List ℕ → ℕ
occurs u [] = 0
occurs u (t ∷ queue) = (if t == u then 1 else 0) + occurs u queue

pub record InPhase (p : Phase) (s : System) : Type 0 where
  pub owner : s.owner ≡ owner_of p
  pub count : s.count ≡ count_of p
  pub transfer : s.owner_transfer ≡ is_passing p
  pub woken : (u : ℕ) → is_done (s.futures u) ≡ passes p u
  pub queued : (u : ℕ) → occurs u s.queue ≡ is_queued (s.futures u)
  pub held : (u : ℕ) → s.held u ≡ holds p u
  pub waits : Waits p s.queue

-- The lock is in one of the phases: the tasks' futures and what they hold are those of the phase.
abbrev pub IsValid : System → Type 0
IsValid s = (p : Phase) × InPhase p s

-- No release of the last hold meets a cancelled future.
abbrev pub HeadWaits : List ℕ → (ℕ → Future) → Type 0
HeadWaits [] futures = Unit
HeadWaits (t ∷ queue) futures = futures t ≢ cancelled

-- What a lock that was just given up keeps, before its queue is woken.
pub record Released (s : System) : Type 0 where
  pub owner : s.owner ≡ none
  pub count : s.count ≡ 0
  pub transfer : s.owner_transfer ≡ false
  pub woken : (u : ℕ) → is_done (s.futures u) ≡ false
  pub queued : (u : ℕ) → occurs u s.queue ≡ is_queued (s.futures u)
  pub held : (u : ℕ) → s.held u ≡ 0

pub true-false : true ≢ false
true-false e = cc e

pub same : (t u : ℕ) → (t == u) ≡ true → t ≡ u
same t u e = (==_iff t u).0 e

occurs_first : (t : ℕ) (q : List ℕ) → occurs t (t ∷ q) ≢ 0
unfolding occurs
occurs_first t q e = ground (arith, e)

occurs_woken :
    (t u : ℕ) (q : List ℕ) (f : ℕ → Future)
    → f t ≡ pending
    → occurs u (t ∷ q) ≡ is_queued (f u)
    → occurs u q ≡ is_queued (update t done f u)
unfolding occurs
occurs_woken t u q f h k = elim (Bool-cases (t == u)) [
  | inl m ↦
      let k' : occurs u (t ∷ q) ≡ 1 =
        k ∙ ap (λ v. is_queued (f v)) (sym (same t u m)) ∙ ap is_queued h in
      rw (m) (ground (arith, k', m))
  | inr m ↦ rw (m) (ground (arith, k, m))
]

wake-InPhase :
    (t : ℕ) (q : List ℕ) (s : System) (f : Future)
    → s.queue ≡ t ∷ q
    → s.futures t ≡ f
    → f ≢ cancelled
    → Released s
    → ((wake t f (record s { queue = q })).0 ≡ none) × IsValid (wake t f (record s { queue = q })).1
unfolding wake occurs
wake-InPhase t q s no_future e h n r =
    elim (occurs_first t q (ap (occurs t) (sym e) ∙ r.queued t ∙ ap is_queued h)) [ ]
wake-InPhase t q s done e h n r = elim (true-false (sym (ap is_done h) ∙ r.woken t)) [ ]
wake-InPhase t q s cancelled e h n r = elim (n refl) [ ]
wake-InPhase t q s pending e h n r = (
  refl,
  (
    passing t,
    record {
      owner = r.owner;
      count = r.count;
      transfer = refl;
      woken = λ u. ground (arith, r.woken u);
      queued = λ u. occurs_woken t u q s.futures h (ap (occurs u) (sym e) ∙ r.queued u);
      held = r.held;
      waits = tt;
    },
  ),
)

pub wake_first-IsValid :
    (q : List ℕ) (s : System)
    → s.queue ≡ q
    → Released s
    → HeadWaits q s.futures
    → ((wake_first q s).0 ≡ none) × IsValid (wake_first q s).1
unfolding wake_first
wake_first-IsValid [] s e r h = (
  refl,
  (
    free,
    record {
      owner = r.owner;
      count = r.count;
      transfer = r.transfer;
      woken = r.woken;
      queued = r.queued;
      held = r.held;
      waits = e;
    },
  ),
)
wake_first-IsValid (t ∷ q) s e r h = wake-InPhase t q s (s.futures t) e refl h r
