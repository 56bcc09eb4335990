-- ===== src/FixedWindow/Count.antt =====
-- Runs of `FixedWindowStrategy` (src/traffik/strategies/fixed_window.py) with a rate of a second or
-- more: one counter, whose TTL starts at the first request.
use native.Mathlib.Nat.{zero-add, mod-eq-sub-div-mul}
use traffik.Base.{
  ℕ, ◌+◌, ◌-◌, ◌*◌, ◌%◌, leb, ◌≤◌, ◌<◌, ◌≡◌, refl, ◌∙◌, ap, false, Option, none, some, List, [],
  ◌∷◌, ◌==◌, if◌then◌else◌, arith,
}
use traffik.Base.Int.{ℤ, pos, int_laws}
use traffik.Base.Text.{Str, str_eq_refl}
use traffik.Result.{Result, ok, ◌>>=◌, Returns}
use traffik.Rate.{Rate, is_subsecond, unlimited}
use traffik.Shard.{Entry, number, as_int}
use traffik.Shard.View.{live, counted, count_of, incremented_ttl}
use traffik.Store.{Store}
use traffik.FixedWindow.{Reading, counter_key, ttl_seconds, verdict, hit}

-- A request: its cost, and the clocks as its call reads them.
abbrev pub Request : Type 0
Request = ℕ × Reading

-- The requests in turn; the waits that the strategy answers.
unfoldable pub run :
    (store : Store) → Str → Rate → List Request → store.State → Result (List ℕ × store.State)
run store key rate [] s = ok ([], s)
run store key rate ((cost, at) ∷ rest) s = do
  (wait, s') ← hit store key rate cost at s
  (waits, s'') ← run store key rate rest s'
  ok (wait ∷ waits, s'')

-- What is due to a request when `total` is counted with it: nothing up to the limit, and above it the
-- time until the wall clock is next a multiple of the window.
abbrev pub due : Rate → ℕ → ℕ → ℕ
due rate wall total = if leb total rate.limit then 0 else rate.expire - wall % rate.expire

-- The answers of one window in which `total` was counted before.
unfoldable pub expected : Rate → ℕ → List Request → List ℕ
expected rate total [] = []
expected rate total ((cost, at) ∷ rest) =
    due rate at.wall (total + cost) ∷ expected rate (total + cost) rest

-- The backend's clock does not run backwards from `now`, and stays below `end`.
abbrev pub Within : ℕ → ℕ → List Request → Type 0
Within now end [] = Unit
Within now end ((cost, at) ∷ rest) = (now ≤ at.first) × (at.first < end) × Within at.first end rest

-- The cost of the requests that were answered with no wait.
unfoldable pub admitted : List Request → List ℕ → ℕ
admitted ((cost, at) ∷ rest) (wait ∷ waits) = (if wait == 0 then cost else 0) + admitted rest waits
admitted _ _ = 0

-- The verdict of the strategy is what is due.
pub verdict-due :
    (rate : Rate) (wall total : ℕ) → verdict rate wall (pos total) ≡ due rate wall total
verdict-due rate wall total = ground (arith, mod-eq-sub-div-mul wall rate.expire)

-- A rate that limits has a positive window, and the rest of it is positive.
pub rest_pos : (rate : Rate) (wall : ℕ) → 0 < rate.expire → 0 < rate.expire - wall % rate.expire
rest_pos rate wall h = grind arith

module _ (rate : Rate) (h : 0 < rate.expire) where
  pub admitted-expected-le :
      (total : ℕ) (requests : List Request)
      → admitted requests (expected rate total requests) ≤ rate.limit - total
  unfolding admitted expected
  admitted-expected-le total [] = omega arith
  admitted-expected-le total ((cost, at) ∷ rest) =
      ground (arith, admitted-expected-le (total + cost) rest, rest_pos rate at.wall h)

counted_number :
    (total cost : ℕ) (d : Option ℕ)
    → counted (pos cost) (count_of (some (number (pos total), d))) ≡ pos (total + cost)
unfolding as_int
counted_number total cost d = omega int_laws

incremented_number :
    (now ttl total cost end : ℕ)
    → incremented_ttl now (pos cost) ttl (some (number (pos total), some end))
      ≡ (number (pos (total + cost)), some end)
unfolding as_int
incremented_number now ttl total cost end =
    ap (λ (n : ℤ). (number n, some end)) (counted_number total cost (some end))

module _ (store : Store) (key : Str) (rate : Rate) (limited : unlimited rate ≡ false)
    (long : is_subsecond rate ≡ false) where
  open store use {State, IsValid, view, view_later, increment_with_ttl, increment_with_ttl_lem}

  -- The counter holds `total` until `end`.
  record Counts (now total end : ℕ) (s : State) : Type 0 where
    valid : IsValid s
    counter :
        (t : ℕ)
        → now ≤ t
        → view t (counter_key key) s ≡ live t (some (number (pos total), some end))

  hit-Counts :
      (now total end cost : ℕ) (at : Reading) (s : State)
      → Counts now total end s
      → now ≤ at.first
      → at.first < end
      → Returns
          (hit store key rate cost at s)
          (λ r. (r.0 ≡ due rate at.wall (total + cost)) × Counts at.first (total + cost) end r.1)
  unfolding hit as_int
  hit-Counts now total end cost at s c le lt =
      let seen : view at.first (counter_key key) s ≡ some (number (pos total), some end) =
        c.counter at.first le ∙ ground arith in
      let (r, e, (a, v, u)) =
        increment_with_ttl_lem at.first (counter_key key) (pos cost) (ttl_seconds rate) s c.valid in
      let sum : r.0 ≡ pos (total + cost) =
        a
        ∙ ap (λ (o : Option Entry). counted (pos cost) (count_of o)) seen
        ∙ counted_number total cost (some end) in
      (
        (verdict rate at.wall r.0, r.1),
        rw (limited, long, e) refl,
        (
          ap (verdict rate at.wall) sum ∙ verdict-due rate at.wall (total + cost),
          record {
            valid = v;
            counter = λ t h.
                u t (counter_key key) h
                ∙ rw (str_eq_refl (counter_key key), seen, incremented_number) refl;
          },
        ),
      )

  run-eq-expected_from :
      (requests : List Request) (now total end : ℕ) (s : State)
      → Counts now total end s
      → Within now end requests
      → Returns
          (run store key rate requests s)
          (λ r. (r.0 ≡ expected rate total requests) × IsValid r.1)
  unfolding run expected
  run-eq-expected_from [] now total end s c h = (([], s), refl, (refl, c.valid))
  run-eq-expected_from ((cost, at) ∷ rest) now total end s c h =
      let (r, e, (a, c')) = hit-Counts now total end cost at s c (h.0) (h.1) in
      let (r', e', (a', v)) = run-eq-expected_from rest at.first (total + cost) end r.1 c' (h.2) in
      ((r.0 ∷ r'.0, r'.1), rw (e, e') refl, (cc, v))

  -- From a state with no live counter, the first request and those that reach the backend before the
  -- counter's TTL has passed are answered by the running sum of their costs: each whose sum exceeds
  -- the limit waits until the wall clock is next a multiple of the window, and the others do not wait.
  pub run-eq-expected :
      (cost : ℕ) (at : Reading) (rest : List Request) (s : State)
      → IsValid s
      → view at.first (counter_key key) s ≡ none
      → Within at.first (at.first + 1000 * ttl_seconds rate) rest
      → Returns
          (run store key rate ((cost, at) ∷ rest) s)
          (λ r. (r.0 ≡ expected rate 0 ((cost, at) ∷ rest)) × IsValid r.1)
  unfolding run expected hit
  run-eq-expected cost at rest s v fresh h =
      let (r, e, (a, w, u)) =
        increment_with_ttl_lem at.first (counter_key key) (pos cost) (ttl_seconds rate) s v in
      let first : r.0 ≡ pos cost = a ∙ rw fresh refl in
      let (r', e', (a', v')) =
        run-eq-expected_from rest at.first cost (at.first + 1000 * ttl_seconds rate) r.1
          (record {
            valid = w;
            counter =
                λ t h. u t (counter_key key) h ∙ rw (str_eq_refl (counter_key key), fresh) refl;
          })
          h in
      (
        (verdict rate at.wall r.0 ∷ r'.0, r'.1),
        rw (limited, long, e, e') refl,
        (rw (first, zero-add cost, verdict-due, a') refl, v'),
      )

  -- Within the TTL of the counter the requests that need not wait cost at most the limit, whatever
  -- their times, costs and order.
  pub admitted-le-limit :
      (cost : ℕ) (at : Reading) (rest : List Request) (s : State)
      → IsValid s
      → view at.first (counter_key key) s ≡ none
      → Within at.first (at.first + 1000 * ttl_seconds rate) rest
      → Returns
          (run store key rate ((cost, at) ∷ rest) s)
          (λ r. admitted ((cost, at) ∷ rest) r.0 ≤ rate.limit)
  admitted-le-limit cost at rest s v fresh h =
      let (r, e, (a, _)) = run-eq-expected cost at rest s v fresh h in
      let bound = admitted-expected-le rate (ground arith) 0 ((cost, at) ∷ rest) in
      (r, e, rw a (omega (arith, bound)))
