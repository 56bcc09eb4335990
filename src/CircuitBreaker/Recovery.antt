-- ===== src/CircuitBreaker/Recovery.antt =====
-- Runs of `CircuitBreaker` (src/traffik/_utils.py): how failures open it, how it rejects while it is
-- open, and how probes close it again.
use traffik.Base.{
  ℕ, ◌+◌, ◌<◌, ◌≡◌, refl, ◌∙◌, ap, Bool, true, false, Option, none, some, List, [], ◌∷◌, ◌++◌, map,
  ltb, leb, if◌then◌else◌, Bool-cases, inl, inr, arith,
}
use traffik.Result.{ok, Returns}
use traffik.CircuitBreaker.{
  CircuitState, is_closed, is_open, CircuitBreaker, to_open, to_half_open, allow_execution,
  allow_in, success_in, failure_in, record_success, record_failure, Call, allow, success, failure,
  probe_after, force_open, force_close, step, run,
}

-- No call forces the breaker, and every execution is asked for before `end`.
abbrev pub Early : ℕ → List Call → Type 0
Early end [] = Unit
Early end (allow now ∷ calls) = (now < end) × Early end calls
Early end (success ∷ calls) = Early end calls
Early end (failure now ∷ calls) = Early end calls
Early end (_ ∷ calls) = ⊥

-- One rejection for every execution that is asked for.
unfoldable pub rejections : List Call → List Bool
rejections [] = []
rejections (allow now ∷ calls) = false ∷ rejections calls
rejections (_ ∷ calls) = rejections calls

success_in-open : (b : CircuitBreaker) → b.state ≡ is_open → success_in b.state b ≡ b
unfolding success_in
success_in-open b e = ap (λ (s : CircuitState). success_in s b) e

failure_in-open : (now : ℕ) (b : CircuitBreaker) → b.state ≡ is_open → failure_in now b.state b ≡ b
unfolding failure_in
failure_in-open now b e = ap (λ (s : CircuitState). failure_in now s b) e

-- What `allow_execution` does when the breaker is open.
pub allow_in-open :
    (now : ℕ) (b : CircuitBreaker) (t : ℕ)
    → b.state ≡ is_open
    → b.opened_at ≡ some t
    → allow_in now b.state b
      ≡ (if ltb now (t + b.recovery_timeout) then ok (false, b) else ok (true, to_half_open b))
unfolding allow_in probe_after
allow_in-open now b t e o =
    ap (λ (s : CircuitState). allow_in now s b) e ∙ ap (λ (o : Option ℕ). probe_after now o b) o

-- While an open breaker's timeout runs, every execution is rejected, and neither these calls nor any
-- record of success or failure changes the breaker.
pub open-rejects :
    (calls : List Call) (b : CircuitBreaker) (t : ℕ)
    → b.state ≡ is_open
    → b.opened_at ≡ some t
    → Early (t + b.recovery_timeout) calls
    → run calls b ≡ ok (rejections calls, b)
unfolding run step allow_execution record_success record_failure rejections
open-rejects [] b t e o h = refl
open-rejects (allow now ∷ calls) b t e o (lt, h) =
    let early : ltb now (t + b.recovery_timeout) ≡ true = ground (arith, lt) in
    rw (allow_in-open now b t e o, early, open-rejects calls b t e o h) refl
open-rejects (success ∷ calls) b t e o h =
    rw (success_in-open b e, open-rejects calls b t e o h) refl
open-rejects (failure now ∷ calls) b t e o h =
    rw (failure_in-open now b e, open-rejects calls b t e o h) refl
open-rejects (force_open now ∷ calls) b t e o h = elim h [ ]
open-rejects (force_close ∷ calls) b t e o h = elim h [ ]

-- A record of a success, or of a failure at a time.
unfoldable pub record_call : Option ℕ → Call
record_call none = success
record_call (some now) = failure now

-- Whether some failures in a row, after `streak` of them, reach the threshold.
unfoldable pub trips : ℕ → ℕ → List (Option ℕ) → Bool
trips threshold streak [] = false
trips threshold streak (none ∷ records) = trips threshold 0 records
trips threshold streak (some now ∷ records) =
    let rest = trips threshold (streak + 1) records in
    if leb threshold (streak + 1) then true else rest

open_unchanged :
    (records : List (Option ℕ)) (b : CircuitBreaker)
    → b.state ≡ is_open
    → run (map record_call records) b ≡ ok ([], b)
unfolding run step record_success record_failure record_call
open_unchanged [] b e = refl
open_unchanged (none ∷ records) b e = rw (success_in-open b e, open_unchanged records b e) refl
open_unchanged (some now ∷ records) b e =
    rw (failure_in-open now b e, open_unchanged records b e) refl

pub success_in-closed :
    (b : CircuitBreaker)
    → b.state ≡ is_closed
    → success_in b.state b ≡ record b { failure_count = 0 }
unfolding success_in
success_in-closed b e = ap (λ (s : CircuitState). success_in s b) e

failure_in-closed :
    (now : ℕ) (b : CircuitBreaker)
    → b.state ≡ is_closed
    → failure_in now b.state b ≡ (
        if leb b.failure_threshold (b.failure_count + 1)
        then to_open now b
        else record b { failure_count = b.failure_count + 1 })
unfolding failure_in
failure_in-closed now b e = ap (λ (s : CircuitState). failure_in now s b) e

-- Over any records of successes and failures, a closed breaker opens exactly if some failures in a
-- row, with those it counted before, reach the failure threshold: a success between starts the
-- count again.
pub records-IsOpen :
    (records : List (Option ℕ)) (b : CircuitBreaker)
    → b.state ≡ is_closed
    → Returns (run (map record_call records) b) (λ r.
      r.1.state
      ≡ (if trips b.failure_threshold b.failure_count records then is_open else is_closed))
unfolding run step record_success record_failure record_call trips
records-IsOpen [] b e = (_, refl, e)
records-IsOpen (none ∷ records) b e =
    let (r, p, q) = records-IsOpen records (record b { failure_count = 0 }) e in
    (([] ++ r.0, r.1), rw (success_in-closed b e, p) refl, q)
records-IsOpen (some now ∷ records) b e =
    elim (Bool-cases (leb b.failure_threshold (b.failure_count + 1))) [
      | inl h ↦ (
        ([], to_open now b),
        rw (failure_in-closed now b e, h, open_unchanged records (to_open now b) refl) refl,
        rw (h) refl,
      )
      | inr h ↦
          let (r, p, q) =
            records-IsOpen records (record b { failure_count = b.failure_count + 1 }) e in
          (([] ++ r.0, r.1), rw (failure_in-closed now b e, h, p) refl, rw (h) q)
    ]
