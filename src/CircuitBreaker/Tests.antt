-- ===== src/CircuitBreaker/Tests.antt =====
-- Runs of `CircuitBreaker` (src/traffik/_utils.py), and its theorems at them.
use traffik.Base.{
  ℕ, ◌≡◌, ◌≢◌, ◌≤◌, refl, true, false, some, none, List, [], ◌∷◌, map, length, replicate, leb,
  if◌then◌else◌, arith,
}
use traffik.Result.{ok, Returns}
use traffik.CircuitBreaker.{
  is_closed, is_open, is_half_open, CircuitBreaker, initial, to_open, Call, allow, success, failure,
  force_open, force_close, run,
}
use traffik.CircuitBreaker.Machine.{IsValid, run-IsValid}
use traffik.CircuitBreaker.Recovery.{rejections, open-rejects, record_call, trips, records-IsOpen}
use traffik.CircuitBreaker.Probes.{passed, probe-single, successful_probes, recovery-IsClosed}

abbrev breaker : CircuitBreaker
breaker = initial 2 10 2

abbrev opened : CircuitBreaker
opened = to_open 3 breaker

opened-IsValid : IsValid opened
opened-IsValid = record {
  failures = omega arith;
  successes = omega arith;
  fits = (refl, refl, (3, refl), refl);
}

breaker-IsValid : IsValid breaker
breaker-IsValid = record {
  failures = omega arith;
  successes = omega arith;
  fits = (omega arith, refl, refl, refl);
}

abbrev calls : List Call
calls = failure 1 ∷ failure 2 ∷ allow 20 ∷ allow 21 ∷ success ∷ force_open 30 ∷ force_close ∷ []

run-IsValid_example : Returns (run calls breaker) (λ r. IsValid r.1)
run-IsValid_example = run-IsValid calls breaker breaker-IsValid

abbrev early_calls : List Call
early_calls = allow 4 ∷ success ∷ failure 9 ∷ allow 12 ∷ []

open-rejects_example : run early_calls opened ≡ ok (rejections early_calls, opened)
open-rejects_example = open-rejects early_calls opened 3 refl refl (omega arith, (omega arith, tt))

rejections-early : rejections early_calls ≡ false ∷ false ∷ []
unfolding rejections
rejections-early = refl

records-IsOpen_example :
    Returns (run (map record_call (some 1 ∷ none ∷ some 2 ∷ some 3 ∷ [])) breaker) (λ r.
      r.1.state ≡ (if trips 2 0 (some 1 ∷ none ∷ some 2 ∷ some 3 ∷ []) then is_open else is_closed))
records-IsOpen_example = records-IsOpen (some 1 ∷ none ∷ some 2 ∷ some 3 ∷ []) breaker refl

trips-records : trips 2 0 (some 1 ∷ none ∷ some 2 ∷ some 3 ∷ []) ≡ true
unfolding trips
trips-records = refl

is_open-is_closed : is_open ≢ is_closed
is_open-is_closed e = cc e

probe-single_example : Returns (run (map allow (12 ∷ 13 ∷ 14 ∷ [])) opened) (λ r. passed r.0 ≤ 1)
probe-single_example = probe-single (12 ∷ 13 ∷ 14 ∷ []) opened is_open-is_closed opened-IsValid

abbrev probe_times : List ℕ
probe_times = 13 ∷ 14 ∷ []

recovery-IsClosed_example : Returns (run (successful_probes probe_times) opened) (λ r.
    (r.0 ≡ replicate (length probe_times) true)
    × (r.1.state ≡ (if leb 2 (length probe_times) then is_closed else is_half_open)))
recovery-IsClosed_example =
    recovery-IsClosed 13 (14 ∷ []) opened 3 opened-IsValid refl refl (omega arith)
