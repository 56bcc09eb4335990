-- ===== src/FixedWindow/Tests.antt =====
-- Runs of the fixed window (src/traffik/strategies/fixed_window.py) on the in-memory backend.
use traffik.Base.{ℕ, ◌≡◌, ◌≤◌, refl, false, none, List, [], ◌∷◌, length, arith}
use traffik.Base.Int.{ℤ, pos}
use traffik.Base.Text.{Str, codes}
use traffik.Result.{Returns}
use traffik.Rate.{Rate}
use traffik.InMemory
use traffik.InMemory.{Backend}
use traffik.InMemory.AsStore.{in_memory}
use traffik.InMemory.Views.{IsValid, view}
use traffik.InMemory.Lifecycle.{initialize-IsValid}
use traffik.FixedWindow.{in_current_window}
use traffik.FixedWindow.Count.{Request, run, expected, admitted, run-eq-expected, admitted-le-limit}
use traffik.FixedWindow.Retry.{reading}
use traffik.FixedWindow.Subsecond.{subsecond-eq-expected}

abbrev hash : Str → ℤ
hash s = pos (length s)

abbrev start : Backend
start = InMemory.initialize (record { number_of_shards = 3; shards = []; initialized = false })

ready : IsValid start × ((t : ℕ) (key : Str) → view hash t key start ≡ none)
unfolding InMemory.new
ready = initialize-IsValid hash 3 _ refl

abbrev key : Str
key = codes "ns:user"

abbrev per_second : Rate
per_second = record { limit = 2; expire = 1000 }

abbrev burst : List Request
burst = (1, reading 5200 100) ∷ (1, reading 5300 200) ∷ (1, reading 5400 300) ∷ []

-- Three requests at a limit of two: the third waits for the rest of the clock's second.
burst-expected : expected per_second 0 burst ≡ 0 ∷ 0 ∷ 600 ∷ []
unfolding expected
burst-expected = refl

run-eq-expected_example :
    Returns
      (run (in_memory hash) key per_second burst start)
      (λ r. (r.0 ≡ expected per_second 0 burst) × IsValid r.1)
run-eq-expected_example =
    run-eq-expected (in_memory hash) key per_second refl refl 1 (reading 5200 100)
      ((1, reading 5300 200) ∷ (1, reading 5400 300) ∷ []) start (ready.0) (ready.1 _ _)
      (omega arith)

admitted-le-limit_example :
    Returns (run (in_memory hash) key per_second burst start) (λ r. admitted burst r.0 ≤ 2)
admitted-le-limit_example =
    admitted-le-limit (in_memory hash) key per_second refl refl 1 (reading 5200 100)
      ((1, reading 5300 200) ∷ (1, reading 5400 300) ∷ []) start (ready.0) (ready.1 _ _)
      (omega arith)

abbrev per_half_second : Rate
per_half_second = record { limit = 2; expire = 500 }

abbrev half_burst : List Request
half_burst = (2, reading 5200 100) ∷ (1, reading 5300 200) ∷ []

subsecond-eq-expected_example :
    Returns
      (run (in_memory hash) key per_half_second half_burst start)
      (λ r. (r.0 ≡ expected per_half_second 0 half_burst) × IsValid r.1)
unfolding in_current_window
subsecond-eq-expected_example =
    subsecond-eq-expected (in_memory hash) key per_half_second refl refl 5000 2 (reading 5200 100)
      ((1, reading 5300 200) ∷ []) start (ready.0) refl refl (omega arith) (rw (ready.1) refl)
      (refl, refl, omega arith, omega arith, omega arith, tt)
