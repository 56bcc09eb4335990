-- ===== src/SlidingLog/Tests.antt =====
-- Runs of the sliding window log (src/traffik/strategies/sliding_window.py).
use traffik.Base.{ℕ, ◌≤◌, ◌≡◌, refl, List, [], ◌∷◌, none, arith}
use traffik.Rate.{Rate}
use traffik.SlidingLog.{Request, allowed, wait_ms, valid_entries, total_cost, oldest_timestamp, run}
use traffik.SlidingLog.Promise.{window_cost, Kept}
use traffik.SlidingLog.Exact.{expected, IsTimed, run-exact}
use traffik.SlidingLog.Limit.{admitted, last_time, whole, admitted-limit, log-lost}

abbrev two_per_second : Rate
two_per_second = record { limit = 2; expire = 1000 }

-- A request that reads the wall clock, and the backend's after so many milliseconds in `get` and `set`.
abbrev request : ℕ → ℕ → ℕ → Request
request now got put = record { cost = 1; now = now; got = got; put = put }

abbrev burst : List Request
burst =
    request 100 102 103 ∷ request 600 603 604 ∷ request 900 901 902 ∷ request 1150 1153 1154 ∷ []

burst-IsTimed : IsTimed two_per_second none burst
unfolding IsTimed
burst-IsTimed = (
  tt,
  (
    (omega arith, λ h. absurd (omega (arith, h))),
    (
      (omega arith, λ h. absurd (omega (arith, h))),
      ((omega arith, λ h. absurd (omega (arith, h))), tt),
    ),
  ),
)

run-exact_example : Kept two_per_second burst (run two_per_second burst none) []
run-exact_example = run-exact two_per_second burst refl burst-IsTimed

burst-expected : expected two_per_second burst [] ≡ allowed ∷ allowed ∷ wait_ms 200 ∷ allowed ∷ []
unfolding expected total_cost valid_entries oldest_timestamp
burst-expected = refl

admitted-limit_example : window_cost 1000 1150 (admitted burst (run two_per_second burst none)) ≤ 2
unfolding last_time
admitted-limit_example = admitted-limit two_per_second burst 1150 refl burst-IsTimed (omega arith)

abbrev two_per_period : Rate
two_per_period = record { limit = 2; expire = 1500 }

-- The second request comes a second after the first, half a second before its window ends.
log-lost_example :
    (run two_per_period
        (whole two_per_period (request 100 100 100)
          ∷ whole two_per_period (request 1100 1100 1100)
          ∷ [])
        none
      ≡ allowed ∷ allowed ∷ [])
    × (expected two_per_period
          (whole two_per_period (request 100 100 100)
            ∷ whole two_per_period (request 1100 1100 1100)
            ∷ [])
          []
        ≡ allowed ∷ wait_ms 500 ∷ [])
log-lost_example =
    log-lost two_per_period (request 100 100 100) (request 1100 1100 1100) refl (omega arith)
      (omega arith) (omega arith)

-- The second request reads the wall clock within the window, and waits for the lock until it is over.
late_read :
    run two_per_second
      (whole two_per_second (request 100 100 100)
        ∷ whole two_per_second (request 1099 1101 1101)
        ∷ [])
      none
    ≡ allowed ∷ allowed ∷ []
late_read =
    (log-lost two_per_second (request 100 100 100) (request 1099 1101 1101) refl (omega arith)
      (omega arith) (omega arith)).0
