-- ===== src/FixedWindow/Retry.antt =====
-- The wait that `FixedWindowStrategy` (src/traffik/strategies/fixed_window.py) answers is measured to
-- the end of the clock's window, and the counter of a rate of a second or more lives for its TTL.
use traffik.Base.{ℕ, ◌+◌, ◌-◌, ◌%◌, true, List, [], ◌∷◌}
use traffik.Rate.{Rate}
use traffik.Store.{Store}
use traffik.FixedWindow.{Reading}
use traffik.FixedWindow.Count.{Request}

-- A call whose clocks do not move while it runs.
abbrev pub reading : ℕ → ℕ → Reading
reading wall mono = record { wall = wall; first = mono; second = mono; acquired = true }

-- The time until the wall clock is next a multiple of the window.
abbrev pub rest_of_window : Rate → ℕ → ℕ
rest_of_window rate wall = rate.expire - wall % rate.expire

unfoldable pub costs : List Request → ℕ
costs [] = 0
costs ((cost, at) ∷ requests) = cost + costs requests

-- A request, and another one that comes when the rest of the clock's window has passed.
abbrev pub and_again : Rate → ℕ → ℕ → ℕ → ℕ → List Request
and_again rate cost cost' wall mono =
    (cost, reading wall mono)
    ∷ (cost', reading (wall + rest_of_window rate wall) (mono + rest_of_window rate wall))
    ∷ []
