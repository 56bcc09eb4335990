-- ===== src/FixedWindow.antt =====
-- `FixedWindowStrategy` of src/traffik/strategies/fixed_window.py, over any backend. Wall-clock
-- times are whole milliseconds, as the backend's are. The window of a rate of a second or more is one
-- counter with a TTL; a shorter one keeps the start of its window beside the counter, under a lock.
pub mod Count
pub mod Retry
pub mod Subsecond
pub mod Tests
use traffik.Base.{
  ℕ, ◌-◌, ◌*◌, ◌/◌, Bool, true, false, not, Option, none, some, List, [], ◌∷◌, ◌++◌, max, ◌==◌,
  if◌then◌else◌,
}
use traffik.Base.Int.{ℤ, pos, ltb_ℤ, leb_ℤ, pos_part, ◌-ℤ◌}
use traffik.Base.Text.{Str, codes, str_of_int, int_of_str}
use traffik.Result.{Result, ok, err, value_error, lock_acquisition_error, ◌>>=◌, ◌>>◌, raise_if}
use traffik.Rate.{Rate, is_subsecond, unlimited}
use traffik.Store.{Store}

-- The clocks as one call reads them: the wall clock, and the backend's clock in its first and its
-- second operation; and whether the named lock was got.
pub record Reading : Type 0 where
  pub wall : ℕ
  pub first : ℕ
  pub second : ℕ
  pub acquired : Bool

abbrev pub base_key : Str → Str
base_key full_key = full_key ++ codes ":fixedwindow"

abbrev pub counter_key : Str → Str
counter_key full_key = base_key full_key ++ codes ":counter"

abbrev pub window_start_key : Str → Str
window_start_key full_key = base_key full_key ++ codes ":start"

abbrev pub ttl_seconds : Rate → ℕ
ttl_seconds rate = max (rate.expire / 1000) 2

-- `(now // window_duration_ms) * window_duration_ms`
abbrev pub window_start : Rate → ℕ → ℕ
window_start rate now = now / rate.expire * rate.expire

-- `max(window_duration_ms - time_in_window, 0)`
abbrev pub wait_in_window : Rate → ℕ → ℕ
wait_in_window rate now = rate.expire - (now - window_start rate now)

-- The wait for a counter: the rest of the window above the limit.
abbrev pub verdict : Rate → ℕ → ℤ → ℕ
verdict rate now counter = if ltb_ℤ (pos rate.limit) counter then wait_in_window rate now else 0

same_window : ℕ → Option ℤ → Bool
same_window start none = false
same_window start (some (pos n)) = n == start
same_window start (some (ℤ.negsuc n)) = false

-- Whether the stored start is that of the current window; a text that is no integer is not.
unfoldable pub in_current_window : ℕ → Option Str → Bool
unfolding same_window
in_current_window start none = false
in_current_window start (some s) = same_window start (int_of_str s)

module _ (store : Store) where
  open store use {State, get, increment_with_ttl, multi_set, multi_get}

  -- The body that runs under the lock: a new window begins a new count.
  unfoldable pub count_subsecond : Str → Rate → ℕ → Reading → Bool → State → Result (ℤ × State)
  count_subsecond full_key rate cost at false s = do
    (_, s') ←
        multi_set at.second
          ((window_start_key full_key, str_of_int (pos (window_start rate at.wall)))
            ∷ (counter_key full_key, str_of_int (pos cost))
            ∷ [])
          (some (ttl_seconds rate)) s
    ok (pos cost, s')
  count_subsecond full_key rate cost at true s =
      increment_with_ttl at.second (counter_key full_key) (pos cost) (ttl_seconds rate) s

  unfoldable pub hit_subsecond : Str → Rate → ℕ → Reading → State → Result (ℕ × State)
  unfolding count_subsecond
  hit_subsecond full_key rate cost at s = do
    raise_if (not at.acquired) lock_acquisition_error
    (stored, s') ← get at.first (window_start_key full_key) s
    (counter, s'') ←
        count_subsecond full_key rate cost at (in_current_window (window_start rate at.wall) stored)
          s'
    ok (verdict rate at.wall counter, s'')

  unfoldable pub hit_second : Str → Rate → ℕ → Reading → State → Result (ℕ × State)
  hit_second full_key rate cost at s = do
    (counter, s') ←
        increment_with_ttl at.first (counter_key full_key) (pos cost) (ttl_seconds rate) s
    ok (verdict rate at.wall counter, s')

  -- `__call__`: the wait in milliseconds, zero if the request is allowed.
  unfoldable pub hit : Str → Rate → ℕ → Reading → State → Result (ℕ × State)
  unfolding hit_second hit_subsecond
  hit full_key rate cost at s =
      if unlimited rate
      then ok (0, s)
      else if not (is_subsecond rate)
      then hit_second full_key rate cost at s
      else hit_subsecond full_key rate cost at s

-- What `get_stat` reports; `none` hits remaining stand for infinity.
pub record Stat : Type 0 where
  pub hits_remaining : Option ℕ
  pub wait_ms : ℕ
  pub current_count : ℤ

-- `int(stored_counter) if stored_counter else 0`
abbrev pub read_counter : Option Str → Result ℤ
read_counter none = ok (pos 0)
read_counter (some []) = ok (pos 0)
read_counter (some (c ∷ s)) = elim (int_of_str (c ∷ s)) [ none ↦ err value_error | some n ↦ ok n ]

-- `max(rate.limit - counter, 0)`, and the wait once the counter reaches the limit.
abbrev pub stat_of : Rate → ℕ → ℤ → Stat
stat_of rate now counter = record {
  hits_remaining = some (pos_part (pos rate.limit -ℤ counter));
  wait_ms = if leb_ℤ (pos rate.limit) counter then wait_in_window rate now else 0;
  current_count = counter;
}

-- The pair that `multi_get` of two keys returns.
abbrev two : List (Option Str) → Result (Option Str × Option Str)
two (a ∷ b ∷ []) = ok (a, b)
two _ = err value_error

module _ (store : Store) where
  open store use {State, get, multi_get}

  unfoldable pub get_stat : Str → Rate → Reading → State → Result (Stat × State)
  get_stat full_key rate at s =
      if unlimited rate
      then ok (record { hits_remaining = none; wait_ms = 0; current_count = pos 0 }, s)
      else if not (is_subsecond rate)
      then (do
        (stored, s') ← get at.first (counter_key full_key) s
        counter ← read_counter stored
        ok (stat_of rate at.wall counter, s'))
      else (do
        (values, s') ← multi_get at.first (window_start_key full_key ∷ counter_key full_key ∷ []) s
        (stored_start, stored) ← two values
        counter ←
            if in_current_window (window_start rate at.wall) stored_start
            then read_counter stored
            else ok (pos 0)
        ok (stat_of rate at.wall counter, s'))
