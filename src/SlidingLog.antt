-- ===== src/SlidingLog.antt =====
-- `SlidingWindowLogStrategy` of src/traffik/strategies/sliding_window.py. Times are whole milliseconds.
-- A call reads the wall clock before it takes the lock, and the backend reads its own clock in `get`
-- and in `set`: the three readings are inputs of the call. The calls stand in the order in which they
-- get the lock. The backend is the cell of the strategy's key: the log with the time at which its
-- TTL ends. The text that the log is stored as (src/traffik/strategies/_serde.py) is not modelled: the
-- cell holds the entries themselves.
pub mod Promise
pub mod Pruning
pub mod Stat
pub mod Exact
pub mod Limit
mod Tests
use traffik.Base.{
  ℕ, zero, suc, ◌+◌, ◌-◌, ◌*◌, ◌/◌, ◌≤◌, max, min, Bool, true, false, not, ltb, leb, Option, none,
  some, List, [], ◌∷◌, ◌++◌, length, if◌then◌else◌,
}
use traffik.Rate.{Rate, unlimited}

-- An entry of the log: the time of a request and its cost.
pub record Logged : Type 0 where
  pub timestamp : ℕ
  pub cost : ℕ

-- A call: its cost, the wall clock before the lock, and the backend's clock in `get` and in `set`.
pub record Request : Type 0 where
  pub cost : ℕ
  pub now : ℕ
  pub got : ℕ
  pub put : ℕ

pub record Cell : Type 0 where
  pub log : List Logged
  pub expires_at : ℕ

-- The wait that `__call__` returns: zero, some milliseconds, or infinitely long.
pub data Wait : Type 0 where
  allowed : Wait
  wait_ms : ℕ → Wait
  forever : Wait

-- `max(int(window_duration_ms // 1000), 1)`
abbrev pub ttl_seconds : Rate → ℕ
ttl_seconds rate = max (rate.expire / 1000) 1

-- What `backend.get` and the decoding give.
unfoldable pub entries_at : ℕ → Option Cell → List Logged
entries_at now none = []
entries_at now (some cell) = if leb cell.expires_at now then [] else cell.log

-- `timestamp > window_start`
abbrev pub in_window : ℕ → ℕ → Logged → Bool
in_window duration now x = ltb now (x.timestamp + duration)

-- The entries of the window.
unfoldable pub valid_entries : ℕ → ℕ → List Logged → List Logged
valid_entries duration now [] = []
valid_entries duration now (x ∷ log) =
    let rest = valid_entries duration now log in if in_window duration now x then x ∷ rest else rest

unfoldable pub total_cost : List Logged → ℕ
total_cost [] = 0
total_cost (x ∷ log) = x.cost + total_cost log

abbrev pub earlier : ℕ → Option ℕ → Option ℕ
earlier t none = some t
earlier t (some oldest) = some (min t oldest)

-- The oldest timestamp; none is infinitely late.
unfoldable pub oldest_timestamp : List Logged → Option ℕ
oldest_timestamp [] = none
oldest_timestamp (x ∷ log) = earlier x.timestamp (oldest_timestamp log)

-- `(oldest_timestamp + window_duration_ms) - now`
abbrev pub wait_until : ℕ → ℕ → Option ℕ → Wait
wait_until duration now none = forever
wait_until duration now (some oldest) = wait_ms (oldest + duration - now)

-- `backend.set` with the TTL, at the time `put` of the backend's clock.
abbrev pub store_log : Rate → ℕ → List Logged → Option Cell
store_log rate put log = some (record { log = log; expires_at = put + 1000 * ttl_seconds rate })

-- The entry of a request.
abbrev pub logged : Request → Logged
logged r = record { timestamp = r.now; cost = r.cost }

unfoldable pub decide : Rate → Request → List Logged → Wait × Option Cell
decide rate r valid =
    if ltb rate.limit (total_cost valid + r.cost)
    then (wait_until rate.expire r.now (oldest_timestamp valid), store_log rate r.put valid)
    else (allowed, store_log rate r.put (valid ++ logged r ∷ []))

-- `__call__`
unfoldable pub hit : Rate → Request → Option Cell → Wait × Option Cell
unfolding decide
hit rate r cell =
    if unlimited rate
    then (allowed, cell)
    else decide rate r (valid_entries rate.expire r.now (entries_at r.got cell))

-- Requests one after the other.
unfoldable pub run : Rate → List Request → Option Cell → List Wait
run rate [] cell = []
run rate (r ∷ requests) cell = let a = hit rate r cell in a.0 ∷ run rate requests a.1
