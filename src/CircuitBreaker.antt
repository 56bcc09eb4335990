-- ===== src/CircuitBreaker.antt =====
-- `CircuitBreaker` of src/traffik/_utils.py. Each operation runs under the breaker's lock, so it is
-- one step; `now` is what the monotonic clock reads in it, in any unit of time.
pub mod Machine
pub mod Probes
pub mod Recovery
pub mod Tests
use traffik.Base.{
  ℕ, ◌+◌, Bool, true, false, Option, none, some, List, [], ◌∷◌, ◌++◌, ltb, leb, if◌then◌else◌,
}
use traffik.Result.{Result, ok, err, value_error, assertion_error, ◌>>=◌, ◌>>◌, raise_if}

pub data CircuitState : Type 0 where
  is_closed is_open is_half_open : CircuitState

pub record CircuitBreaker : Type 0 where
  pub failure_threshold : ℕ
  pub recovery_timeout : ℕ
  pub success_threshold : ℕ
  pub state : CircuitState
  pub failure_count : ℕ
  pub success_count : ℕ
  pub opened_at : Option ℕ
  pub probe_in_progress : Bool

-- The fields that `__init__` sets.
abbrev pub initial : ℕ → ℕ → ℕ → CircuitBreaker
initial failures timeout successes = record {
  failure_threshold = failures;
  recovery_timeout = timeout;
  success_threshold = successes;
  state = is_closed;
  failure_count = 0;
  success_count = 0;
  opened_at = none;
  probe_in_progress = false;
}

-- `__init__`; a timeout of zero or less is refused.
unfoldable pub new : ℕ → ℕ → ℕ → Result CircuitBreaker
new failures timeout successes = do
  raise_if (ltb failures 1) value_error
  raise_if (ltb successes 1) value_error
  raise_if (leb timeout 0) value_error
  ok (initial failures timeout successes)

-- `_open`
abbrev pub to_open : ℕ → CircuitBreaker → CircuitBreaker
to_open now b = record b {
  state = is_open;
  opened_at = some now;
  failure_count = 0;
  success_count = 0;
  probe_in_progress = false;
}

-- `_close`
abbrev pub to_closed : CircuitBreaker → CircuitBreaker
to_closed b = record b {
  state = is_closed;
  failure_count = 0;
  success_count = 0;
  opened_at = none;
  probe_in_progress = false;
}

-- The transition from open to half-open, with its first probe.
abbrev pub to_half_open : CircuitBreaker → CircuitBreaker
to_half_open b = record b { state = is_half_open; success_count = 0; probe_in_progress = true }

-- An open breaker lets a probe through once the timeout is over: `now - opened_at` is at least the
-- timeout.
unfoldable pub probe_after : ℕ → Option ℕ → CircuitBreaker → Result (Bool × CircuitBreaker)
probe_after now none b = err assertion_error
probe_after now (some opened) b =
    if ltb now (opened + b.recovery_timeout) then ok (false, b) else ok (true, to_half_open b)

unfoldable pub allow_in : ℕ → CircuitState → CircuitBreaker → Result (Bool × CircuitBreaker)
unfolding probe_after
allow_in now is_closed b = ok (true, b)
allow_in now is_open b = probe_after now b.opened_at b
allow_in now is_half_open b =
    if b.probe_in_progress then ok (false, b) else ok (true, record b { probe_in_progress = true })

unfoldable pub allow_execution : ℕ → CircuitBreaker → Result (Bool × CircuitBreaker)
unfolding allow_in
allow_execution now b = allow_in now b.state b

unfoldable pub success_in : CircuitState → CircuitBreaker → CircuitBreaker
success_in is_closed b = record b { failure_count = 0 }
success_in is_open b = b
success_in is_half_open b =
    let b' = record b { probe_in_progress = false; success_count = b.success_count + 1 } in
    if leb b.success_threshold b'.success_count then to_closed b' else b'

unfoldable pub record_success : CircuitBreaker → CircuitBreaker
unfolding success_in
record_success b = success_in b.state b

unfoldable pub failure_in : ℕ → CircuitState → CircuitBreaker → CircuitBreaker
failure_in now is_closed b =
    let b' = record b { failure_count = b.failure_count + 1 } in
    if leb b.failure_threshold b'.failure_count then to_open now b' else b'
failure_in now is_open b = b
failure_in now is_half_open b = to_open now (record b { probe_in_progress = false })

unfoldable pub record_failure : ℕ → CircuitBreaker → CircuitBreaker
unfolding failure_in
record_failure now b = failure_in now b.state b

-- A call of the breaker with its time.
pub data Call : Type 0 where
  allow : ℕ → Call
  success : Call
  failure : ℕ → Call
  force_open : ℕ → Call
  force_close : Call

-- The answers of `allow_execution` that a call adds.
unfoldable pub step : Call → CircuitBreaker → Result (List Bool × CircuitBreaker)
step (allow now) b = do (answer, b') ← allow_execution now b; ok (answer ∷ [], b')
step success b = ok ([], record_success b)
step (failure now) b = ok ([], record_failure now b)
step (force_open now) b = ok ([], to_open now b)
step force_close b = ok ([], to_closed b)

-- Calls in turn, with every answer in order.
unfoldable pub run : List Call → CircuitBreaker → Result (List Bool × CircuitBreaker)
unfolding step
run [] b = ok ([], b)
run (c ∷ calls) b = do
  (answers, b') ← step c b
  (rest, b'') ← run calls b'
  ok (answers ++ rest, b'')
