-- ===== src/UnfairLock.antt =====
-- `AsyncRLock` of src/traffik/_locks.py, with the tasks that use it. The `asyncio.Lock` that it wraps is
-- `locked`: its `acquire` returns to a task only while the lock is not locked, and locks it. `held` is
-- how many of a task's calls of `acquire` have returned and are not released. Every call is made in a
-- task.
pub mod Exclusion
pub mod Tests
use traffik.Base.{
  ℕ, ◌+◌, ◌-◌, Bool, true, false, Option, none, some, List, [], ◌∷◌, ◌==◌, if◌then◌else◌,
}
use traffik.Result.{Error, runtime_error}

pub record AsyncRLock : Type 0 where
  pub locked : Bool
  pub owner : Option ℕ
  pub count : ℕ
  pub held : ℕ → ℕ

abbrev pub initial : AsyncRLock
initial = record { locked = false; owner = none; count = 0; held = λ _. 0 }

abbrev pub set_held : ℕ → ℕ → AsyncRLock → AsyncRLock
set_held task n s = record s { held = λ u. if task == u then n else s.held u }

-- `self._owner is current_task`
abbrev pub is_owner : ℕ → Option ℕ → Bool
is_owner task none = false
is_owner task (some owner) = owner == task

-- `acquire` up to its return or its wait for the wrapped lock.
unfoldable pub acquire : ℕ → AsyncRLock → AsyncRLock
acquire task s =
    if is_owner task s.owner
    then set_held task (s.held task + 1) (record s { count = s.count + 1 })
    else s

-- The rest of `acquire`, once the wrapped lock is acquired.
unfoldable pub become_owner : ℕ → AsyncRLock → AsyncRLock
become_owner task s =
    set_held task (s.held task + 1) (record s { locked = true; owner = some task; count = 1 })

-- `release`
unfoldable pub release : ℕ → AsyncRLock → Option Error × AsyncRLock
release task s =
    if is_owner task s.owner
    then (
      none,
      (let s' = set_held task (s.held task - 1) (record s { count = s.count - 1 }) in
          if s'.count == 0 then record s' { owner = none; locked = false } else s'),
    )
    else (some runtime_error, s)

pub data Event : Type 0 where
  acquires gets_lock releases : ℕ → Event

unfoldable pub step : Event → AsyncRLock → AsyncRLock
step (acquires task) s = acquire task s
step (gets_lock task) s = become_owner task s
step (releases task) s = (release task s).1

unfoldable pub run : List Event → AsyncRLock → AsyncRLock
unfolding step
run [] s = s
run (e ∷ events) s = run events (step e s)
