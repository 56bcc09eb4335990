-- ===== src/FairLock.antt =====
-- `FairAsyncRLock` of src/traffik/_locks.py, with the tasks that use it. A task that waits in
-- `acquire` waits for one future, so the future goes by the task's number; the event loop is the
-- order of the events. `held` is what the tasks may assume: how many of each task's calls of
-- `acquire` have returned and are not released.
pub mod Arrival
pub mod Exclusion
pub mod Handover
pub mod Phases
pub mod Tests
use traffik.Base.{
  ℕ, suc, ◌+◌, ◌-◌, ◌≡◌, Bool, true, false, Option, none, some, List, [], ◌∷◌, ◌++◌, ◌==◌, ◌&&◌,
  not, if◌then◌else◌,
}
use traffik.Result.{Error, runtime_error, invalid_state_error}

-- The state of a task's future: none is waited for; no result yet; a result; cancelled.
pub data Future : Type 0 where
  no_future pending done cancelled : Future

pub record System : Type 0 where
  pub owner : Option ℕ
  pub count : ℕ
  pub owner_transfer : Bool
  pub queue : List ℕ
  pub futures : ℕ → Future
  pub held : ℕ → ℕ

abbrev pub update : {A : Type 0} → ℕ → A → (ℕ → A) → ℕ → A
update t a f u = if t == u then a else f u

abbrev pub initial : System
initial = record {
  owner = none;
  count = 0;
  owner_transfer = false;
  queue = [];
  futures = λ _. no_future;
  held = λ _. 0;
}

-- `is_owner`
abbrev pub is_owner : ℕ → Option ℕ → Bool
is_owner task none = false
is_owner task (some owner) = owner == task

-- A call of `acquire` returns.
abbrev pub enter : ℕ → System → System
enter task s = record s { held = update task (s.held task + 1) s.held }

-- The call waits behind the others.
abbrev pub enqueue : ℕ → System → System
enqueue task s = record s { queue = s.queue ++ task ∷ []; futures = update task pending s.futures }

-- `acquire` up to its return or its wait.
unfoldable pub acquire : ℕ → System → System
acquire task s =
    if is_owner task s.owner
    then enter task (record s { count = s.count + 1 })
    else if s.count == 0 && not s.owner_transfer
    then enter task (record s { owner = some task; count = 1 })
    else enqueue task s

-- `set_result(None)` and what follows it: a future that is not pending refuses its result.
unfoldable pub wake : ℕ → Future → System → Option Error × System
wake task pending s =
    (none, record s { futures = update task done s.futures; owner_transfer = true })
wake task _ s = (some invalid_state_error, s)

-- `self._queue.popleft().set_result(None)`, if there is a queue.
unfoldable pub wake_first : List ℕ → System → Option Error × System
unfolding wake
wake_first [] s = (none, s)
wake_first (task ∷ queue) s = wake task (s.futures task) (record s { queue = queue })

-- `_current_task_release`: what is raised, and the state it leaves.
unfoldable pub current_task_release : System → Option Error × System
unfolding wake_first
current_task_release s =
    if s.count - 1 == 0
    then wake_first s.queue (record s { count = s.count - 1; owner = none })
    else (none, record s { count = s.count - 1 })

-- The task gives up one of the calls of `acquire` that it holds.
abbrev pub leave : ℕ → System → System
leave task s = record s { held = update task (s.held task - 1) s.held }

-- `release`
unfoldable pub release : ℕ → System → Option Error × System
unfolding current_task_release
release task s =
    if is_owner task s.owner then current_task_release (leave task s) else (some runtime_error, s)

-- The rest of `acquire` after its wait.
unfoldable pub resume : ℕ → System → System
resume task s = enter task (record s {
  owner_transfer = false;
  owner = some task;
  count = 1;
  futures = update task no_future s.futures;
})

-- The queue without the first occurrence of a task's future; `none` if it is not there.
unfoldable pub remove : ℕ → List ℕ → Option (List ℕ)
remove task [] = none
remove task (t ∷ queue) =
    let rest = remove task queue in
    if t == task then some queue else elim rest [ none ↦ none | some q ↦ some (t ∷ q) ]

-- The handler of `CancelledError`, after which the error goes on.
unfoldable pub leave_queue : ℕ → Option (List ℕ) → System → Option Error × System
unfolding current_task_release
leave_queue task (some queue) s = (none, record s { queue = queue })
leave_queue task none s =
    current_task_release (record s { owner_transfer = false; owner = some task; count = 1 })

-- A cancelled task runs again.
unfoldable pub resume_cancelled : ℕ → System → Option Error × System
unfolding leave_queue
resume_cancelled task s =
    leave_queue task (remove task s.queue) (record s { futures = update task no_future s.futures })

-- `task.cancel()` of a waiting task cancels its future.
unfoldable pub cancel : ℕ → System → System
cancel task s = record s { futures = update task cancelled s.futures }

-- What the event loop does next.
pub data Event : Type 0 where
  acquires releases resumes is_cancelled resumes_cancelled : ℕ → Event

unfoldable pub step : Event → System → Option Error × System
step (acquires task) s = (none, acquire task s)
step (releases task) s = release task s
step (resumes task) s = (none, resume task s)
step (is_cancelled task) s = (none, cancel task s)
step (resumes_cancelled task) s = resume_cancelled task s

-- The state after events, whatever they raise.
unfoldable pub run : List Event → System → System
unfolding step
run [] s = s
run (e ∷ events) s = run events (step e s).1
