-- ===== src/FairLock/Tests.antt =====
-- Runs of `FairAsyncRLock` (src/traffik/_locks.py), and its theorems at them.
use traffik.Base.{
  ℕ, ◌<◌, ◌≡◌, ◌≢◌, ◌⊎◌, inl, refl, some, none, if◌then◌else◌, ◌==◌, List, [], ◌∷◌, false, arith,
}
use traffik.Result.{invalid_state_error}
use traffik.FairLock.{
  System, initial, Event, acquires, releases, resumes, is_cancelled, resumes_cancelled, done,
  no_future, pending, cancelled, acquire, cancel, release, remove, resume, resume_cancelled, run,
  step,
}
use traffik.FairLock.Phases.{IsValid, InPhase, owned, occurs}
use traffik.FairLock.Exclusion.{
  Allowed, initial-IsValid, run-InPhase, held-exclusive, waiter-progress, release-raises,
}

-- Two tasks wait; the first of them is cancelled, runs again, and the lock goes to the second.
abbrev events : List Event
events =
    acquires 1
    ∷ acquires 1
    ∷ acquires 2
    ∷ acquires 3
    ∷ is_cancelled 2
    ∷ resumes_cancelled 2
    ∷ releases 1
    ∷ releases 1
    ∷ resumes 3
    ∷ acquires 4
    ∷ []

pending_waits : pending ≢ cancelled
pending_waits e = cc e

events-Allowed : Allowed events initial
unfolding step acquire cancel release remove resume resume_cancelled
events-Allowed = (
  refl,
  (
    refl,
    (
      refl,
      (refl, (refl, (inl refl, (λ c. pending_waits, (λ c. pending_waits, (refl, (refl, tt))))))),
    ),
  ),
)

run-InPhase_example : IsValid (run events initial)
run-InPhase_example = run-InPhase events initial initial-IsValid events-Allowed

-- Task 2 is cancelled, and task 1 releases before task 2 runs: the release raises, task 4 takes the
-- lock at once, task 2 overwrites it and wakes task 3, and tasks 3 and 4 both hold the lock.
abbrev broken : List Event
broken =
    acquires 1
    ∷ acquires 2
    ∷ acquires 3
    ∷ is_cancelled 2
    ∷ releases 1
    ∷ acquires 4
    ∷ resumes_cancelled 2
    ∷ resumes 3
    ∷ []

broken_held : ((run broken initial).held 3 ≡ 1) × ((run broken initial).held 4 ≡ 1)
unfolding run acquire cancel release remove resume resume_cancelled
broken_held = (refl, refl)

three_holds : 0 < (run events initial).held 3
unfolding run acquire cancel release remove resume resume_cancelled
three_holds = omega arith

abbrev third : ℕ
third = 3

held-exclusive_example : third ≡ third
held-exclusive_example = held-exclusive events third third events-Allowed three_holds three_holds

-- The events up to the cancellation.
abbrev waiting_events : List Event
waiting_events = acquires 1 ∷ acquires 2 ∷ acquires 3 ∷ is_cancelled 2 ∷ []

waiting_events-Allowed : Allowed waiting_events initial
unfolding step acquire
waiting_events-Allowed = (refl, (refl, (refl, (refl, tt))))

three_waits : (run waiting_events initial).futures 3 ≡ pending
unfolding run acquire cancel
three_waits = refl

waiter-progress_example :
    (o : ℕ) × ((0 < (run waiting_events initial).held o)
      ⊎ ((run waiting_events initial).futures o ≡ done))
waiter-progress_example = waiter-progress waiting_events 3 waiting_events-Allowed three_waits

-- Task 1 holds the lock once, and tasks 2 and 3 wait, of which task 2 was cancelled.
abbrev cancelled_first : System
cancelled_first = record {
  owner = some 1;
  count = 1;
  owner_transfer = false;
  queue = 2 ∷ 3 ∷ [];
  futures = λ u. if u == 2 then cancelled else if u == 3 then pending else no_future;
  held = λ u. if 1 == u then 1 else 0;
}

waiting-InPhase : InPhase (owned 1 0) cancelled_first
unfolding occurs
waiting-InPhase = record {
  owner = refl;
  count = refl;
  transfer = refl;
  woken = λ u. ground arith;
  queued = λ u. ground arith;
  held = λ u. refl;
  waits = tt;
}

release-raises_example :
    ((release 1 cancelled_first).0 ≡ some invalid_state_error)
    × ((release 1 cancelled_first).1.owner ≡ none)
    × ((release 1 cancelled_first).1.owner_transfer ≡ false)
    × ((release 1 cancelled_first).1.queue ≡ 3 ∷ [])
    × ((u : ℕ) → (release 1 cancelled_first).1.futures u ≡ cancelled_first.futures u)
release-raises_example = release-raises 1 2 (3 ∷ []) cancelled_first waiting-InPhase refl refl
