-- ===== src/FairLock/Exclusion.antt =====
-- Mutual exclusion of `FairAsyncRLock` (src/traffik/_locks.py): every event keeps the lock in one of
-- its phases, as long as no release meets a cancelled future at the head of the queue; and what
-- happens when one does.
use traffik.Base.{
  ℕ, suc, ◌-◌, ◌<◌, ◌≡◌, refl, sym, ap, ◌∙◌, subst, true, false, none, some, List, [], ◌∷◌, ◌==◌,
  Bool-cases, ==_iff, inl, inr, ◌⊎◌, arith,
}
use traffik.Result.{invalid_state_error}
use traffik.FairLock.{
  Future, no_future, pending, done, cancelled, System, initial, is_owner, wake, wake_first,
  current_task_release, leave, release, Event, acquires, releases, resumes, is_cancelled,
  resumes_cancelled, step, run,
}
use traffik.FairLock.Phases.{
  Phase, free, passing, owned, holds, is_done, is_queued, occurs, InPhase, IsValid, HeadWaits,
  true-false, same,
}
use traffik.FairLock.Arrival.{acquire-IsValid}
use traffik.FairLock.Handover.{
  release_owned, cancel-IsValid, resume-IsValid, resume_cancelled-queued, resume_cancelled-woken,
  zero_one,
}

-- What the event loop may do next: a task that waits makes no call, the others run again when their
-- future has a result or is cancelled. And the last release of a hold meets no cancelled future.
abbrev pub Enabled : Event → System → Type 0
Enabled (acquires t) s = s.futures t ≡ no_future
Enabled (releases t) s = s.count ≡ 1 → HeadWaits s.queue s.futures
Enabled (resumes t) s = s.futures t ≡ done
Enabled (is_cancelled t) s = s.futures t ≡ pending
Enabled (resumes_cancelled t) s =
    (s.futures t ≡ cancelled) ⊎ ((s.futures t ≡ done) × HeadWaits s.queue s.futures)

abbrev pub Allowed : List Event → System → Type 0
Allowed [] s = Unit
Allowed (e ∷ events) s = Enabled e s × Allowed events (step e s).1

release_by_owner :
    (t : ℕ) (s : System)
    → is_owner t s.owner ≡ true
    → (s.count ≡ 1 → HeadWaits s.queue s.futures)
    → IsValid s
    → IsValid (current_task_release (leave t s)).1
release_by_owner t s m w (free, h) = elim (true-false (sym m ∙ ap (is_owner t) h.owner)) [ ]
release_by_owner t s m w (passing p, h) = elim (true-false (sym m ∙ ap (is_owner t) h.owner)) [ ]
release_by_owner t s m w (owned o n, h) =
    let mine : o ≡ t = same o t (sym (ap (is_owner t) h.owner) ∙ m) in
    subst (λ v. IsValid (current_task_release (leave v s)).1) mine
      (release_owned o n s h (λ z. w (h.count ∙ ap suc z))).1

release-IsValid :
    (t : ℕ) (s : System)
    → (s.count ≡ 1 → HeadWaits s.queue s.futures)
    → IsValid s
    → IsValid (release t s).1
unfolding release
release-IsValid t s w v = elim (Bool-cases (is_owner t s.owner)) [
  | inl m ↦ rw (m) (release_by_owner t s m w v)
  | inr m ↦ rw (m) v
]

step-IsValid : (e : Event) (s : System) → Enabled e s → IsValid s → IsValid (step e s).1
unfolding step
step-IsValid (acquires t) s e v = acquire-IsValid t s e v
step-IsValid (releases t) s w v = release-IsValid t s w v
step-IsValid (resumes t) s e v = resume-IsValid t s e v
step-IsValid (is_cancelled t) s e v = cancel-IsValid t s e v
step-IsValid (resumes_cancelled t) s (inl e) v = (resume_cancelled-queued t s e v).1
step-IsValid (resumes_cancelled t) s (inr (e, w)) v = (resume_cancelled-woken t s e v w).1

-- From a lock in one of its phases, any events that the event loop may bring keep it in a phase, if
-- no release meets a cancelled future at the head of the queue.
pub run-InPhase :
    (events : List Event) (s : System) → IsValid s → Allowed events s → IsValid (run events s)
unfolding run
run-InPhase [] s v a = v
run-InPhase (e ∷ events) s v (a, r) = run-InPhase events (step e s).1 (step-IsValid e s a v) r

pub initial-IsValid : IsValid initial
unfolding occurs
initial-IsValid = (
  free,
  record {
    owner = refl;
    count = refl;
    transfer = refl;
    woken = λ u. refl;
    queued = λ u. refl;
    held = λ u. refl;
    waits = refl;
  },
)

holds_one : (p : Phase) (u v : ℕ) → 0 < holds p u → 0 < holds p v → u ≡ v
holds_one free u v h k = omega (arith, h)
holds_one (passing w) u v h k = omega (arith, h)
holds_one (owned o n) u v h k = ground (arith, h, k)

-- After any such events two tasks never hold the lock at once.
pub held-exclusive :
    (events : List Event) (u v : ℕ)
    → Allowed events initial
    → 0 < (run events initial).held u
    → 0 < (run events initial).held v
    → u ≡ v
held-exclusive events u v a hu hv =
    let (p, h) = run-InPhase events initial initial-IsValid a in
    holds_one p u v (subst (λ n. 0 < n) (h.held u) hu) (subst (λ n. 0 < n) (h.held v) hv)

done_of : (f : Future) → is_done f ≡ true → f ≡ done
done_of done e = refl
done_of no_future e = elim (true-false (sym e)) [ ]
done_of pending e = elim (true-false (sym e)) [ ]
done_of cancelled e = elim (true-false (sym e)) [ ]

progress_in :
    (p : Phase) (t : ℕ) (s : System)
    → InPhase p s
    → s.futures t ≡ pending
    → (o : ℕ) × ((0 < s.held o) ⊎ (s.futures o ≡ done))
unfolding occurs
progress_in free t s h e =
    let here : occurs t s.queue ≡ 1 = h.queued t ∙ ap is_queued e in
    elim (zero_one (occurs t s.queue) (ap (occurs t) h.waits) here) [ ]
progress_in (passing w) t s h e = (w, inr (done_of (s.futures w) (h.woken w ∙ (==_iff w w).1 refl)))
progress_in (owned o n) t s h e = (o, inl (ground (arith, h.held o)))

-- After any such events, while a task waits for the lock, a task holds it or was woken to take it:
-- no wake is lost.
pub waiter-progress :
    (events : List Event) (t : ℕ)
    → Allowed events initial
    → (run events initial).futures t ≡ pending
    → (o : ℕ) × ((0 < (run events initial).held o) ⊎ ((run events initial).futures o ≡ done))
waiter-progress events t a e =
    let (p, h) = run-InPhase events initial initial-IsValid a in
    progress_in p t (run events initial) h e

wake_first-refused :
    (t : ℕ) (q : List ℕ) (s : System)
    → s.queue ≡ t ∷ q
    → s.futures t ≡ cancelled
    → wake_first s.queue s ≡ (some invalid_state_error, record s { queue = q })
unfolding wake_first wake
wake_first-refused t q s e c =
    ap (λ (l : List ℕ). wake_first l s) e ∙ ap (λ (f : Future). wake t f (record s { queue = q })) c

-- When the last release of a hold meets a cancelled future at the head of the queue, which a task
-- that was cancelled but has not run since leaves there, `release` raises InvalidStateError: the lock
-- is free, no ownership is in transfer, and nobody of the rest of the queue is woken.
pub release-raises :
    (o t : ℕ) (q : List ℕ) (s : System)
    → InPhase (owned o 0) s
    → s.queue ≡ t ∷ q
    → s.futures t ≡ cancelled
    → ((release o s).0 ≡ some invalid_state_error)
      × ((release o s).1.owner ≡ none)
      × ((release o s).1.owner_transfer ≡ false)
      × ((release o s).1.queue ≡ q)
      × ((u : ℕ) → (release o s).1.futures u ≡ s.futures u)
unfolding release current_task_release
release-raises o t q s h e c =
    let mine : is_owner o s.owner ≡ true = ap (is_owner o) h.owner ∙ (==_iff o o).1 refl in
    let last : (s.count - 1 == 0) ≡ true = ground (arith, h.count) in
    let s' : System = record (leave o s) { count = s.count - 1; owner = none } in
    rw (mine, last, wake_first-refused t q s' e c) (refl, refl, h.transfer, refl, λ u. refl)
