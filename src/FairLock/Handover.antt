-- ===== src/FairLock/Handover.antt =====
-- How `FairAsyncRLock` (src/traffik/_locks.py) is handed over: releases, and tasks that run again
-- after their wait, cancelled or not.
use traffik.Base.{
  ℕ, zero, suc, ◌+◌, ◌-◌, ◌≡◌, ◌≢◌, refl, sym, ap, ◌∙◌, true, false, none, some, List, [], ◌∷◌,
  ◌==◌, if◌then◌else◌, Bool-cases, inl, inr, arith,
}
use traffik.FairLock.{
  Future, no_future, pending, done, cancelled, System, update, current_task_release, leave, resume,
  remove, leave_queue, resume_cancelled, cancel,
}
use traffik.FairLock.Phases.{
  Phase, free, passing, owned, Waits, is_done, is_queued, occurs, InPhase, IsValid, HeadWaits,
  true-false, same, wake_first-IsValid,
}

-- A release by the owner, in its phase, raises nothing and keeps a phase.
pub release_owned :
    (o n : ℕ) (s : System)
    → InPhase (owned o n) s
    → (n ≡ 0 → HeadWaits s.queue s.futures)
    → ((current_task_release (leave o s)).0 ≡ none) × IsValid (current_task_release (leave o s)).1
unfolding current_task_release
release_owned o zero s h w =
    let last : (s.count - 1 == 0) ≡ true = ground (arith, h.count) in
    rw (last) (
      wake_first-IsValid s.queue (record (leave o s) { count = s.count - 1; owner = none }) refl
        (record {
          owner = refl;
          count = ground (arith, h.count);
          transfer = h.transfer;
          woken = h.woken;
          queued = h.queued;
          held = λ u. ground (arith, h.held u, h.held o);
        })
        (w refl))
release_owned o (suc n) s h w =
    let more : (s.count - 1 == 0) ≡ false = ground (arith, h.count) in
    rw (more) (
      refl,
      (
        owned o n,
        record {
          owner = h.owner;
          count = ground (arith, h.count);
          transfer = h.transfer;
          woken = h.woken;
          queued = h.queued;
          held = λ u. ground (arith, h.held u, h.held o);
          waits = tt;
        },
      ),
    )

pub zero_one : (n : ℕ) → n ≡ 0 → n ≢ 1
zero_one n z e = ground (arith, z, e)

update_keeps :
    {A : Type 0} (g : Future → A) (t u : ℕ) (a : Future) (f : ℕ → Future)
    → g (f t) ≡ g a
    → g (update t a f u) ≡ g (f u)
update_keeps g t u a f e = elim (Bool-cases (t == u)) [
  | inl m ↦ rw (m) (sym e ∙ ap (λ v. g (f v)) (same t u m))
  | inr m ↦ rw (m) refl
]

pub cancel-IsValid : (t : ℕ) (s : System) → s.futures t ≡ pending → IsValid s → IsValid (cancel t s)
unfolding cancel
cancel-IsValid t s e (p, h) = (
  p,
  record {
    owner = h.owner;
    count = h.count;
    transfer = h.transfer;
    woken = λ u. update_keeps is_done t u cancelled s.futures (ap is_done e) ∙ h.woken u;
    queued =
        λ u. h.queued u ∙ sym (update_keeps is_queued t u cancelled s.futures (ap is_queued e));
    held = h.held;
    waits = h.waits;
  },
)

woken_gone :
    (w t u : ℕ) (f : ℕ → Future)
    → (w == t) ≡ true
    → is_done (f u) ≡ (w == u)
    → is_done (update t no_future f u) ≡ false
woken_gone w t u f e k = elim (Bool-cases (t == u)) [
  | inl m ↦ rw (m) refl
  | inr m ↦ rw (m) (k ∙ ap (λ v. v == u) (same w t e) ∙ m)
]

pub resume-IsValid : (t : ℕ) (s : System) → s.futures t ≡ done → IsValid s → IsValid (resume t s)
unfolding resume
resume-IsValid t s e (free, h) = elim (true-false (sym (ap is_done e) ∙ h.woken t)) [ ]
resume-IsValid t s e (owned o n, h) = elim (true-false (sym (ap is_done e) ∙ h.woken t)) [ ]
resume-IsValid t s e (passing w, h) = (
  owned t 0,
  record {
    owner = refl;
    count = refl;
    transfer = refl;
    woken = λ u. woken_gone w t u s.futures (sym (h.woken t) ∙ ap is_done e) (h.woken u);
    queued =
        λ u. h.queued u ∙ sym (update_keeps is_queued t u no_future s.futures (ap is_queued e));
    held = λ u. ground (arith, h.held u, h.held t);
    waits = tt;
  },
)

-- `remove` takes out a future that is in the queue, and finds none that is not.
remove-some :
    (t : ℕ) (q : List ℕ)
    → occurs t q ≢ 0
    → (q' : List ℕ) × (remove t q ≡ some q')
      × ((u : ℕ) → occurs u q' + (if t == u then 1 else 0) ≡ occurs u q)
unfolding remove occurs
remove-some t [] n = elim (n refl) [ ]
remove-some t (x ∷ q) n = elim (Bool-cases (x == t)) [
  | inl m ↦ (q, rw (m) refl, λ u. rw (same x t m) (omega arith))
  | inr m ↦
      let (q', e, k) = remove-some t q (λ z. n (rw (m, z) refl)) in
      (x ∷ q', rw (m, e) refl, λ u. omega (arith, k u))
]

remove-none : (t : ℕ) (q : List ℕ) → occurs t q ≡ 0 → remove t q ≡ none
unfolding remove occurs
remove-none t [] e = refl
remove-none t (x ∷ q) e = elim (Bool-cases (x == t)) [
  | inl m ↦ elim (true-false (ground (arith, e, m))) [ ]
  | inr m ↦ rw (m, remove-none t q (ground (arith, e, m))) refl
]

queued_gone :
    (t u : ℕ) (q q' : List ℕ) (f : ℕ → Future)
    → is_queued (f t) ≡ 1
    → occurs u q ≡ is_queued (f u)
    → occurs u q' + (if t == u then 1 else 0) ≡ occurs u q
    → occurs u q' ≡ is_queued (update t no_future f u)
queued_gone t u q q' f e k r = elim (Bool-cases (t == u)) [
  | inl m ↦
      let here : occurs u q ≡ 1 = k ∙ ap (λ v. is_queued (f v)) (sym (same t u m)) ∙ e in
      rw (m) (ground (arith, here, r, m))
  | inr m ↦ rw (m) (ground (arith, k, r, m))
]

update_here : (t x : ℕ) (f : ℕ → Future) → (t == x) ≡ true → update t no_future f x ≡ no_future
update_here t x f m = rw (m) refl

update_there : (t x : ℕ) (f : ℕ → Future) → (t == x) ≡ false → update t no_future f x ≡ f x
update_there t x f m = rw (m) refl

Waits-queued : (p : Phase) (t : ℕ) (q q' : List ℕ) → occurs t q ≡ 1 → Waits p q → Waits p q'
unfolding occurs
Waits-queued free t q q' e w = elim (zero_one (occurs t q) (ap (occurs t) w) e) [ ]
Waits-queued (passing w) t q q' e w' = tt
Waits-queued (owned o n) t q q' e w = tt

no_future_cancelled : no_future ≢ cancelled
no_future_cancelled e = cc e

head_waits :
    (t : ℕ) (q : List ℕ) (f : ℕ → Future) → HeadWaits q f → HeadWaits q (update t no_future f)
head_waits t [] f h = tt
head_waits t (x ∷ q) f h = elim (Bool-cases (t == x)) [
  | inl m ↦ λ e. no_future_cancelled (sym (update_here t x f m) ∙ e)
  | inr m ↦ λ e. h (sym (update_there t x f m) ∙ e)
]

-- A task that was cancelled in the queue leaves it.
pub resume_cancelled-queued :
    (t : ℕ) (s : System)
    → s.futures t ≡ cancelled
    → IsValid s
    → ((resume_cancelled t s).0 ≡ none) × IsValid (resume_cancelled t s).1
unfolding resume_cancelled leave_queue
resume_cancelled-queued t s e (p, h) =
    let here : occurs t s.queue ≡ 1 = h.queued t ∙ ap is_queued e in
    let (q', r, k) = remove-some t s.queue (λ z. zero_one (occurs t s.queue) z here) in
    rw (r) (
      refl,
      (
        p,
        record {
          owner = h.owner;
          count = h.count;
          transfer = h.transfer;
          woken = λ u. update_keeps is_done t u no_future s.futures (ap is_done e) ∙ h.woken u;
          queued = λ u. queued_gone t u s.queue q' s.futures (ap is_queued e) (h.queued u) (k u);
          held = h.held;
          waits = Waits-queued p t s.queue q' here h.waits;
        },
      ),
    )

-- A task that was cancelled after it was woken takes the lock and releases it.
pub resume_cancelled-woken :
    (t : ℕ) (s : System)
    → s.futures t ≡ done
    → IsValid s
    → HeadWaits s.queue s.futures
    → ((resume_cancelled t s).0 ≡ none) × IsValid (resume_cancelled t s).1
unfolding resume_cancelled leave_queue current_task_release
resume_cancelled-woken t s e (free, h) w = elim (true-false (sym (ap is_done e) ∙ h.woken t)) [ ]
resume_cancelled-woken t s e (owned o n, h) w =
    elim (true-false (sym (ap is_done e) ∙ h.woken t)) [ ]
resume_cancelled-woken t s e (passing p, h) w =
    let r = remove-none t s.queue (h.queued t ∙ ap is_queued e) in
    rw (r) (
      wake_first-IsValid s.queue
        (record s {
          futures = update t no_future s.futures;
          owner_transfer = false;
          owner = none;
          count = 0;
        })
        refl
        (record {
          owner = refl;
          count = refl;
          transfer = refl;
          woken = λ u. woken_gone p t u s.futures (sym (h.woken t) ∙ ap is_done e) (h.woken u);
          queued = λ u.
              h.queued u ∙ sym (update_keeps is_queued t u no_future s.futures (ap is_queued e));
          held = h.held;
        })
        (head_waits t s.queue s.futures w))
