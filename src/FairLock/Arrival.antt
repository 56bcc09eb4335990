-- ===== src/FairLock/Arrival.antt =====
-- How a call of `FairAsyncRLock.acquire` (src/traffik/_locks.py) moves the lock from phase to phase.
use traffik.Base.{
  ℕ, suc, ◌+◌, ◌≡◌, ◌≢◌, refl, sym, ap, ◌∙◌, subst, Bool, true, false, not, ◌&&◌, some, List, [],
  ◌∷◌, ◌++◌, ◌==◌, if◌then◌else◌, Bool-cases, inl, inr, arith,
}
use traffik.FairLock.{no_future, System, is_owner, enter, enqueue, acquire}
use traffik.FairLock.Phases.{Phase, free, passing, owned, Waits, occurs, InPhase, IsValid, same}

occurs-append :
    (u t : ℕ) (q : List ℕ) → occurs u (q ++ t ∷ []) ≡ occurs u q + (if t == u then 1 else 0)
unfolding occurs
occurs-append u t [] = omega arith
occurs-append u t (x ∷ q) = omega (arith, occurs-append u t q)

Waits-append : (p : Phase) (q q' : List ℕ) → p ≢ free → Waits p q → Waits p q'
Waits-append free q q' n w = elim (n refl) [ ]
Waits-append (passing t) q q' n w = tt
Waits-append (owned t m) q q' n w = tt

enqueue-InPhase :
    (p : Phase) (t : ℕ) (s : System)
    → p ≢ free
    → s.futures t ≡ no_future
    → InPhase p s
    → InPhase p (enqueue t s)
enqueue-InPhase p t s n e h = record {
  owner = h.owner;
  count = h.count;
  transfer = h.transfer;
  woken = λ u. ground (arith, h.woken u, e);
  queued = λ u. ground (arith, h.queued u, occurs-append u t s.queue, e);
  held = h.held;
  waits = Waits-append p s.queue (s.queue ++ t ∷ []) n h.waits;
}

enter_owned :
    (t n : ℕ) (s : System)
    → InPhase (owned t n) s
    → InPhase (owned t (suc n)) (enter t (record s { count = s.count + 1 }))
enter_owned t n s h = record {
  owner = h.owner;
  count = omega (arith, h.count);
  transfer = h.transfer;
  woken = h.woken;
  queued = h.queued;
  held = λ u. ground (arith, h.held u, h.held t);
  waits = tt;
}

enter_free :
    (t : ℕ) (s : System)
    → InPhase free s
    → InPhase (owned t 0) (enter t (record s { owner = some t; count = 1 }))
enter_free t s h = record {
  owner = refl;
  count = refl;
  transfer = h.transfer;
  woken = h.woken;
  queued = h.queued;
  held = λ u. ground (arith, h.held u, h.held t);
  waits = tt;
}

module _ (t : ℕ) (s : System) where
  acquire_by :
      (mine is_free : Bool)
      → is_owner t s.owner ≡ mine
      → (s.count == 0 && not s.owner_transfer) ≡ is_free
      → IsValid (
          if mine
          then enter t (record s { count = s.count + 1 })
          else if is_free
          then enter t (record s { owner = some t; count = 1 })
          else enqueue t s)
      → IsValid (acquire t s)
  unfolding acquire
  acquire_by mine is_free e f v =
      subst
        (λ m. IsValid (
          if m
          then enter t (record s { count = s.count + 1 })
          else if s.count == 0 && not s.owner_transfer
          then enter t (record s { owner = some t; count = 1 })
          else enqueue t s))
        (sym e)
        (subst
          (λ b. IsValid (
            if mine
            then enter t (record s { count = s.count + 1 })
            else if b
            then enter t (record s { owner = some t; count = 1 })
            else enqueue t s))
          (sym f) v)

pub acquire-IsValid :
    (t : ℕ) (s : System) → s.futures t ≡ no_future → IsValid s → IsValid (acquire t s)
acquire-IsValid t s e (free, h) =
    acquire_by t s false true (ap (is_owner t) h.owner) (rw (h.count, h.transfer) refl)
      (owned t 0, enter_free t s h)
acquire-IsValid t s e (passing w, h) =
    acquire_by t s false false (ap (is_owner t) h.owner) (rw (h.count, h.transfer) refl)
      (passing w, enqueue-InPhase (passing w) t s (λ p. cc p) e h)
acquire-IsValid t s e (owned o n, h) = elim (Bool-cases (o == t)) [
  | inl m ↦ acquire_by t s true false (ap (is_owner t) h.owner ∙ m) (ground (arith, h.count)) (
    owned o (suc n),
    subst (λ v. InPhase (owned o (suc n)) (enter v (record s { count = s.count + 1 }))) (same o t m)
        (enter_owned o n s h),
  )
  | inr m ↦
      acquire_by t s false false (ap (is_owner t) h.owner ∙ m) (ground (arith, h.count))
        (owned o n, enqueue-InPhase (owned o n) t s (λ p. cc p) e h)
]
