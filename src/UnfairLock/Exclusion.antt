-- ===== src/UnfairLock/Exclusion.antt =====
-- Mutual exclusion of `AsyncRLock` (src/traffik/_locks.py), whatever its tasks call.
use traffik.Base.{
  ℕ, zero, suc, ◌+◌, ◌-◌, ◌<◌, ◌≡◌, ◌≢◌, refl, sym, ap, ◌∙◌, subst, Bool, true, false, Option, none,
  some, List, [], ◌∷◌, ◌==◌, if◌then◌else◌, Bool-cases, ==_iff, inl, inr, arith,
}
use traffik.UnfairLock.{
  AsyncRLock, initial, set_held, is_owner, acquire, become_owner, release, Event, acquires,
  gets_lock, releases, run,
}

-- Nobody has the lock, or a task holds it `suc n` times.
pub data Holder : Type 0 where
  nobody : Holder
  holder : ℕ → ℕ → Holder

abbrev pub holds : Holder → ℕ → ℕ
holds nobody u = 0
holds (holder t n) u = if t == u then suc n else 0

abbrev pub owner_of : Holder → Option ℕ
owner_of nobody = none
owner_of (holder t n) = some t

abbrev pub count_of : Holder → ℕ
count_of nobody = 0
count_of (holder t n) = suc n

abbrev pub is_locked : Holder → Bool
is_locked nobody = false
is_locked (holder t n) = true

pub record HeldBy (h : Holder) (s : AsyncRLock) : Type 0 where
  pub locked : s.locked ≡ is_locked h
  pub owner : s.owner ≡ owner_of h
  pub count : s.count ≡ count_of h
  pub held : (u : ℕ) → s.held u ≡ holds h u

abbrev pub IsHeld : AsyncRLock → Type 0
IsHeld s = (h : Holder) × HeldBy h s

-- The wrapped lock is acquired only while it is free.
abbrev pub Grants : List Event → AsyncRLock → Type 0
Grants [] s = Unit
Grants (gets_lock t ∷ events) s = (s.locked ≡ false) × Grants events (become_owner t s)
Grants (acquires t ∷ events) s = Grants events (acquire t s)
Grants (releases t ∷ events) s = Grants events (release t s).1

true-neq_false : true ≢ false
true-neq_false e = cc e

acquire-IsHeld : (t : ℕ) (s : AsyncRLock) → IsHeld s → IsHeld (acquire t s)
unfolding acquire
acquire-IsHeld t s (h, v) = elim (Bool-cases (is_owner t s.owner)) [
  | inl m ↦ simp (m) (mine h v m)
  | inr m ↦ simp (m) (h, v)
]
  where
    mine :
        (h : Holder)
        → HeldBy h s
        → is_owner t s.owner ≡ true
        → IsHeld (set_held t (s.held t + 1) (record s { count = s.count + 1 }))
    mine nobody v m = elim (true-neq_false (sym m ∙ ap (is_owner t) v.owner)) [ ]
    mine (holder o n) v m =
        let same : o ≡ t = (==_iff o t).0 (sym (ap (is_owner t) v.owner) ∙ m) in
        (
          holder o (suc n),
          record {
            locked = v.locked;
            owner = v.owner;
            count = omega (arith, v.count);
            held = λ u. ground (arith, v.held u, v.held t, same);
          },
        )

become_owner-IsHeld :
    (t : ℕ) (s : AsyncRLock) → s.locked ≡ false → IsHeld s → IsHeld (become_owner t s)
unfolding become_owner
become_owner-IsHeld t s e (nobody, v) = (
  holder t 0,
  record {
    locked = refl;
    owner = refl;
    count = refl;
    held = λ u. ground (arith, v.held u, v.held t);
  },
)
become_owner-IsHeld t s e (holder o n, v) = elim (true-neq_false (sym v.locked ∙ e)) [ ]

release_holder :
    (t : ℕ) (h : Holder) (s : AsyncRLock)
    → HeldBy h s
    → is_owner t s.owner ≡ true
    → IsHeld (
        let s' = set_held t (s.held t - 1) (record s { count = s.count - 1 }) in
        if s'.count == 0 then record s' { owner = none; locked = false } else s')
release_holder t nobody s v m = elim (true-neq_false (sym m ∙ ap (is_owner t) v.owner)) [ ]
release_holder t (holder o zero) s v m =
    let same : o ≡ t = (==_iff o t).0 (sym (ap (is_owner t) v.owner) ∙ m) in
    let last : (s.count - 1 == 0) ≡ true = ground (arith, v.count) in
    rw (last) (
      nobody,
      record {
        locked = refl;
        owner = refl;
        count = omega (arith, v.count);
        held = λ u. ground (arith, v.held u, v.held t, same);
      },
    )
release_holder t (holder o (suc n)) s v m =
    let same : o ≡ t = (==_iff o t).0 (sym (ap (is_owner t) v.owner) ∙ m) in
    let more : (s.count - 1 == 0) ≡ false = ground (arith, v.count) in
    rw (more) (
      holder o n,
      record {
        locked = v.locked;
        owner = v.owner;
        count = omega (arith, v.count);
        held = λ u. ground (arith, v.held u, v.held t, same);
      },
    )

release-IsHeld : (t : ℕ) (s : AsyncRLock) → IsHeld s → IsHeld (release t s).1
unfolding release
release-IsHeld t s (h, v) = elim (Bool-cases (is_owner t s.owner)) [
  | inl m ↦ simp (m) (release_holder t h s v m)
  | inr m ↦ simp (m) (h, v)
]

run-IsHeld :
    (events : List Event) (s : AsyncRLock) → IsHeld s → Grants events s → IsHeld (run events s)
unfolding run
run-IsHeld [] s v g = v
run-IsHeld (acquires t ∷ events) s v g = run-IsHeld events (acquire t s) (acquire-IsHeld t s v) g
run-IsHeld (gets_lock t ∷ events) s v (e, g) =
    run-IsHeld events (become_owner t s) (become_owner-IsHeld t s e v) g
run-IsHeld (releases t ∷ events) s v g = run-IsHeld events (release t s).1 (release-IsHeld t s v) g

one_holder : (h : Holder) (u v : ℕ) → 0 < holds h u → 0 < holds h v → u ≡ v
one_holder nobody u v h k = omega (arith, h)
one_holder (holder t n) u v h k = ground (arith, h, k)

-- Whatever the tasks call, and in whatever order the wrapped lock is granted while it is free, no two
-- tasks hold the lock at once.
pub Grants-exclusive :
    (events : List Event) (u v : ℕ)
    → Grants events initial
    → 0 < (run events initial).held u
    → 0 < (run events initial).held v
    → u ≡ v
Grants-exclusive events u v g hu hv =
    let start : IsHeld initial =
      (nobody, record { locked = refl; owner = refl; count = refl; held = λ u. refl }) in
    let (h, w) = run-IsHeld events initial start g in
    one_holder h u v (subst (λ n. 0 < n) (w.held u) hu) (subst (λ n. 0 < n) (w.held v) hv)
