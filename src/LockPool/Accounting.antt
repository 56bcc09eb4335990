-- ===== src/LockPool/Accounting.antt =====
-- The accounts of `NamedLockPool` (src/traffik/_locks.py): what it allocated is in use or idle, within
-- its bounds, and every name in use has a reference.
use traffik.Base.{
  ℕ, suc, ◌+◌, ◌-◌, ◌≤◌, ◌<◌, ◌≡◌, refl, sym, ap, ◌∙◌, subst, true, Option, none, some, List, [],
  ◌∷◌, length, length-append, unsnoc, append_of_unsnoc, ltb, leb, Bool-cases, inl, inr, ◌⊎◌, arith,
}
use traffik.Base.Text.{Str, str_eq, str_eq_iff}
use traffik.Base.Dict.{Dict, lookup, insert, erase, lookup-insert, lookup-erase}
use traffik.Result.{err, lock_pool_error, Returns}
use traffik.LockPool.{NamedLockPool, use_lock, take_lock, recycle, release_entry}
use traffik.LockPool.Entries.{
  copies, copies-none, copies-some, length-erase, copies-erase, length-insert_old,
  copies-insert_old, length-insert_new, copies-insert_new,
}

pub record Accounts (p : NamedLockPool) : Type 0 where
  pub total : p.allocated ≡ length p.in_use + length p.idle
  pub bound : p.allocated ≤ p.max_capacity
  pub kept : length p.idle ≤ p.max_size
  pub single : (k : Str) → copies k p.in_use ≤ 1
  pub counted : (k : Str) (lock n : ℕ) → lookup k p.in_use ≡ some (lock, n) → 0 < n

counted_insert :
    (d : Dict (ℕ × ℕ)) (name : Str) (lock n : ℕ)
    → 0 < n
    → ((k : Str) (l m : ℕ) → lookup k d ≡ some (l, m) → 0 < m)
    → (k : Str) (l m : ℕ) → lookup k (insert name (lock, n) d) ≡ some (l, m)
    → 0 < m
counted_insert d name lock n pos h k l m e = elim (Bool-cases (str_eq name k)) [
  | inl s ↦
      let e' : some (lock, n) ≡ some (l, m) =
        rw (s) at (sym (lookup-insert name k (lock, n) d) ∙ e) in
      ground (arith, e', pos)
  | inr s ↦ h k l m (rw (s) at (sym (lookup-insert name k (lock, n) d) ∙ e))
]

pub use_lock-old :
    (name : Str) (lock n : ℕ) (p : NamedLockPool) {l m : ℕ}
    → lookup name p.in_use ≡ some (l, m)
    → 0 < n
    → Accounts p
    → Accounts (use_lock name lock n p)
use_lock-old name lock n p {l} {m} e pos a = record {
  total =
      a.total
      ∙ ap (λ x. x + length p.idle) (sym (length-insert_old name (lock, n) (l, m) p.in_use e));
  bound = a.bound;
  kept = a.kept;
  single = λ k. omega (arith, a.single k, copies-insert_old name k (lock, n) (l, m) p.in_use e);
  counted = counted_insert p.in_use name lock n pos a.counted;
}

-- One lock is neither idle nor in use.
pub record Loose (p : NamedLockPool) : Type 0 where
  total : p.allocated ≡ suc (length p.in_use + length p.idle)
  bound : p.allocated ≤ p.max_capacity
  kept : length p.idle ≤ p.max_size
  single : (k : Str) → copies k p.in_use ≤ 1
  counted : (k : Str) (lock n : ℕ) → lookup k p.in_use ≡ some (lock, n) → 0 < n

pub use_lock-new :
    (name : Str) (lock : ℕ) (p : NamedLockPool)
    → lookup name p.in_use ≡ none
    → Loose p
    → Accounts (use_lock name lock 1 p)
use_lock-new name lock p e a = record {
  total = omega (arith, a.total, length-insert_new name (lock, 1) p.in_use e);
  bound = a.bound;
  kept = a.kept;
  single = λ k. ground (arith, a.single k, copies-insert_new name k (lock, 1) p.in_use e, fresh k);
  counted = counted_insert p.in_use name lock 1 (omega arith) a.counted;
}
  where
    fresh : (k : Str) → str_eq name k ≡ true → copies k p.in_use ≡ 0
    fresh k s =
        subst (λ j. copies j p.in_use ≡ 0) ((str_eq_iff name k).0 s) (copies-none name p.in_use e)

pub take_lock-Loose :
    (p : NamedLockPool) (o : Option (ℕ × List ℕ))
    → unsnoc p.idle ≡ o
    → Accounts p
    → (take_lock o p ≡ err lock_pool_error)
      ⊎ Returns (take_lock o p) (λ r. Loose r.1 × (r.1.in_use ≡ p.in_use))
unfolding take_lock
take_lock-Loose p (some (lock, rest)) e a =
    let back : length p.idle ≡ length rest + 1 =
      ap length (append_of_unsnoc p.idle e) ∙ length-append rest (lock ∷ []) in
    inr (
      (lock, record p { idle = rest }),
      refl,
      (
        record {
          total = omega (arith, a.total, back);
          bound = a.bound;
          kept = omega (arith, a.kept, back);
          single = a.single;
          counted = a.counted;
        },
        refl,
      ),
    )
take_lock-Loose p none e a = elim (Bool-cases (leb p.max_capacity p.allocated)) [
  | inl full ↦ inl (rw (full) refl)
  | inr more ↦ inr (
    (p.made, record p { made = p.made + 1; allocated = p.allocated + 1 }),
    rw (more) refl,
    (
      record {
        total = omega (arith, a.total);
        bound = ground (arith, more);
        kept = a.kept;
        single = a.single;
        counted = a.counted;
      },
      refl,
    ),
  )
]

recycle-Accounts : (lock : ℕ) (p : NamedLockPool) → Loose p → Accounts (recycle lock p)
unfolding recycle
recycle-Accounts lock p a = elim (Bool-cases (ltb (length p.idle) p.max_size)) [
  | inl m ↦ rw (m) (record {
    total = omega (arith, a.total, length-append p.idle (lock ∷ []));
    bound = a.bound;
    kept = ground (arith, m, length-append p.idle (lock ∷ []));
    single = a.single;
    counted = a.counted;
  })
  | inr m ↦ rw (m) (record {
    total = omega (arith, a.total);
    bound = omega (arith, a.bound);
    kept = a.kept;
    single = a.single;
    counted = a.counted;
  })
]

counted_erase :
    (d : Dict (ℕ × ℕ)) (name : Str)
    → ((k : Str) (l m : ℕ) → lookup k d ≡ some (l, m) → 0 < m)
    → (k : Str) (l m : ℕ) → lookup k (erase name d) ≡ some (l, m)
    → 0 < m
counted_erase d name h k l m e = elim (Bool-cases (str_eq name k)) [
  | inl s ↦ ground (arith, e, lookup-erase name k d, s)
  | inr s ↦ h k l m (rw (s) at (sym (lookup-erase name k d) ∙ e))
]

pub release_entry-Accounts :
    (name : Str) (p : NamedLockPool) (o : Option (ℕ × ℕ))
    → lookup name p.in_use ≡ o
    → Accounts p
    → Accounts (release_entry name o p)
unfolding release_entry
release_entry-Accounts name p none e a = a
release_entry-Accounts name p (some (lock, n)) e a = elim (Bool-cases (ltb 1 n)) [
  | inl m ↦ rw (m) (use_lock-old name lock (n - 1) p e (ground (arith, m)) a)
  | inr m ↦ rw (m) (
      recycle-Accounts lock (record p { in_use = erase name p.in_use })
        (record {
          total = omega (
            arith,
            a.total,
            length-erase name p.in_use,
            a.single name,
            copies-some name p.in_use (lock, n) e,
          );
          bound = a.bound;
          kept = a.kept;
          single = λ k. ground (arith, copies-erase name k p.in_use, a.single k);
          counted = counted_erase p.in_use name a.counted;
        }))
]
