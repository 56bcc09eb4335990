-- ===== src/LockPool/Calls.antt =====
-- Runs of the calls of `NamedLockPool` (src/traffik/_locks.py), and the life of a handle.
use traffik.Base.{
  ℕ, zero, suc, ◌+◌, ◌-◌, ◌≤◌, ◌<◌, ◌≡◌, refl, sym, ap, ◌∙◌, subst, Bool, true, false, Option, none,
  some, List, [], ◌∷◌, ◌++◌, length, length-append, unsnoc, min, if◌then◌else◌, Bool-cases, inl,
  inr, ◌⊎◌, arith,
}
use traffik.Base.Text.{Str}
use traffik.Base.Dict.{lookup}
use traffik.Result.{
  Result, ok, err, lock_pool_error, lock_acquisition_error, lock_release_error, Returns,
}
use traffik.LockPool.{
  allocated_count, size, active_name_count, free_count, leave_lock, NamedLockPool, NamedLockHandle,
  fresh, new, handle_of, use_lock, get_entry, get, release_name, add_idle, wanted, populate,
  discard_lock, discard_all, close, acquire, release, discard, Call, gets, releases, populates,
  closes, after, step, run,
}
use traffik.LockPool.Entries.{copies}
use traffik.LockPool.Accounting.{
  Accounts, use_lock-old, use_lock-new, take_lock-Loose, release_entry-Accounts,
}

get_entry-Accounts :
    (name : Str) (p : NamedLockPool) (o : Option (ℕ × ℕ))
    → lookup name p.in_use ≡ o
    → Accounts p
    → (get_entry name o p ≡ err lock_pool_error) ⊎ Returns (get_entry name o p) (λ r. Accounts r.1)
unfolding get_entry
get_entry-Accounts name p (some (lock, n)) e a =
    inr (_, refl, use_lock-old name lock (n + 1) p e (omega arith) a)
get_entry-Accounts name p none e a = elim (take_lock-Loose p (unsnoc p.idle) refl a) [
  | inl f ↦ inl (rw (f) refl)
  | inr (r, f, (l, s)) ↦ inr (
    (handle_of name r.0, use_lock name r.0 1 r.1),
    rw (f) refl,
    use_lock-new name r.0 r.1 (ap (lookup name) s ∙ e) l,
  )
]

get-Accounts :
    (name : Str) (p : NamedLockPool) → Accounts p → Accounts (after p (λ r. r.1) (get name p))
unfolding get
get-Accounts name p a = elim (Bool-cases p.closed) [
  | inl c ↦ simp (c) a
  | inr c ↦ elim (get_entry-Accounts name p (lookup name p.in_use) refl a) [
    | inl e ↦ simp (c, e) a
    | inr (r, e, a') ↦ simp (c, e) a'
  ]
]

add_idle-Accounts :
    (n : ℕ) (p : NamedLockPool)
    → p.allocated + n ≤ p.max_capacity
    → length p.idle + n ≤ p.max_size
    → Accounts p
    → Accounts (add_idle n p)
unfolding add_idle
add_idle-Accounts zero p h k a = a
add_idle-Accounts (suc n) p h k a =
    let more = length-append p.idle (p.made ∷ []) in
    add_idle-Accounts n
      (record p { idle = p.idle ++ p.made ∷ []; made = p.made + 1; allocated = p.allocated + 1 })
      (omega (arith, h)) (omega (arith, k, more))
      (record {
        total = omega (arith, a.total, more);
        bound = omega (arith, h);
        kept = omega (arith, k, more);
        single = a.single;
        counted = a.counted;
      })

wanted_le : (n : Option ℕ) (space : ℕ) → wanted n space ≤ space
wanted_le none space = omega arith
wanted_le (some n) space = omega arith

populate-Accounts :
    (n : Option ℕ) (p : NamedLockPool) → Accounts p → Accounts (after p (λ r. r) (populate n p))
unfolding populate
populate-Accounts n p a = elim (Bool-cases p.closed) [
  | inl c ↦ simp (c) a
  | inr c ↦ simp (c) (
      add_idle-Accounts (min (wanted n (p.max_size - length p.idle)) (p.max_capacity - p.allocated))
        p (omega (arith, a.bound)) (omega (arith, a.kept, wanted_le n (p.max_size - length p.idle)))
        a)
]

-- What `discard_all` leaves.
discard_all_lem :
    {A : Type 0} (l : List A) (p : NamedLockPool)
    → discard_all l p ≡ record p { allocated = p.allocated - length l }
unfolding discard_all
discard_all_lem [] p = ap (λ n. record p { allocated = n }) (omega arith)
discard_all_lem (x ∷ l) p =
    discard_all_lem l (discard_lock p) ∙ ap (λ n. record p { allocated = n }) (omega arith)

-- The pool once it is closed: all of its locks are discarded.
abbrev emptied : ℕ → NamedLockPool → NamedLockPool
emptied n p = record p { allocated = n; idle = []; in_use = []; closed = true }

emptied-Accounts : (p : NamedLockPool) → Accounts (emptied 0 p)
unfolding lookup copies
emptied-Accounts p = record {
  total = omega arith;
  bound = omega arith;
  kept = omega arith;
  single = λ k. omega arith;
  counted = λ k l m f. ground (arith, f);
}

close_open : (p : NamedLockPool) → p.closed ≡ false → Accounts p → close p ≡ emptied 0 p
unfolding close
close_open p c a =
    let q : NamedLockPool = record p { closed = true } in
    ap
      (λ (b : Bool).
        if b
        then p
        else record (discard_all (record (discard_all p.in_use q) { in_use = [] }).idle
            (record (discard_all p.in_use q) { in_use = [] })) { idle = [] })
      c
    ∙ ap
        (λ (x : NamedLockPool). record (discard_all x.idle (record x { in_use = [] })) {
          idle = [];
        })
        (discard_all_lem p.in_use q)
    ∙ ap (λ (x : NamedLockPool). record x { idle = [] })
        (discard_all_lem p.idle
          (record q { allocated = p.allocated - length p.in_use; in_use = [] }))
    ∙ ap (λ n. emptied n p) (omega (arith, a.total))

close_closed : (p : NamedLockPool) → p.closed ≡ true → close p ≡ p
unfolding close
close_closed p c = simp (c) refl

close-Accounts : (p : NamedLockPool) → Accounts p → Accounts (close p)
close-Accounts p a = elim (Bool-cases p.closed) [
  | inl c ↦ subst Accounts (sym (close_closed p c)) a
  | inr c ↦ subst Accounts (sym (close_open p c a)) (emptied-Accounts p)
]

step-Accounts : (c : Call) (p : NamedLockPool) → Accounts p → Accounts (step c p)
unfolding step release_name
step-Accounts (gets name) p a = get-Accounts name p a
step-Accounts (populates n) p a = populate-Accounts n p a
step-Accounts closes p a = close-Accounts p a
step-Accounts (releases name) p a = elim (Bool-cases p.closed) [
  | inl c ↦ simp (c) a
  | inr c ↦ simp (c) (release_entry-Accounts name p (lookup name p.in_use) refl a)
]

-- Any calls keep the accounts of a pool: what it allocated is in use or idle, never more than its
-- capacity; at most its size is idle; no name is in use twice, and each has a reference.
pub run-Accounts : (calls : List Call) (p : NamedLockPool) → Accounts p → Accounts (run calls p)
unfolding run
run-Accounts [] p a = a
run-Accounts (c ∷ calls) p a = run-Accounts calls (step c p) (step-Accounts c p a)

-- A constructed pool keeps its accounts.
pub new-Accounts :
    (max_size headroom : ℕ) → 0 < max_size → 0 < headroom → Returns (new max_size headroom) Accounts
unfolding new lookup copies
new-Accounts max_size headroom h k = (
  fresh max_size headroom,
  ground arith,
  record {
    total = refl;
    bound = omega arith;
    kept = omega arith;
    single = λ k. omega arith;
    counted = λ k l m f. ground (arith, f);
  },
)

-- Whether the handle that a release returns is acquired; an error counts as one that is not.
abbrev still_acquired : Result (NamedLockHandle × NamedLockPool) → Bool
still_acquired (ok (h, p)) = h.acquired
still_acquired (err e) = false

abbrev then_released : Result (NamedLockHandle × NamedLockPool) → Bool
then_released (ok (h, p)) = h.released
then_released (err e) = true

still_acquired-release :
    (h : NamedLockHandle) (p : NamedLockPool) → still_acquired (release h p) ≡ false
unfolding release
still_acquired-release h p = elim (Bool-cases h.acquired) [
  | inl e ↦ simp (e) refl
  | inr e ↦ simp (e) refl
]

then_released-release :
    (h : NamedLockHandle) (p : NamedLockPool) → then_released (release h p) ≡ true
unfolding release
then_released-release h p = elim (Bool-cases h.acquired) [
  | inl e ↦ simp (e) refl
  | inr e ↦ simp (e) refl
]

-- A handle is used once: after its release, and whatever became of the pool, it can be neither released
-- nor acquired again, and to discard it changes nothing.
pub release-once :
    (h h' : NamedLockHandle) (p p' p'' : NamedLockPool) (answer : Bool)
    → release h p ≡ ok (h', p')
    → (release h' p'' ≡ err lock_release_error)
      × (acquire answer h' p'' ≡ err lock_acquisition_error)
      × (discard h' p'' ≡ (h', p''))
unfolding acquire discard release
release-once h h' p p' p'' answer e =
    let n : h'.acquired ≡ false = sym (ap still_acquired e) ∙ still_acquired-release h p in
    let r : h'.released ≡ true = sym (ap then_released e) ∙ then_released-release h p in
    (simp (n) refl, simp (r) refl, simp (n, r) refl)

-- After any calls of a pool that keeps its accounts, `allocated_count` is `size`, which is the names in
-- use and the idle locks together and within the capacity.
pub counters_agree :
    (calls : List Call) (p : NamedLockPool)
    → Accounts p
    → (allocated_count (run calls p) ≡ size (run calls p))
      × (size (run calls p) ≡ active_name_count (run calls p) + free_count (run calls p))
      × (size (run calls p) ≤ (run calls p).max_capacity)
unfolding allocated_count size active_name_count free_count
counters_agree calls p a =
    let b = run-Accounts calls p a in (b.total, refl, omega (arith, b.total, b.bound))

-- Both ways out of the context manager `lock` give up the one reference of a handle that was not
-- released before: an acquired one by its release, any other as discarded.
pub leave_lock_lem :
    (h : NamedLockHandle) (p : NamedLockPool)
    → h.released ≡ false
    → leave_lock h p ≡ ok (release_name h.name p)
unfolding leave_lock release discard
leave_lock_lem h p e = elim (Bool-cases h.acquired) [
  | inl m ↦ simp (m) refl
  | inr m ↦ simp (m, e) refl
]
