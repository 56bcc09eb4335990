-- ===== src/LockPool.antt =====
-- `NamedLockPool` of src/traffik/_locks.py and its handles. The factory numbers the locks that it
-- makes, so a lock is its number; the pool's own lock makes each operation one step. The test whether
-- the pool is closed stands before that lock in the source, and is part of the step here. What the
-- underlying lock answers to `acquire` is an input.
pub mod Accounting
pub mod Calls
pub mod Entries
pub mod Tests
use traffik.Base.{
  ℕ, zero, suc, ◌+◌, ◌-◌, ◌*◌, Bool, true, false, not, ◌&&◌, Option, none, some, List, [], ◌∷◌,
  ◌++◌, length, unsnoc, min, ltb, leb, if◌then◌else◌,
}
use traffik.Base.Text.{Str}
use traffik.Base.Dict.{Dict, lookup, insert, erase}
use traffik.Result.{
  Result, ok, err, value_error, lock_pool_error, lock_acquisition_error, lock_release_error, ◌>>=◌,
  ◌>>◌, raise_if,
}

pub record NamedLockPool : Type 0 where
  pub max_size : ℕ
  pub max_capacity : ℕ
  pub allocated : ℕ
  pub idle : List ℕ
  pub in_use : Dict (ℕ × ℕ)
  pub closed : Bool
  pub made : ℕ

-- The fields that `__init__` sets.
abbrev pub fresh : ℕ → ℕ → NamedLockPool
fresh max_size headroom = record {
  max_size = max_size;
  max_capacity = max_size * headroom;
  allocated = 0;
  idle = [];
  in_use = [];
  closed = false;
  made = 0;
}

-- `__init__`
unfoldable pub new : ℕ → ℕ → Result NamedLockPool
new max_size headroom = do
  raise_if (ltb max_size 1) value_error
  raise_if (ltb headroom 1) value_error
  ok (fresh max_size headroom)

-- `NamedLockHandle`
pub record NamedLockHandle : Type 0 where
  pub name : Str
  pub lock : ℕ
  pub acquired : Bool
  pub released : Bool

abbrev pub handle_of : Str → ℕ → NamedLockHandle
handle_of name lock = record { name = name; lock = lock; acquired = false; released = false }

-- `self._in_use[name] = (lock, refcount)`
abbrev pub use_lock : Str → ℕ → ℕ → NamedLockPool → NamedLockPool
use_lock name lock refcount p = record p { in_use = insert name (lock, refcount) p.in_use }

-- A lock from the idle ones, the last first, or a new one if the capacity allows it.
unfoldable pub take_lock : Option (ℕ × List ℕ) → NamedLockPool → Result (ℕ × NamedLockPool)
take_lock (some (lock, rest)) p = ok (lock, record p { idle = rest })
take_lock none p =
    if leb p.max_capacity p.allocated
    then err lock_pool_error
    else ok (p.made, record p { made = p.made + 1; allocated = p.allocated + 1 })

unfoldable pub get_entry :
    Str → Option (ℕ × ℕ) → NamedLockPool → Result (NamedLockHandle × NamedLockPool)
unfolding take_lock
get_entry name (some (lock, refcount)) p =
    ok (handle_of name lock, use_lock name lock (refcount + 1) p)
get_entry name none p = do
  (lock, p') ← take_lock (unsnoc p.idle) p
  ok (handle_of name lock, use_lock name lock 1 p')

-- `get`
unfoldable pub get : Str → NamedLockPool → Result (NamedLockHandle × NamedLockPool)
unfolding get_entry
get name p = do raise_if p.closed lock_pool_error; get_entry name (lookup name p.in_use) p

-- `_discard_lock`
abbrev pub discard_lock : NamedLockPool → NamedLockPool
discard_lock p = record p { allocated = p.allocated - 1 }

-- The last reference goes: the lock becomes idle, or is discarded.
unfoldable pub recycle : ℕ → NamedLockPool → NamedLockPool
recycle lock p =
    if ltb (length p.idle) p.max_size
    then record p { idle = p.idle ++ lock ∷ [] }
    else discard_lock p

unfoldable pub release_entry : Str → Option (ℕ × ℕ) → NamedLockPool → NamedLockPool
unfolding recycle
release_entry name none p = p
release_entry name (some (lock, refcount)) p =
    if ltb 1 refcount
    then use_lock name lock (refcount - 1) p
    else recycle lock (record p { in_use = erase name p.in_use })

-- `_release`
unfoldable pub release_name : Str → NamedLockPool → NamedLockPool
unfolding release_entry
release_name name p = if p.closed then p else release_entry name (lookup name p.in_use) p

-- The loop of `populate`.
unfoldable pub add_idle : ℕ → NamedLockPool → NamedLockPool
add_idle zero p = p
add_idle (suc n) p =
    add_idle n
      (record p { idle = p.idle ++ p.made ∷ []; made = p.made + 1; allocated = p.allocated + 1 })

-- How many locks to add: up to the maximum size, or the given number.
abbrev pub wanted : Option ℕ → ℕ → ℕ
wanted none space = space
wanted (some n) space = min n space

-- `populate`; a number below zero adds none, as zero does.
unfoldable pub populate : Option ℕ → NamedLockPool → Result NamedLockPool
unfolding add_idle
populate n p = do
  raise_if p.closed lock_pool_error
  ok (add_idle (min (wanted n (p.max_size - length p.idle)) (p.max_capacity - p.allocated)) p)

-- The loops of `close` over the locks.
unfoldable pub discard_all : {A : Type 0} → List A → NamedLockPool → NamedLockPool
discard_all [] p = p
discard_all (lock ∷ locks) p = discard_all locks (discard_lock p)

-- `close`
unfoldable pub close : NamedLockPool → NamedLockPool
unfolding discard_all
close p =
    if p.closed
    then p
    else (let p' = record (discard_all p.in_use (record p { closed = true })) { in_use = [] } in
        record (discard_all p'.idle p') { idle = [] })

-- `acquire` of a handle: the checks, then the underlying lock's answer.
unfoldable pub acquire : Bool → NamedLockHandle → NamedLockPool → Result (Bool × NamedLockHandle)
acquire answer h p = do
  raise_if h.released lock_acquisition_error
  raise_if h.acquired lock_acquisition_error
  raise_if p.closed lock_pool_error
  ok (answer, record h { acquired = answer })

-- `release` of a handle.
unfoldable pub release : NamedLockHandle → NamedLockPool → Result (NamedLockHandle × NamedLockPool)
unfolding release_name
release h p = do
  raise_if (not h.acquired) lock_release_error
  ok (record h { acquired = false; released = true }, release_name h.name p)

-- `discard` of a handle.
unfoldable pub discard : NamedLockHandle → NamedLockPool → NamedLockHandle × NamedLockPool
unfolding release_name
discard h p =
    if not h.acquired && not h.released
    then (record h { released = true }, release_name h.name p)
    else (h, p)

-- A call of the pool.
pub data Call : Type 0 where
  gets releases : Str → Call
  populates : Option ℕ → Call
  closes : Call

-- What a call leaves: one that raises has changed nothing.
abbrev pub after {ℓ} : {A : Type ℓ} → NamedLockPool → (A → NamedLockPool) → Result A → NamedLockPool
after p f (ok a) = f a
after p f (err e) = p

unfoldable pub step : Call → NamedLockPool → NamedLockPool
step (gets name) p = after p (λ r. r.1) (get name p)
step (releases name) p = release_name name p
step (populates n) p = after p (λ r. r) (populate n p)
step closes p = close p

unfoldable pub run : List Call → NamedLockPool → NamedLockPool
unfolding step
run [] p = p
run (c ∷ calls) p = run calls (step c p)

-- The counters: `allocated_count`, `active_name_count`, `active_reference_count`, `free_count`, `size`.
unfoldable pub allocated_count : NamedLockPool → ℕ
allocated_count p = p.allocated

unfoldable pub active_name_count : NamedLockPool → ℕ
active_name_count p = length p.in_use

-- The sum of the reference counts.
unfoldable pub references : Dict (ℕ × ℕ) → ℕ
references [] = 0
references ((name, (lock, refcount)) ∷ in_use) = refcount + references in_use

unfoldable pub active_reference_count : NamedLockPool → ℕ
active_reference_count p = references p.in_use

unfoldable pub free_count : NamedLockPool → ℕ
free_count p = length p.idle

unfoldable pub size : NamedLockPool → ℕ
size p = length p.in_use + length p.idle

-- The end of `lock`: a handle that is acquired is released, any other is discarded.
unfoldable pub leave_lock : NamedLockHandle → NamedLockPool → Result NamedLockPool
leave_lock h p = if h.acquired then (do (_, p') ← release h p; ok p') else ok (discard h p).1
