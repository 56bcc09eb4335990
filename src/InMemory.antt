-- ===== src/InMemory.antt =====
-- `InMemoryBackend` of src/traffik/backends/inmemory.py: the shards, and the methods that find the
-- shard of a key by its hash. A method's body runs without a suspension, since no task holds a
-- shard's lock across an `await`: each method is one step on the state. Python's `hash` is a
-- parameter; the clock is read by the caller, in whole milliseconds, once for each time the source reads it.
pub mod AsStore
pub mod Groups
pub mod Lifecycle
pub mod Methods
pub mod MultiGet
pub mod MultiSet
pub mod Tests
pub mod Views
use traffik.Base.{
  ℕ, ◌-◌, ◌%◌, Bool, true, false, Option, none, some, List, [], ◌∷◌, map, set, get_elem?, replicate,
  ltb, ◌==◌, if◌then◌else◌, ◌||◌, not,
}
use traffik.Base.Int.{ℤ, pos, negsuc, ◌-ℤ◌}
use traffik.Base.Text.{Str}
use mathlib.Core.List.{flatten}
use traffik.Base.Dict
use traffik.Base.Dict.{Dict}
use traffik.Result.{
  Result, ok, err, connection_error, index_error, key_error, value_error, ◌>>=◌, ◌>>◌, raise_if,
}
use traffik.Shard
use traffik.Shard.{Shard, text}

pub record Backend : Type 0 where
  pub number_of_shards : ℕ
  pub shards : List Shard
  pub initialized : Bool

-- `__init__`
unfoldable pub new : ℕ → Result Backend
new number_of_shards =
    if ltb number_of_shards 1
    then err value_error
    else ok (record { number_of_shards = number_of_shards; shards = []; initialized = false })

-- `initialize`: the shards and their index lists are made together, unless they are there already.
unfoldable pub initialize : Backend → Backend
initialize b = if b.initialized then b else record b {
  shards = elim b.shards [ [] ↦ replicate b.number_of_shards Shard.empty | s ∷ r ↦ s ∷ r ];
  initialized = true;
}

-- `close`: the shards stay.
unfoldable pub close : Backend → Backend
close b = record b { initialized = false }

-- `not self._initialized or not self._shards`
abbrev pub unready : Backend → Bool
unready b = not b.initialized || elim b.shards [ [] ↦ true | s ∷ r ↦ false ]

-- `_assert_ready`
abbrev pub assert_ready : Backend → Result (Unit {0})
assert_ready b = raise_if (unready b) connection_error

abbrev pub or_key_error {ℓ} : {A : Type ℓ} → Option A → Result A
or_key_error none = err key_error
or_key_error (some a) = ok a

-- Python's `%` by a positive number.
abbrev pub mod_int : ℤ → ℕ → ℕ
mod_int (pos a) m = a % m
mod_int (negsuc a) m = m - 1 - a % m

abbrev pub or_index_error {ℓ} : {A : Type ℓ} → Option A → Result A
or_index_error none = err index_error
or_index_error (some a) = ok a

-- `sorted` on a set of shard indexes, by insertion.
unfoldable pub insert_sorted : ℕ → List ℕ → List ℕ
insert_sorted i [] = i ∷ []
insert_sorted i (j ∷ r) =
    let rest = insert_sorted i r in
    if ltb i j then i ∷ j ∷ r else if i == j then j ∷ r else j ∷ rest

-- The loop of `multi_get` over the keys of one shard.
unfoldable pub read_keys : ℕ → List Str → Dict (Option Str) → Shard → Dict (Option Str) × Shard
read_keys now [] results s = (results, s)
read_keys now (k ∷ ks) results s =
    let (value, s') = Shard.get now k s in read_keys now ks (Dict.insert k value results) s'

-- `[results[key] for key in keys]`
unfoldable pub collect : Dict (Option Str) → List Str → Result (List (Option Str))
collect results [] = ok []
collect results (k ∷ ks) = do
  value ← or_key_error (Dict.lookup k results)
  values ← collect results ks
  ok (value ∷ values)

-- The loop of `multi_set` over the items of one shard.
unfoldable pub write_items : Option ℕ → List (Str × Str) → Shard → Unit {0} × Shard
write_items expires_at [] s = (tt, s)
write_items expires_at ((k, v) ∷ items) s =
    write_items expires_at items (Shard.store k (text v, expires_at) s)

module _ (hash : Str → ℤ) where
  abbrev pub shard_idx : Backend → Str → ℕ
  shard_idx b key = mod_int (hash key) b.number_of_shards

  -- One step on the shard at `i`.
  unfoldable pub at_shard : {A : Type 0} → ℕ → (Shard → A × Shard) → Backend → Result (A × Backend)
  at_shard i f b = do
    shard ← or_index_error (get_elem? b.shards i)
    let (a, shard') = f shard
    ok (a, record b { shards = set b.shards i shard' })

  -- `_assert_ready`, `_get_shard` and one step on the shard.
  unfoldable pub with_shard :
      {A : Type 0} → Str → (Shard → A × Shard) → Backend → Result (A × Backend)
  with_shard key f b = do assert_ready b; at_shard (shard_idx b key) f b

  unfoldable pub get : ℕ → Str → Backend → Result (Option Str × Backend)
  get now key = with_shard key (Shard.get now key)

  unfoldable pub set_key : ℕ → Str → Str → Option ℕ → Backend → Result (Unit {0} × Backend)
  set_key now key value expire =
      with_shard key (λ s. (tt, Shard.store key (text value, Shard.deadline now expire) s))

  unfoldable pub delete : Str → Backend → Result (Bool × Backend)
  delete key = with_shard key (Shard.delete key)

  unfoldable pub increment : ℕ → Str → ℤ → Backend → Result (ℤ × Backend)
  increment now key amount = with_shard key (Shard.increment now key amount)

  -- `ThrottleBackend.decrement` of src/traffik/backends/base.py, which this backend inherits.
  unfoldable pub decrement : ℕ → Str → ℤ → Backend → Result (ℤ × Backend)
  unfolding increment
  decrement now key amount = increment now key (pos 0 -ℤ amount)

  unfoldable pub expire : ℕ → Str → ℕ → Backend → Result (Bool × Backend)
  expire now key seconds = with_shard key (Shard.expire now key seconds)

  unfoldable pub increment_with_ttl : ℕ → Str → ℤ → ℕ → Backend → Result (ℤ × Backend)
  increment_with_ttl now key amount ttl =
      with_shard key (Shard.increment_with_ttl now key amount ttl)

  -- The members whose key lies on the shard `i`, in order: `shard_keys[i]` and `shard_items[i]`.
  unfoldable pub on_shard : {A : Type 0} → (A → Str) → ℕ → Backend → List A → List A
  on_shard key_of i b [] = []
  on_shard key_of i b (a ∷ l) =
      let rest = on_shard key_of i b l in if shard_idx b (key_of a) == i then a ∷ rest else rest

  -- `sorted(shard_keys.keys())`
  unfoldable pub shard_indexes : {A : Type 0} → (A → Str) → Backend → List A → List ℕ
  unfolding insert_sorted
  shard_indexes key_of b [] = []
  shard_indexes key_of b (a ∷ l) = insert_sorted (shard_idx b (key_of a)) (shard_indexes key_of b l)

  -- The loop over the shards, in the order of their indexes; `groups` is `shard_keys`.
  unfoldable pub multi_get_shards :
      ℕ
      → (ℕ → List Str)
      → List ℕ
      → Dict (Option Str)
      → Backend
      → Result (Dict (Option Str) × Backend)
  multi_get_shards now groups [] results b = ok (results, b)
  multi_get_shards now groups (i ∷ is) results b = do
    (results', b') ← at_shard i (read_keys now (groups i) results) b
    multi_get_shards now groups is results' b'

  unfoldable pub multi_get : ℕ → List Str → Backend → Result (List (Option Str) × Backend)
  multi_get now [] b = do assert_ready b; ok ([], b)
  multi_get now (k ∷ ks) b = do
    assert_ready b
    (results, b') ←
        multi_get_shards now (λ i. on_shard (λ k. k) i b (k ∷ ks))
          (shard_indexes (λ k. k) b (k ∷ ks)) [] b
    values ← collect results (k ∷ ks)
    ok (values, b')

  -- The loop over the shards; `groups` is `shard_items`.
  unfoldable pub multi_set_shards :
      Option ℕ → (ℕ → List (Str × Str)) → List ℕ → Backend → Result (Unit {0} × Backend)
  multi_set_shards expires_at groups [] b = ok (tt, b)
  multi_set_shards expires_at groups (i ∷ is) b = do
    (_, b') ← at_shard i (write_items expires_at (groups i)) b
    multi_set_shards expires_at groups is b'

  -- The mapping `items` is the list of its items.
  unfoldable pub multi_set : ℕ → List (Str × Str) → Option ℕ → Backend → Result (Unit {0} × Backend)
  multi_set now [] expire b = do assert_ready b; ok (tt, b)
  multi_set now (e ∷ items) expire b = do
    assert_ready b
    multi_set_shards (Shard.deadline now expire) (λ i. on_shard (λ e. e.0) i b (e ∷ items))
        (shard_indexes (λ e. e.0) b (e ∷ items)) b

-- `clear`, and `reset`, which calls it.
unfoldable pub clear : Backend → Result (Unit {0} × Backend)
clear b = do assert_ready b; ok (tt, record b { shards = map (λ _. Shard.empty) b.shards })

-- `keys`: the expired ones that are still stored are among them.
unfoldable pub keys : Backend → Result (List Str)
keys b = do assert_ready b; ok (flatten (map (λ s. map (λ e. e.0) s.items) b.shards))
