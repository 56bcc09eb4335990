-- ===== src/SharedTable.antt =====
-- The hash table of one shard of `MultiProcessInMemoryBackend`
-- (src/traffik/backends/multiprocess.py): open addressing with linear probing, tombstones and a rebuild
-- in place. A bucket's state, key and slot index are one value, and the table's bytes are a function of
-- the bucket's index. Keys are their UTF-8 bytes. The capacity is a power of two, so `x & mask` is
-- `x % capacity`. The FNV hash is a parameter.
pub mod Counts
pub mod Methods
pub mod Delete
pub mod Probe
pub mod Rebuild
pub mod Refine
pub mod Scan
mod Tests
pub mod Update
use traffik.Base.{
  ℕ, zero, suc, ◌+◌, ◌%◌, Bool, true, false, Option, none, some, List, [], ◌∷◌, length, ltb, leb,
  ◌==◌, if◌then◌else◌,
}
use traffik.Base.Text.{Str, str_eq}
use traffik.Result.{Result, ok, err, backend_error, ◌>>=◌, ◌>>◌, raise_if}

-- `_HASH_TABLE_EMPTY_STATE`, `_HASH_TABLE_TOMBSTONE_STATE`, `_HASH_TABLE_OCCUPIED_STATE`
pub data Bucket : Type 0 where
  empty tombstone : Bucket
  occupied : Str → ℕ → Bucket

pub record Table : Type 0 where
  pub buckets : ℕ → Bucket
  pub tombstone_count : ℕ

abbrev pub update : {A : Type 0} → ℕ → A → (ℕ → A) → ℕ → A
update i a f j = if i == j then a else f j

abbrev pub blank : Table
blank = record { buckets = λ _. empty; tombstone_count = 0 }

-- `first_tombstone if first_tombstone != -1 else idx`
abbrev pub first_or : Option ℕ → ℕ → ℕ
first_or none idx = idx
first_or (some first_tombstone) idx = first_tombstone

-- `_KEY_MAX_BYTES`
abbrev pub key_max_bytes : ℕ
key_max_bytes = 200

module _ (hash : Str → ℕ) (capacity : ℕ) where
  -- `(start + i) & mask`
  abbrev pub probe : Str → ℕ → ℕ
  probe key i = (hash key % capacity + i) % capacity

  -- The loop of `_hash_table_lookup` with `n` buckets left, from step `i`.
  unfoldable pub lookup_from : Str → (ℕ → Bucket) → ℕ → ℕ → Option ℕ → Result ℕ
  lookup_from key b zero i first_tombstone = err backend_error
  lookup_from key b (suc n) i first_tombstone = elim (b (probe key i)) [
    | empty ↦ ok (first_or first_tombstone (probe key i))
    | tombstone ↦ lookup_from key b n (i + 1) (some (first_or first_tombstone (probe key i)))
    | occupied stored slot_idx ↦
        let rest = lookup_from key b n (i + 1) first_tombstone in
        if str_eq stored key then ok (probe key i) else rest
  ]

  -- `_hash_table_lookup`
  unfoldable pub lookup : Str → Table → Result ℕ
  unfolding lookup_from
  lookup key t = lookup_from key t.buckets capacity 0 none

  -- The slot index of a bucket, if it is occupied.
  abbrev pub slot_of : Bucket → Option ℕ
  slot_of (occupied key slot_idx) = some slot_idx
  slot_of _ = none

  -- `_hash_table_get_slot`
  unfoldable pub get_slot : Str → Table → Result (Option ℕ)
  get_slot key t = do idx ← lookup key t; ok (slot_of (t.buckets idx))

  -- `_hash_table_upsert`
  unfoldable pub upsert : Str → ℕ → Table → Result Table
  upsert key slot_idx t = do
    raise_if (ltb key_max_bytes (length key)) backend_error
    idx ← lookup key t
    ok (record t { buckets = update idx (occupied key slot_idx) t.buckets })

  -- `_hash_table_iter_occupied`, from bucket `i` with `n` buckets left.
  unfoldable pub occupied_from : (ℕ → Bucket) → ℕ → ℕ → List (Str × ℕ)
  occupied_from b zero i = []
  occupied_from b (suc n) i = elim (b i) [
    | empty ↦ occupied_from b n (i + 1)
    | tombstone ↦ occupied_from b n (i + 1)
    | occupied key slot_idx ↦ (key, slot_idx) ∷ occupied_from b n (i + 1)
  ]

  abbrev pub iter_occupied : Table → List (Str × ℕ)
  iter_occupied t = occupied_from t.buckets capacity 0

  unfoldable pub upsert_all : List (Str × ℕ) → Table → Result Table
  upsert_all [] t = ok t
  upsert_all ((key, slot_idx) ∷ entries) t = do t' ← upsert key slot_idx t; upsert_all entries t'

  -- `_rebuild_hash_table`
  unfoldable pub rebuild : Table → Result Table
  rebuild t = do
    t' ← upsert_all (iter_occupied t) (record t { buckets = λ _. empty })
    ok (record t' { tombstone_count = 0 })

  module _ (rebuild_threshold : ℕ) where
    -- What `_hash_table_delete` does with the bucket that it found.
    unfoldable pub delete_at : ℕ → Bucket → Table → Result (Option ℕ × Table)
    delete_at idx (occupied key slot_idx) t =
        let t' = record t {
          buckets = update idx tombstone t.buckets;
          tombstone_count = t.tombstone_count + 1;
        } in
        if leb rebuild_threshold t'.tombstone_count
        then (do t'' ← rebuild t'; ok (some slot_idx, t''))
        else ok (some slot_idx, t')
    delete_at idx _ t = ok (none, t)

    -- `_hash_table_delete`
    unfoldable pub delete : Str → Table → Result (Option ℕ × Table)
    unfolding delete_at
    delete key t = do idx ← lookup key t; delete_at idx (t.buckets idx) t
