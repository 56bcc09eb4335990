-- ===== src/SharedShard/Reap.antt =====
-- The reaping of one shard by the clean-up, and the clearing of a shard
-- (src/traffik/backends/multiprocess.py). The buckets that `random.sample` picks are a parameter, and `between i`
-- is what other processes do to the shard before step `i`.
use traffik.Base.{
  ℕ, ◌+◌, Bool, true, false, not, ◌&&◌, ◌||◌, Option, none, some, List, [], ◌∷◌, ◌==◌,
  if◌then◌else◌,
}
use traffik.Base.Text.{Str}
use traffik.Result.{Result, ok, err}
use traffik.SharedTable.{Bucket, occupied, Table, get_slot, delete, iter_occupied}
use traffik.SharedShard.{Slot, SharedShard, expired, free_stack_push, clear_slot}

-- `_hash_table_read_bucket`
abbrev pub read_bucket : Bucket → Option (Str × ℕ)
read_bucket (occupied key slot_idx) = some (key, slot_idx)
read_bucket _ = none

-- The test of an entry, in both passes.
abbrev pub is_expired : ℕ → Slot → Bool
is_expired now x = x.occupied && expired now x

-- The first pass, without a lock: how many of the sampled buckets have a key, and which keys look
-- expired.
unfoldable pub candidates : ℕ → List ℕ → SharedShard → ℕ × List (Str × ℕ)
candidates now [] s = (0, [])
candidates now (bucket_idx ∷ sample) s =
    let (checked, entries) = candidates now sample s in
    elim (read_bucket (s.table.buckets bucket_idx)) [
      | none ↦ (checked, entries)
      | some entry ↦
          (checked + 1, if is_expired now (s.slots (entry.1)) then entry ∷ entries else entries)
    ]

module _ (hash : Str → ℕ) (capacity rebuild_threshold : ℕ) where
  unfoldable pub reap_deleted :
      ℕ → SharedShard → Result (Option ℕ × Table) → Result Bool × SharedShard
  reap_deleted slot_idx s (err e) = (err e, s)
  reap_deleted slot_idx s (ok (_, t)) =
      (ok true, free_stack_push slot_idx (clear_slot slot_idx (record s { table = t })))

  unfoldable pub reap_found :
      ℕ → Str → ℕ → Result (Option ℕ) → SharedShard → Result Bool × SharedShard
  unfolding reap_deleted
  reap_found now key expected (err e) s = (err e, s)
  reap_found now key expected (ok none) s = (ok false, s)
  reap_found now key expected (ok (some slot_idx)) s =
      if not (slot_idx == expected) || not (is_expired now (s.slots slot_idx))
      then (ok false, s)
      else reap_deleted slot_idx s (delete hash capacity rebuild_threshold key s.table)

  -- The second pass for one candidate, under both semaphores: whether it was freed.
  unfoldable pub reap_candidate : ℕ → Str × ℕ → SharedShard → Result Bool × SharedShard
  unfolding reap_found
  reap_candidate now (key, expected) s =
      reap_found now key expected (get_slot hash capacity key s.table) s

  module _ (between : ℕ → SharedShard → SharedShard) where
    unfoldable pub count_freed : Bool → Result ℕ × SharedShard → Result ℕ × SharedShard
    count_freed freed (err e, s) = (err e, s)
    count_freed freed (ok n, s) = (ok (if freed then n + 1 else n), s)

    unfoldable pub reap_rest :
        Result Bool × SharedShard → (SharedShard → Result ℕ × SharedShard) → Result ℕ × SharedShard
    unfolding count_freed
    reap_rest (err e, s) rest = (err e, s)
    reap_rest (ok freed, s) rest = count_freed freed (rest s)

    unfoldable pub reap_all : ℕ → ℕ → List (Str × ℕ) → SharedShard → Result ℕ × SharedShard
    unfolding reap_rest
    reap_all now i [] s = (ok 0, s)
    reap_all now i (entry ∷ entries) s =
        reap_rest (reap_candidate now entry (between i s)) (reap_all now (i + 1) entries)

    unfoldable pub with_checked : ℕ → Result ℕ × SharedShard → Result (ℕ × ℕ) × SharedShard
    with_checked checked (err e, s) = (err e, s)
    with_checked checked (ok freed, s) = (ok (checked, freed), s)

    -- `_sample_and_reap_shard`
    unfoldable pub sample_and_reap_shard : ℕ → List ℕ → SharedShard → Result (ℕ × ℕ) × SharedShard
    unfolding candidates with_checked
    sample_and_reap_shard now sample s =
        let (checked, entries) = candidates now sample s in
        with_checked checked (reap_all now 0 entries s)

  -- A key that starts with the prefix, as bytes.
  unfoldable pub starts_with : Str → Str → Bool
  starts_with key [] = true
  starts_with [] (b ∷ prefix) = false
  starts_with (a ∷ key) (b ∷ prefix) = (a == b) && starts_with key prefix

  unfoldable pub add_pair :
      ℕ × ℕ → Result (List (ℕ × ℕ)) × SharedShard → Result (List (ℕ × ℕ)) × SharedShard
  add_pair pair (err e, s) = (err e, s)
  add_pair pair (ok pairs, s) = (ok (pair ∷ pairs), s)

  unfoldable pub unlink :
      ℕ
      → SharedShard
      → Result (Option ℕ × Table)
      → (SharedShard → Result (List (ℕ × ℕ)) × SharedShard)
      → Result (List (ℕ × ℕ)) × SharedShard
  unfolding add_pair
  unlink slot_idx s (err e) rest = (err e, s)
  unlink slot_idx s (ok (_, t)) rest =
      let s' = free_stack_push slot_idx (record s { table = t }) in
      add_pair (slot_idx, s'.generations slot_idx) (rest s')

  -- The first phase of `_clear` for the entries of the table: the slots that it freed, with the
  -- generations that they have then.
  unfoldable pub unlink_all :
      Str → List (Str × ℕ) → SharedShard → Result (List (ℕ × ℕ)) × SharedShard
  unfolding starts_with unlink
  unlink_all prefix [] s = (ok [], s)
  unlink_all prefix ((key, slot_idx) ∷ entries) s =
      let rest = unlink_all prefix entries in
      if starts_with key prefix
      then unlink slot_idx s (delete hash capacity rebuild_threshold key s.table) rest
      else rest s

  -- The second phase.
  unfoldable pub clear_all : List (ℕ × ℕ) → SharedShard → SharedShard
  clear_all [] s = s
  clear_all ((slot_idx, generation) ∷ pairs) s =
      clear_all pairs (if s.generations slot_idx == generation then clear_slot slot_idx s else s)

  unfoldable pub clear_unlinked :
      (SharedShard → SharedShard)
      → Result (List (ℕ × ℕ)) × SharedShard
      → Result (Unit {0}) × SharedShard
  unfolding clear_all
  clear_unlinked between (err e, s) = (err e, s)
  clear_unlinked between (ok [], s) = (ok tt, s)
  clear_unlinked between (ok (pair ∷ pairs), s) = (ok tt, clear_all (pair ∷ pairs) (between s))

  -- `_clear` of one shard.
  unfoldable pub clear :
      (SharedShard → SharedShard) → Str → SharedShard → Result (Unit {0}) × SharedShard
  unfolding unlink_all clear_unlinked
  clear between prefix s =
      clear_unlinked between (unlink_all prefix (iter_occupied hash capacity s.table) s)
