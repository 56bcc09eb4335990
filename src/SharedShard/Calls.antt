-- ===== src/SharedShard/Calls.antt =====
-- The calls of `MultiProcessInMemoryBackend` on the shard of their key
-- (src/traffik/backends/multiprocess.py): two phases, each under a semaphore, with the generation of the
-- slot checked in the second, and a retry where it moved on.
use traffik.Base.{
  ℕ, zero, suc, ◌+◌, Bool, true, false, Option, none, some, List, [], ◌∷◌, ◌==◌, if◌then◌else◌,
}
use traffik.Base.Int.{ℤ}
use traffik.Base.Text.{Str}
use traffik.Result.{backend_error, Result, ok, err}
use traffik.SharedTable.{Table, get_slot, upsert, delete}
use traffik.SharedShard.{
  Slot, SharedShard, bump, free_stack_push, clear_slot, deadline, write_string_slot,
  write_increment, write_increment_ttl, write_expire, read, on_slot,
}

module _ (hash : Str → ℕ) (capacity rebuild_threshold : ℕ) where
  unfoldable pub put_slot : ℕ → SharedShard → Result Table → Result (ℕ × ℕ) × SharedShard
  put_slot slot_idx s (err e) = (err e, s)
  put_slot slot_idx s (ok t) = (ok (slot_idx, s.generations slot_idx), record s { table = t })

  -- `_free_stack_pop`, then `_hash_table_upsert` of the key.
  unfoldable pub pop_slot : Str → List ℕ → SharedShard → Result (ℕ × ℕ) × SharedShard
  unfolding put_slot
  pop_slot key [] s = (err backend_error, s)
  pop_slot key (slot_idx ∷ free) s =
      put_slot slot_idx (bump slot_idx (record s { free = free }))
        (upsert hash capacity key slot_idx s.table)

  unfoldable pub take_found : Str → Result (Option ℕ) → SharedShard → Result (ℕ × ℕ) × SharedShard
  unfolding pop_slot
  take_found key (err e) s = (err e, s)
  take_found key (ok (some slot_idx)) s = (ok (slot_idx, s.generations slot_idx), s)
  take_found key (ok none) s = pop_slot key s.free s

  -- The first phase of the calls that write: the key's slot, or a new one for it.
  unfoldable pub take_slot : Str → SharedShard → Result (ℕ × ℕ) × SharedShard
  unfolding take_found
  take_slot key s = take_found key (get_slot hash capacity key s.table) s

  module _ {A : Type 0} (between : ℕ → SharedShard → SharedShard) (key : Str)
      (write : Slot → Result A × Slot) where
    unfoldable pub second_phase :
        ℕ → Bool → SharedShard → (Result A × SharedShard) → Result A × SharedShard
    second_phase slot_idx true s rest = on_slot slot_idx write s
    second_phase slot_idx false s rest = rest

    unfoldable pub after_taking :
        ℕ
        → Result (ℕ × ℕ) × SharedShard
        → (SharedShard → Result A × SharedShard)
        → Result A × SharedShard
    unfolding second_phase
    after_taking i (err e, s) rest = (err e, s)
    after_taking i (ok (slot_idx, generation), s) rest =
        let s' = between i s in
        second_phase slot_idx (s'.generations slot_idx == generation) s' (rest s')

    -- The loop of the retries, with `n` of them left.
    unfoldable pub retrying : ℕ → ℕ → SharedShard → Result A × SharedShard
    unfolding after_taking
    retrying zero i s = (err backend_error, s)
    retrying (suc n) i s = after_taking i (take_slot key s) (retrying n (i + 1))

  module _ (max_aba_retries : ℕ) (between : ℕ → SharedShard → SharedShard) where
    -- `_set`
    unfoldable pub set_key :
        ℕ → ℕ → Str → Str → Option ℕ → SharedShard → Result (Unit {0}) × SharedShard
    set_key max_value_size now key value expire s =
        retrying between key (write_string_slot max_value_size value (deadline now expire))
          max_aba_retries 0 s

    -- `_increment`
    unfoldable pub increment : ℕ → Str → ℤ → SharedShard → Result ℤ × SharedShard
    increment now key amount s =
        retrying between key (write_increment now amount) max_aba_retries 0 s

    -- `_increment_with_ttl`
    unfoldable pub increment_with_ttl : ℕ → Str → ℤ → ℕ → SharedShard → Result ℤ × SharedShard
    increment_with_ttl now key amount ttl s =
        retrying between key (write_increment_ttl now amount ttl) max_aba_retries 0 s

    unfoldable pub get_found :
        ℕ → Result (Option ℕ) → SharedShard → Result (Option Str) × SharedShard
    get_found now (err e) s = (err e, s)
    get_found now (ok none) s = (ok none, s)
    get_found now (ok (some slot_idx)) s =
        let s' = between 0 s in
        if s'.generations slot_idx == s.generations slot_idx
        then (ok (read now (s'.slots slot_idx)), s')
        else (ok none, s')

    -- `_get`
    unfoldable pub get : ℕ → Str → SharedShard → Result (Option Str) × SharedShard
    unfolding get_found
    get now key s = get_found now (get_slot hash capacity key s.table) s

    unfoldable pub expire_found :
        ℕ → ℕ → Result (Option ℕ) → SharedShard → Result Bool × SharedShard
    expire_found now seconds (err e) s = (err e, s)
    expire_found now seconds (ok none) s = (ok false, s)
    expire_found now seconds (ok (some slot_idx)) s =
        let s' = between 0 s in
        if s'.generations slot_idx == s.generations slot_idx
        then on_slot slot_idx (write_expire now seconds) s'
        else (ok false, s')

    -- `_expire`
    unfoldable pub expire : ℕ → Str → ℕ → SharedShard → Result Bool × SharedShard
    unfolding expire_found
    expire now key seconds s = expire_found now seconds (get_slot hash capacity key s.table) s

  unfoldable pub delete_found : SharedShard → Result (Option ℕ × Table) → Result Bool × SharedShard
  delete_found s (err e) = (err e, s)
  delete_found s (ok (none, t)) = (ok false, record s { table = t })
  delete_found s (ok (some slot_idx, t)) =
      (ok true, free_stack_push slot_idx (clear_slot slot_idx (record s { table = t })))

  -- `_delete`, under both semaphores.
  unfoldable pub delete_key : Str → SharedShard → Result Bool × SharedShard
  unfolding delete_found
  delete_key key s = delete_found s (delete hash capacity rebuild_threshold key s.table)
