-- ===== src/SharedLayout.antt =====
-- The memory of `MultiProcessInMemoryBackend` (src/traffik/backends/multiprocess.py): the sizes and offsets
-- that its constructor computes, and the estimate of them. The load factor of 0.65 is the fraction
-- 13 / 20, and `tombstone_rebuild_threshold` is a fraction too; both are exact here.
pub mod Capacity
pub mod Covering
pub mod Regions
mod Tests
use traffik.Base.{
  ℕ, zero, suc, ◌+◌, ◌-◌, ◌*◌, ◌/◌, ◌<◌, max, Bool, false, not, ltb, ◌&&◌, Option, none, some,
  if◌then◌else◌,
}
use traffik.Result.{Result, ok, err, value_error, ◌>>=◌, ◌>>◌, raise_if}

-- The arguments that size the memory.
pub record Config : Type 0 where
  pub max_keys : ℕ
  pub number_of_shards : ℕ
  pub max_value_size : ℕ
  pub max_aba_retries : ℕ
  pub executor_max_workers : Option ℕ
  pub threshold_numerator : ℕ
  pub threshold_denominator : ℕ
  pub lock_pool_size : ℕ
  pub lock_pool_headroom : ℕ

-- `_HASH_TABLE_ENTRY_SIZE`: the state, the length of the key, the key, the slot's index.
abbrev pub entry_size : ℕ
entry_size = 1 + 1 + 200 + 4

-- `_HEADER_FREE_COUNT_SIZE + _HEADER_TOMBSTONE_COUNT_SIZE`
abbrev pub header_words : ℕ
header_words = 4 + 4

-- `math.ceil(max_keys / number_of_shards)`
abbrev pub max_keys_per_shard : Config → ℕ
max_keys_per_shard c = (c.max_keys + (c.number_of_shards - 1)) / c.number_of_shards

-- `int(max_keys_per_shard / _HASH_TABLE_LOAD_FACTOR) + 1`
abbrev pub min_buckets : ℕ → ℕ
min_buckets m = m * 20 / 13 + 1

-- `while capacity < min_buckets: capacity <<= 1`
unfoldable pub doubled : ℕ → ℕ → ℕ → ℕ
doubled zero least capacity = capacity
doubled (suc n) least capacity =
    let rest = doubled n least (capacity * 2) in if ltb capacity least then rest else capacity

unfoldable pub capacity_for : ℕ → ℕ
unfolding doubled
capacity_for m = doubled (min_buckets m) (min_buckets m) 1

-- `max(1, int(capacity * tombstone_rebuild_threshold))`
abbrev pub threshold_count : Config → ℕ → ℕ
threshold_count c capacity = max 1 (capacity * c.threshold_numerator / c.threshold_denominator)

-- `(raw_slot_size + 7) & ~7`: the generation, the kind, a byte of padding, the length of the value,
-- the value, the number, the expiry and the flag, up to a multiple of eight.
abbrev pub slot_size_for : ℕ → ℕ
slot_size_for max_value_size = (4 + 1 + 1 + 2 + max_value_size + 8 + 8 + 1 + 7) / 8 * 8

-- `executor_max_workers is not None and executor_max_workers < 1`
abbrev pub no_workers : Option ℕ → Bool
no_workers none = false
no_workers (some n) = ltb n 1

-- The checks of the constructor.
unfoldable pub check_config : Config → Result (Unit {0})
check_config c = do
  raise_if (ltb c.max_keys 1) value_error
  raise_if (ltb c.number_of_shards 1) value_error
  raise_if (ltb c.max_value_size 8) value_error
  raise_if (ltb c.max_aba_retries 1) value_error
  raise_if (no_workers c.executor_max_workers) value_error
  raise_if
      (not (
        ltb 0 c.threshold_numerator
        && ltb (c.threshold_numerator * 20) (c.threshold_denominator * 7)))
      value_error

-- What the constructor computes.
pub record Layout : Type 0 where
  pub keys_per_shard : ℕ
  pub hash_table_capacity : ℕ
  pub rebuild_threshold : ℕ
  pub slot_size : ℕ
  pub shard_header_size : ℕ
  pub shard_hash_table_size : ℕ
  pub shard_slot_data_size : ℕ
  pub shard_size : ℕ
  pub free_stack_offset : ℕ
  pub hash_table_base_offset : ℕ
  pub slot_data_base_offset : ℕ
  pub lock_bytes_offset : ℕ
  pub lock_byte_pool_size : ℕ
  pub shared_memory_size : ℕ

-- The sizes and offsets that `__init__` computes.
unfoldable pub lay_out : Config → Layout
lay_out c =
    let m = max_keys_per_shard c in
    let capacity = capacity_for m in
    let slot_size = slot_size_for c.max_value_size in
    let header_size = header_words + 4 * m in
    let table_size = capacity * entry_size in
    let shard_size = header_size + table_size + m * slot_size in
    record {
      keys_per_shard = m;
      hash_table_capacity = capacity;
      rebuild_threshold = threshold_count c capacity;
      slot_size = slot_size;
      shard_header_size = header_size;
      shard_hash_table_size = table_size;
      shard_slot_data_size = m * slot_size;
      shard_size = shard_size;
      free_stack_offset = header_words;
      hash_table_base_offset = header_size;
      slot_data_base_offset = header_size + table_size;
      lock_bytes_offset = shard_size * c.number_of_shards;
      lock_byte_pool_size = c.lock_pool_size * c.lock_pool_headroom;
      shared_memory_size =
          shard_size * c.number_of_shards + c.lock_pool_size * c.lock_pool_headroom;
    }

-- `__init__`
unfoldable pub new : Config → Result Layout
new c = do check_config c; ok (lay_out c)

-- `estimate_shared_memory_size`
unfoldable pub estimate_shared_memory_size : ℕ → ℕ → ℕ → ℕ → ℕ → ℕ
estimate_shared_memory_size max_keys number_of_shards max_value_size lock_pool_size
      lock_pool_headroom =
    let m = (max_keys + (number_of_shards - 1)) / number_of_shards in
    let shard_size =
      header_words + 4 * m + capacity_for m * entry_size + m * slot_size_for max_value_size in
    shard_size * number_of_shards + lock_pool_size * lock_pool_headroom

-- The pieces of a shard's memory: the two counts of its header, the entries of the free stack, the
-- buckets of the hash table and the slots.
pub data Piece : Type 0 where
  free_count tombstone_count : Piece
  free_entry bucket slot : ℕ → Piece

-- The first byte of a piece, and how many it has. `_get_shard_base` and `_get_slot_offset`
abbrev pub shard_base : Layout → ℕ → ℕ
shard_base l shard_idx = shard_idx * l.shard_size

unfoldable pub offset_in : Layout → Piece → ℕ
offset_in l free_count = 0
offset_in l tombstone_count = 4
offset_in l (free_entry i) = l.free_stack_offset + i * 4
offset_in l (bucket i) = l.hash_table_base_offset + i * entry_size
offset_in l (slot i) = l.slot_data_base_offset + i * l.slot_size

unfoldable pub size_of : Layout → Piece → ℕ
size_of l free_count = 4
size_of l tombstone_count = 4
size_of l (free_entry i) = 4
size_of l (bucket i) = entry_size
size_of l (slot i) = l.slot_size

abbrev pub address : Layout → ℕ → Piece → ℕ
address l shard_idx p = shard_base l shard_idx + offset_in l p
