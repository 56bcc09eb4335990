-- ===== src/SharedLayout/Tests.antt =====
-- The memory of a backend with its default sizes (src/traffik/backends/multiprocess.py).
use traffik.Base.{ℕ, ◌+◌, ◌*◌, ◌≤◌, ◌<◌, ◌^◌, ◌≡◌, refl, some}
use traffik.Result.{ok, Returns}
use traffik.SharedLayout.{
  Config, check_config, new, Piece, address, size_of, capacity_for, doubled, min_buckets,
}
use traffik.SharedLayout.Capacity.{capacity_for-Power, new-fits}
use traffik.SharedLayout.Covering.{IsPiece}
use traffik.SharedLayout.Regions.{new-Disjoint}

abbrev defaults : Config
defaults = record {
  max_keys = 65536;
  number_of_shards = 64;
  max_value_size = 512;
  max_aba_retries = 3;
  executor_max_workers = some 8;
  threshold_numerator = 1;
  threshold_denominator = 5;
  lock_pool_size = 128;
  lock_pool_headroom = 4;
}

accepted : check_config defaults ≡ ok tt
unfolding check_config
accepted = refl

default_capacity : capacity_for 1024 ≡ 2048
unfolding capacity_for doubled
default_capacity = refl

capacity_for-Power_example :
    ((k : ℕ) × (capacity_for 1024 ≡ 2 ^ k))
    × (min_buckets 1024 ≤ capacity_for 1024)
    × (capacity_for 1024 < 2 * min_buckets 1024)
capacity_for-Power_example = capacity_for-Power 1024

new-fits_example : Returns (new defaults) (λ l.
    (l.keys_per_shard + l.rebuild_threshold ≤ l.hash_table_capacity)
    × (0 < l.rebuild_threshold)
    × ((k : ℕ) × (l.hash_table_capacity ≡ 2 ^ k)))
new-fits_example = new-fits defaults accepted

new-Disjoint_example : Returns (new defaults) (λ l.
    ((x s s' : ℕ) (p q : Piece)
      → IsPiece l p
      → IsPiece l q
      → address l s p ≤ x
      → x < address l s p + size_of l p
      → address l s' q ≤ x
      → x < address l s' q + size_of l q
      → (s ≡ s') × (p ≡ q))
    × ((s : ℕ) (p : Piece)
        → IsPiece l p
        → s < 64
        → address l s p + size_of l p ≤ l.lock_bytes_offset)
    × ((x : ℕ)
        → x < l.lock_bytes_offset
        → (s : ℕ) × (p : Piece) × (s < 64)
          × IsPiece l p
          × (address l s p ≤ x)
          × (x < address l s p + size_of l p))
    × (l.lock_bytes_offset + l.lock_byte_pool_size ≡ l.shared_memory_size))
new-Disjoint_example = new-Disjoint defaults accepted
