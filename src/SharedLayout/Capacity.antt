-- ===== src/SharedLayout/Capacity.antt =====
-- The sizes of a shard (src/traffik/backends/multiprocess.py): the capacity of its hash table against its
-- keys and the tombstones that it allows.
use native.Mathlib.Nat.{
  mul-le-mul_right, mul-le-mul_left, div-mul-le_self, le_of_mul-le-mul_right, pow-suc,
}
use traffik.Base.{
  ℕ, zero, suc, ◌+◌, ◌*◌, ◌/◌, ◌^◌, ◌≤◌, ◌<◌, max, ◌≡◌, refl, ltb, Bool-cases, inl, inr, arith,
}
use traffik.Result.{ok, Returns}
use traffik.SharedLayout.{
  Config, check_config, lay_out, new, max_keys_per_shard, min_buckets, doubled, capacity_for,
  estimate_shared_memory_size,
}

-- With as much fuel as the number that is still missing, the loop ends at a power of two that is large
-- enough, and less than twice as large.
doubled-Power :
    (n least capacity k : ℕ)
    → capacity ≡ 2 ^ k
    → 0 < capacity
    → least ≤ capacity + n
    → capacity < 2 * least
    → ((j : ℕ) × (doubled n least capacity ≡ 2 ^ j))
      × (least ≤ doubled n least capacity)
      × (doubled n least capacity < 2 * least)
unfolding doubled
doubled-Power zero least capacity k e p h lt = ((k, e), omega (arith, h), lt)
doubled-Power (suc n) least capacity k e p h lt = elim (Bool-cases (ltb capacity least)) [
  | inl more ↦ rw (more) (
      doubled-Power n least (capacity * 2) (suc k) (omega (arith, e, pow-suc 2 k))
        (omega (arith, p)) (omega (arith, h, p)) (ground (arith, more)))
  | inr done ↦ rw (done) ((k, e), ground (arith, done), lt)
]

-- The capacity of a shard's hash table is the least power of two that has the buckets asked for: the
-- loop that doubles it ends.
pub capacity_for-Power :
    (m : ℕ)
    → ((k : ℕ) × (capacity_for m ≡ 2 ^ k))
      × (min_buckets m ≤ capacity_for m)
      × (capacity_for m < 2 * min_buckets m)
unfolding capacity_for
capacity_for-Power m =
    doubled-Power (min_buckets m) (min_buckets m) 1 0 refl (omega arith) (omega arith) (omega arith)

-- The checks that a configuration has passed.
pub record IsChecked (c : Config) : Type 0 where
  pub some_keys : 0 < c.max_keys
  pub some_shards : 0 < c.number_of_shards
  pub some_value : 8 ≤ c.max_value_size
  pub some_retries : 0 < c.max_aba_retries
  pub some_threshold : 0 < c.threshold_numerator
  pub below : c.threshold_numerator * 20 < c.threshold_denominator * 7

checked : (c : Config) → check_config c ≡ ok tt → IsChecked c
unfolding check_config
checked c e = record {
  some_keys = ground (arith, e);
  some_shards = ground (arith, e);
  some_value = ground (arith, e);
  some_retries = ground (arith, e);
  some_threshold = ground (arith, e);
  below = ground (arith, e);
}

threshold-le : (capacity n d : ℕ) → n * 20 < d * 7 → capacity * n / d * 20 ≤ capacity * 7
threshold-le capacity n zero h = absurd (omega (arith, h))
threshold-le capacity n (suc d) h =
    le_of_mul-le-mul_right {k = suc d}
      (grind (
        arith,
        mul-le-mul_right 20 (div-mul-le_self (capacity * n) (suc d)),
        mul-le-mul_left capacity (le h),
      ))
      (omega arith)
  where
    le : {a b : ℕ} → a < b → a ≤ b
    le h = omega (arith, h)

abbrev Bounded : Config → ℕ → Type 0
Bounded c capacity = capacity * c.threshold_numerator / c.threshold_denominator * 20 ≤ capacity * 7

-- The configuration passes the checks, so the constructor returns, and the table of a shard has
-- room: the keys of a shard and the tombstones that may stand before a rebuild do not fill it. The
-- rebuild is due at some number of tombstones.
pub new-fits :
    (c : Config)
    → check_config c ≡ ok tt
    → Returns (new c) (λ l.
      (l.keys_per_shard + l.rebuild_threshold ≤ l.hash_table_capacity)
      × (0 < l.rebuild_threshold)
      × ((k : ℕ) × (l.hash_table_capacity ≡ 2 ^ k)))
unfolding new lay_out
new-fits c e =
    let m = max_keys_per_shard c in
    let (power, least, _) = capacity_for-Power m in
    let few : Bounded c (capacity_for m) =
      threshold-le (capacity_for m) c.threshold_numerator c.threshold_denominator
        (checked c e).below in
    (lay_out c, rw (e) refl, (room m (capacity_for m) _ least few, ground arith, power))
  where
    room :
        (m capacity q : ℕ)
        → min_buckets m ≤ capacity
        → q * 20 ≤ capacity * 7
        → m + max 1 q ≤ capacity
    room m capacity q least few = ground (arith, least, few)

-- What `estimate_shared_memory_size` computes is what the constructor allocates, for every
-- configuration that it accepts.
pub new-estimate :
    (c : Config)
    → check_config c ≡ ok tt
    → Returns (new c) (λ l.
      l.shared_memory_size
      ≡ estimate_shared_memory_size c.max_keys c.number_of_shards c.max_value_size c.lock_pool_size
          c.lock_pool_headroom)
unfolding new lay_out estimate_shared_memory_size
new-estimate c e = (lay_out c, rw (e) refl, refl)
