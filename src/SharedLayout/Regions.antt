-- ===== src/SharedLayout/Regions.antt =====
-- The pieces of the shared memory (src/traffik/backends/multiprocess.py): the header, the free stack, the
-- buckets and the slots of every shard, and the bytes of the locks behind them.
use native.Mathlib.Nat.{mul-le-mul_right}
use traffik.Base.{
  ℕ, suc, ◌+◌, ◌-◌, ◌*◌, ◌/◌, ◌≤◌, ◌<◌, ◌≡◌, refl, ap, subst, ltb, true, Bool-cases, inl, inr,
  arith,
}
use traffik.Result.{ok, Returns}
use traffik.SharedLayout.Covering.{IsPiece, IsLaid, byte-at}
use traffik.SharedLayout.{
  Config, Layout, check_config, new, lay_out, Piece, free_count, tombstone_count, free_entry,
  bucket, slot, offset_in, size_of, address,
}

-- Tiles of one width do not overlap.
tile : (w a b x : ℕ) → a * w ≤ x → x < a * w + w → b * w ≤ x → x < b * w + w → a ≡ b
tile w a b x lo hi lo' hi' = elim (Bool-cases (ltb a b)) [
  | inl less ↦ absurd (omega (arith, hi, lo', mul-le-mul_right w (next a b less), times_suc w a))
  | inr not_less ↦ elim (Bool-cases (ltb b a)) [
    | inl less ↦ absurd (omega (arith, hi', lo, mul-le-mul_right w (next b a less), times_suc w b))
    | inr not_more ↦ ground (arith, not_less, not_more)
  ]
]
  where
    next : (a b : ℕ) → ltb a b ≡ true → suc a ≤ b
    next a b e = ground (arith, e)

    times_suc : (w a : ℕ) → suc a * w ≡ a * w + w
    times_suc w a = grind arith

module _ (l : Layout) (laid : IsLaid l) where
  slot-le :
      (i : ℕ)
      → i < l.keys_per_shard
      → i * l.slot_size + l.slot_size ≤ l.keys_per_shard * l.slot_size
  slot-le i lt =
      subst (λ x. x ≤ l.keys_per_shard * l.slot_size) (times_suc i l.slot_size)
        (mul-le-mul_right l.slot_size lt)
    where
      times_suc : (a w : ℕ) → suc a * w ≡ a * w + w
      times_suc a w = grind arith

  piece-inside : (p : Piece) → IsPiece l p → offset_in l p + size_of l p ≤ l.shard_size
  unfolding IsPiece offset_in size_of
  piece-inside free_count _ = omega (arith, laid.all, laid.slots, laid.table)
  piece-inside tombstone_count _ = omega (arith, laid.all, laid.slots, laid.table)
  piece-inside (free_entry i) lt = omega (arith, lt, laid.all, laid.slots, laid.table, laid.stack)
  piece-inside (bucket i) lt = omega (arith, lt, laid.all, laid.slots, laid.table)
  piece-inside (slot i) lt = omega (arith, laid.all, slot-le i lt)

  -- A byte of a shard belongs to one piece.
  pieces-apart :
      (y : ℕ) (p q : Piece)
      → IsPiece l p
      → IsPiece l q
      → offset_in l p ≤ y
      → y < offset_in l p + size_of l p
      → offset_in l q ≤ y
      → y < offset_in l q + size_of l q
      → p ≡ q
  unfolding IsPiece offset_in size_of
  pieces-apart y free_count free_count in_p in_q lo hi lo' hi' = refl
  pieces-apart y free_count tombstone_count in_p in_q lo hi lo' hi' =
      absurd (omega (arith, lo, hi, lo', hi', laid.stack, laid.table, laid.slots))
  pieces-apart y free_count (free_entry j) in_p in_q lo hi lo' hi' =
      absurd (omega (arith, lo, hi, lo', hi', in_q, laid.stack, laid.table, laid.slots))
  pieces-apart y free_count (bucket j) in_p in_q lo hi lo' hi' =
      absurd (omega (arith, lo, hi, lo', hi', in_q, laid.stack, laid.table, laid.slots))
  pieces-apart y free_count (slot j) in_p in_q lo hi lo' hi' =
      absurd (omega (arith, lo, hi, lo', hi', in_q, laid.stack, laid.table, laid.slots))
  pieces-apart y tombstone_count free_count in_p in_q lo hi lo' hi' =
      absurd (omega (arith, lo, hi, lo', hi', laid.stack, laid.table, laid.slots))
  pieces-apart y tombstone_count tombstone_count in_p in_q lo hi lo' hi' = refl
  pieces-apart y tombstone_count (free_entry j) in_p in_q lo hi lo' hi' =
      absurd (omega (arith, lo, hi, lo', hi', in_q, laid.stack, laid.table, laid.slots))
  pieces-apart y tombstone_count (bucket j) in_p in_q lo hi lo' hi' =
      absurd (omega (arith, lo, hi, lo', hi', in_q, laid.stack, laid.table, laid.slots))
  pieces-apart y tombstone_count (slot j) in_p in_q lo hi lo' hi' =
      absurd (omega (arith, lo, hi, lo', hi', in_q, laid.stack, laid.table, laid.slots))
  pieces-apart y (free_entry i) free_count in_p in_q lo hi lo' hi' =
      absurd (omega (arith, lo, hi, lo', hi', in_p, laid.stack, laid.table, laid.slots))
  pieces-apart y (free_entry i) tombstone_count in_p in_q lo hi lo' hi' =
      absurd (omega (arith, lo, hi, lo', hi', in_p, laid.stack, laid.table, laid.slots))
  pieces-apart y (free_entry i) (free_entry j) in_p in_q lo hi lo' hi' =
      ap free_entry (omega (arith, laid, lo, hi, lo', hi'))
  pieces-apart y (free_entry i) (bucket j) in_p in_q lo hi lo' hi' =
      absurd (omega (arith, lo, hi, lo', hi', in_p, in_q, laid.stack, laid.table, laid.slots))
  pieces-apart y (free_entry i) (slot j) in_p in_q lo hi lo' hi' =
      absurd (omega (arith, lo, hi, lo', hi', in_p, in_q, laid.stack, laid.table, laid.slots))
  pieces-apart y (bucket i) free_count in_p in_q lo hi lo' hi' =
      absurd (omega (arith, lo, hi, lo', hi', in_p, laid.stack, laid.table, laid.slots))
  pieces-apart y (bucket i) tombstone_count in_p in_q lo hi lo' hi' =
      absurd (omega (arith, lo, hi, lo', hi', in_p, laid.stack, laid.table, laid.slots))
  pieces-apart y (bucket i) (free_entry j) in_p in_q lo hi lo' hi' =
      absurd (omega (arith, lo, hi, lo', hi', in_p, in_q, laid.stack, laid.table, laid.slots))
  pieces-apart y (bucket i) (bucket j) in_p in_q lo hi lo' hi' =
      ap bucket (omega (arith, laid, lo, hi, lo', hi'))
  pieces-apart y (bucket i) (slot j) in_p in_q lo hi lo' hi' =
      absurd (omega (arith, lo, hi, lo', hi', in_p, in_q, laid.stack, laid.table, laid.slots))
  pieces-apart y (slot i) free_count in_p in_q lo hi lo' hi' =
      absurd (omega (arith, lo, hi, lo', hi', in_p, laid.stack, laid.table, laid.slots))
  pieces-apart y (slot i) tombstone_count in_p in_q lo hi lo' hi' =
      absurd (omega (arith, lo, hi, lo', hi', in_p, laid.stack, laid.table, laid.slots))
  pieces-apart y (slot i) (free_entry j) in_p in_q lo hi lo' hi' =
      absurd (omega (arith, lo, hi, lo', hi', in_p, in_q, laid.stack, laid.table, laid.slots))
  pieces-apart y (slot i) (bucket j) in_p in_q lo hi lo' hi' =
      absurd (omega (arith, lo, hi, lo', hi', in_p, in_q, laid.stack, laid.table, laid.slots))
  pieces-apart y (slot i) (slot j) in_p in_q lo hi lo' hi' = ap slot (
      tile l.slot_size i j (y - l.slot_data_base_offset) (omega (arith, lo)) (omega (arith, lo, hi))
        (omega (arith, lo')) (omega (arith, lo', hi')))

  pieces-disjoint :
      (x s s' : ℕ) (p q : Piece)
      → IsPiece l p
      → IsPiece l q
      → address l s p ≤ x
      → x < address l s p + size_of l p
      → address l s' q ≤ x
      → x < address l s' q + size_of l q
      → (s ≡ s') × (p ≡ q)
  pieces-disjoint x s s' p q in_p in_q lo hi lo' hi' =
      let same : s ≡ s' =
        tile l.shard_size s s' x (omega (arith, lo)) (omega (arith, hi, piece-inside p in_p))
          (omega (arith, lo')) (omega (arith, hi', piece-inside q in_q)) in
      let base = ap (λ i. i * l.shard_size) same in
      (
        same,
        pieces-apart (x - s * l.shard_size) p q in_p in_q (omega (arith, lo))
            (omega (arith, lo, hi)) (omega (arith, lo', base)) (omega (arith, lo', hi', base)),
      )

-- The pieces of the shards and the bytes of the locks fill the memory that the constructor lays out:
-- every byte before those of the locks belongs to one piece of one shard and to no other, no piece
-- reaches into the bytes of the locks, and these end the memory.
pub new-Disjoint :
    (c : Config)
    → check_config c ≡ ok tt
    → Returns (new c) (λ l.
      ((x s s' : ℕ) (p q : Piece)
        → IsPiece l p
        → IsPiece l q
        → address l s p ≤ x
        → x < address l s p + size_of l p
        → address l s' q ≤ x
        → x < address l s' q + size_of l q
        → (s ≡ s') × (p ≡ q))
      × ((s : ℕ) (p : Piece)
          → IsPiece l p
          → s < c.number_of_shards
          → address l s p + size_of l p ≤ l.lock_bytes_offset)
      × ((x : ℕ)
          → x < l.lock_bytes_offset
          → (s : ℕ) × (p : Piece) × (s < c.number_of_shards)
            × IsPiece l p
            × (address l s p ≤ x)
            × (x < address l s p + size_of l p))
      × (l.lock_bytes_offset + l.lock_byte_pool_size ≡ l.shared_memory_size))
unfolding new lay_out
new-Disjoint c e =
    let laid : IsLaid (lay_out c) = record {
      stack = refl;
      table = refl;
      slots = refl;
      all = refl;
    } in
    (
      lay_out c,
      rw (e) refl,
      (
        pieces-disjoint (lay_out c) laid,
        (λ s p in_p lt.
            below s (lay_out c).shard_size c.number_of_shards (offset_in (lay_out c) p)
              (size_of (lay_out c) p) lt (piece-inside (lay_out c) laid p in_p)),
        byte-at (lay_out c) laid (wide c.max_value_size) c.number_of_shards,
        refl,
      ),
    )
  where
    wide : (m : ℕ) → 0 < (4 + 1 + 1 + 2 + m + 8 + 8 + 1 + 7) / 8 * 8
    wide m = omega arith

    below : (s size n o w : ℕ) → s < n → o + w ≤ size → s * size + o + w ≤ size * n
    below s size n o w lt h = grind (arith, mul-le-mul_right size lt, h)
