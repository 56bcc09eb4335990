-- ===== src/SharedLayout/Covering.antt =====
-- The pieces of the shards fill the shared memory up to the locks (src/traffik/backends/multiprocess.py).
use native.Mathlib.Nat.{mul-le-mul_right, mod-add-div', mod-lt}
use traffik.Base.{ℕ, ◌+◌, ◌-◌, ◌*◌, ◌/◌, ◌≤◌, ◌<◌, ◌≡◌, ltb, false, Bool-cases, inl, inr, arith}
use traffik.SharedLayout.{
  Layout, header_words, entry_size, Piece, free_count, tombstone_count, free_entry, bucket, slot,
  offset_in, size_of, address,
}

-- The piece is one that the shard has.
unfoldable pub IsPiece : Layout → Piece → Type 0
IsPiece l free_count = Unit {0}
IsPiece l tombstone_count = Unit {0}
IsPiece l (free_entry i) = i < l.keys_per_shard
IsPiece l (bucket i) = i < l.hash_table_capacity
IsPiece l (slot i) = i < l.keys_per_shard

-- How the pieces of a shard follow each other.
pub record IsLaid (l : Layout) : Type 0 where
  pub stack : l.free_stack_offset ≡ header_words
  pub table : l.hash_table_base_offset ≡ header_words + 4 * l.keys_per_shard
  pub slots :
      l.slot_data_base_offset ≡ l.hash_table_base_offset + l.hash_table_capacity * entry_size
  pub all : l.shard_size ≡ l.slot_data_base_offset + l.keys_per_shard * l.slot_size

-- Tiles of one width fill a stretch.
tile-at : (w n z : ℕ) → 0 < w → z < n * w → (i : ℕ) × (i < n) × (i * w ≤ z) × (z < i * w + w)
tile-at w n z pos lt =
    let whole = mod-add-div' z w in
    let rest = mod-lt z pos in (z / w, below, omega (arith, whole), omega (arith, whole, rest))
  where
    above : ltb (z / w) n ≡ false → n ≤ z / w
    above e = ground (arith, e)

    below : z / w < n
    below = elim (Bool-cases (ltb (z / w) n)) [
      | inl e ↦ ground (arith, e)
      | inr e ↦ absurd (omega (arith, lt, mod-add-div' z w, mul-le-mul_right w (above e)))
    ]

module _ (l : Layout) (laid : IsLaid l) (wide : 0 < l.slot_size) where
  -- Every byte of a shard lies in a piece.
  piece-at :
      (y : ℕ)
      → y < l.shard_size
      → (p : Piece) × IsPiece l p × (offset_in l p ≤ y) × (y < offset_in l p + size_of l p)
  unfolding IsPiece offset_in size_of
  piece-at y lt = elim (Bool-cases (ltb y 4)) [
    | inl e ↦ (free_count, tt, omega arith, ground (arith, e))
    | inr e₀ ↦ elim (Bool-cases (ltb y 8)) [
      | inl e ↦ (tombstone_count, tt, ground (arith, e₀), ground (arith, e))
      | inr e₁ ↦ elim (Bool-cases (ltb y l.hash_table_base_offset)) [
        | inl e ↦
            let (i, less, lo, hi) =
              tile-at 4 l.keys_per_shard (y - 8) (omega arith)
                (ground (arith, e, e₁, laid.table)) in
            (
              free_entry i,
              less,
              ground (arith, lo, e₁, laid.stack),
              ground (arith, hi, e₁, laid.stack),
            )
        | inr e₂ ↦ elim (Bool-cases (ltb y l.slot_data_base_offset)) [
          | inl e ↦
              let (i, less, lo, hi) =
                tile-at entry_size l.hash_table_capacity (y - l.hash_table_base_offset)
                  (omega arith) (ground (arith, e, e₂, laid.slots)) in
              (bucket i, less, ground (arith, lo, e₂), ground (arith, hi, e₂))
          | inr e₃ ↦
              let (i, less, lo, hi) =
                tile-at l.slot_size l.keys_per_shard (y - l.slot_data_base_offset) wide
                  (ground (arith, lt, e₃, laid.all)) in
              (slot i, less, ground (arith, lo, e₃), ground (arith, hi, e₃))
        ]
      ]
    ]
  ]

  -- Every byte before the locks lies in a piece of a shard.
  pub byte-at :
      (n x : ℕ)
      → x < l.shard_size * n
      → (s : ℕ) × (p : Piece) × (s < n)
        × IsPiece l p
        × (address l s p ≤ x)
        × (x < address l s p + size_of l p)
  byte-at n x lt =
      let (s, less, lo, hi) =
        tile-at l.shard_size n x (omega (arith, laid.all, laid.slots, laid.table))
          (grind (arith, lt)) in
      let (p, is, from, to) = piece-at (x - s * l.shard_size) (omega (arith, lo, hi)) in
      (s, p, less, is, omega (arith, lo, from), omega (arith, lo, to))
