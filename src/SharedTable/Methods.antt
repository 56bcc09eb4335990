-- ===== src/SharedTable/Methods.antt =====
-- The methods of the hash table (src/traffik/backends/multiprocess.py) against the slots that its keys
-- map to.
use traffik.Base.{
  ℕ, ◌+◌, ◌≤◌, ◌<◌, ◌≡◌, ◌≢◌, refl, sym, ap, ◌∙◌, false, none, some, length, ltb, inl, inr, ◌⊎◌,
  arith,
}
use traffik.Base.Text.{Str}
use traffik.Result.{ok, Returns}
use traffik.SharedTable.{occupied, Table, update, lookup, get_slot, upsert, key_max_bytes}
use traffik.SharedTable.Probe.{Maps, IsProbed, Found, lookup-Found}
use traffik.SharedTable.Counts.{count, is_occupied, is_tombstone, count-update, some_empty}
use traffik.SharedTable.Update.{
  Maps-update, Maps-update_inv, occupied-IsProbed, Maps-key, found_other, Maps-unique,
}

module _ (hash : Str → ℕ) (capacity : ℕ) where
  -- The number of occupied buckets, and of tombstones.
  abbrev pub live : Table → ℕ
  live t = count is_occupied capacity t.buckets

  abbrev pub graves : Table → ℕ
  graves t = count is_tombstone capacity t.buckets

  -- The table is probed, and has an empty bucket.
  pub record IsTable (t : Table) : Type 0 where
    pub probed : IsProbed hash capacity t.buckets
    pub room : live t + graves t < capacity

  pub lookup-IsFound :
      (k : Str) (t : Table)
      → IsTable t
      → Returns
          (lookup hash capacity k t)
          (λ idx. (idx < capacity) × Found hash capacity t.buckets k idx)
  lookup-IsFound k t v =
      let (j, lt, gap) = some_empty capacity t.buckets v.room in
      lookup-Found hash capacity k t (omega (arith, v.room)) v.probed j lt gap

  -- A key is in the table with a slot, or nowhere; `get_slot` tells.
  pub get_slot-cases :
      (k : Str) (t : Table)
      → IsTable t
      → ((s : ℕ) × (get_slot hash capacity k t ≡ ok (some s)) × Maps hash capacity t.buckets k s)
        ⊎ ((get_slot hash capacity k t ≡ ok none)
            × ((s : ℕ) → Maps hash capacity t.buckets k s → ⊥))
  unfolding get_slot
  get_slot-cases k t v =
      let (idx, r, (lt, f)) = lookup-IsFound k t v in
      elim f [
        | inl (s, o) ↦ inl (s, rw (r, o) refl, (idx, lt, o))
        | inr w ↦ elim w.free [
          | inl e ↦ inr (rw (r, e) refl, w.absent)
          | inr e ↦ inr (rw (r, e) refl, w.absent)
        ]
      ]

  pub get_slot-Maps :
      (k : Str) (s : ℕ) (t : Table)
      → IsTable t
      → Maps hash capacity t.buckets k s
      → get_slot hash capacity k t ≡ ok (some s)
  get_slot-Maps k s t v m = elim (get_slot-cases k t v) [
    | inl (s', e, m') ↦
        e ∙ ap (λ x. ok (some x)) (Maps-unique hash capacity t.buckets k s' s v.probed m' m)
    | inr (_, n) ↦ elim (n s m) [ ]
  ]

  pub get_slot-none :
      (k : Str) (t : Table)
      → IsTable t
      → ((s : ℕ) → Maps hash capacity t.buckets k s → ⊥)
      → get_slot hash capacity k t ≡ ok none
  get_slot-none k t v n = elim (get_slot-cases k t v) [
    | inl (s, _, m) ↦ elim (n s m) [ ]
    | inr (e, _) ↦ e
  ]

  -- Two tables in which a key maps to the same slots answer the same.
  pub get_slot-agree :
      (k : Str) (t t' : Table)
      → IsTable t
      → IsTable t'
      → ((s : ℕ) → Maps hash capacity t.buckets k s → Maps hash capacity t'.buckets k s)
      → ((s : ℕ) → Maps hash capacity t'.buckets k s → Maps hash capacity t.buckets k s)
      → get_slot hash capacity k t' ≡ get_slot hash capacity k t
  get_slot-agree k t t' v v' to from = elim (get_slot-cases k t v) [
    | inl (s, e, m) ↦ get_slot-Maps k s t' v' (to s m) ∙ sym e
    | inr (e, n) ↦ get_slot-none k t' v' (λ s m. n s (from s m)) ∙ sym e
  ]

  -- What an upsert of a key leaves.
  pub record Upserted (key : Str) (slot : ℕ) (t t' : Table) : Type 0 where
    pub probed : IsProbed hash capacity t'.buckets
    pub live_le : live t' ≤ live t + 1
    pub graves_le : graves t' ≤ graves t
    pub all_le : live t' + graves t' ≤ live t + graves t + 1
    pub same_count : t'.tombstone_count ≡ t.tombstone_count
    pub here : Maps hash capacity t'.buckets key slot
    pub others :
        (k : Str) (s : ℕ)
        → key ≢ k
        → Maps hash capacity t.buckets k s
        → Maps hash capacity t'.buckets k s
    pub others_inv :
        (k : Str) (s : ℕ)
        → key ≢ k
        → Maps hash capacity t'.buckets k s
        → Maps hash capacity t.buckets k s

  pub upsert-Upserted :
      (key : Str) (slot : ℕ) (t : Table)
      → IsTable t
      → length key ≤ key_max_bytes
      → Returns (upsert hash capacity key slot t) (Upserted key slot t)
  unfolding upsert
  upsert-Upserted key slot t v short =
      let (idx, r, (lt, f)) = lookup-IsFound key t v in
      let fits : ltb key_max_bytes (length key) ≡ false = ground (arith, short) in
      let occ = count-update is_occupied capacity idx (occupied key slot) t.buckets lt in
      let tomb = count-update is_tombstone capacity idx (occupied key slot) t.buckets lt in
      (
        record t { buckets = update idx (occupied key slot) t.buckets },
        rw (fits, r) refl,
        record {
          probed = occupied-IsProbed hash capacity t.buckets idx v.probed key slot lt f short;
          live_le = omega (arith, occ);
          graves_le = omega (arith, tomb);
          all_le = omega (arith, occ, tomb);
          same_count = refl;
          here = Maps-key hash capacity t.buckets idx v.probed key slot lt f;
          others = λ k s n.
              Maps-update hash capacity t.buckets idx (occupied key slot) k s
                (λ s'. found_other hash capacity t.buckets idx v.probed key slot lt f k s' n);
          others_inv = λ k s n.
              Maps-update_inv hash capacity t.buckets idx (occupied key slot) k s
                (λ s' e. n (key_eq key k slot s' e));
        },
      )
    where
      key_eq : (k k' : Str) (s s' : ℕ) → occupied k s ≡ occupied k' s' → k ≡ k'
      key_eq k k' s s' e = cc e
