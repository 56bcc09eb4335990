-- ===== src/SharedTable/Delete.antt =====
-- `_hash_table_delete` (src/traffik/backends/multiprocess.py), with the rebuild that it may end in.
use traffik.Base.{
  ℕ, ◌+◌, ◌≤◌, ◌<◌, ◌≡◌, ◌≢◌, refl, sym, ap, none, some, leb, Bool-cases, inl, inr, ◌⊎◌, arith,
}
use traffik.Base.Text.{Str}
use traffik.Result.{Returns}
use traffik.SharedTable.{tombstone, occupied, Table, update, delete_at, delete}
use traffik.SharedTable.Probe.{Maps, IsProbed, Found}
use traffik.SharedTable.Counts.{is_occupied, is_tombstone, count-update}
use traffik.SharedTable.Update.{
  Maps-update, Maps-update_inv, tombstone-IsProbed, found_other, gone, occupied-tombstone,
}
use traffik.SharedTable.Methods.{live, graves, IsTable, lookup-IsFound}
use traffik.SharedTable.Rebuild.{rebuild-Rebuilt}

module _ (hash : Str → ℕ) (capacity rebuild_threshold : ℕ) where
  -- The tombstones are counted, and a rebuild is not due.
  pub record IsTidy (t : Table) : Type 0 where
    pub counted : graves hash capacity t ≤ t.tombstone_count
    pub not_due : t.tombstone_count < rebuild_threshold

  -- What the removal of a key that has a slot leaves.
  pub record Removed (key : Str) (t t' : Table) : Type 0 where
    pub probed : IsProbed hash capacity t'.buckets
    pub live_lt : live hash capacity t' < live hash capacity t
    pub tidy : IsTidy t'
    pub absent : (s : ℕ) → Maps hash capacity t'.buckets key s → ⊥
    pub others :
        (k : Str) (s : ℕ)
        → key ≢ k
        → Maps hash capacity t.buckets k s
        → Maps hash capacity t'.buckets k s
    pub others_inv :
        (k : Str) (s : ℕ) → Maps hash capacity t'.buckets k s → Maps hash capacity t.buckets k s

  delete_at-Removed :
      (key : Str) (s idx : ℕ) (t : Table)
      → IsTable hash capacity t
      → IsTidy t
      → idx < capacity
      → t.buckets idx ≡ occupied key s
      → Found hash capacity t.buckets key idx
      → Returns
          (delete_at hash capacity rebuild_threshold idx (occupied key s) t)
          (λ r. (r.0 ≡ some s) × Removed key t r.1)
  unfolding delete_at
  delete_at-Removed key s idx t v d lt o f =
      let b = t.buckets in
      let t₁ : Table = record t {
        buckets = update idx tombstone b;
        tombstone_count = t.tombstone_count + 1;
      } in
      let occ = count-update is_occupied capacity idx tombstone b lt in
      let tomb = count-update is_tombstone capacity idx tombstone b lt in
      let was = ap is_occupied o in
      let probed = tombstone-IsProbed hash capacity b idx v.probed in
      let absent = gone hash capacity b idx v.probed key s lt f in
      let others = λ (k : Str) (s' : ℕ) (n : key ≢ k).
        Maps-update hash capacity b idx tombstone k s'
          (λ s''. found_other hash capacity b idx v.probed key s lt f k s'' n) in
      let others_inv = λ (k : Str) (s' : ℕ).
        Maps-update_inv hash capacity b idx tombstone k s' (λ s'' e. occupied-tombstone (sym e)) in
      elim (Bool-cases (leb rebuild_threshold (t.tombstone_count + 1))) [
        | inl due ↦
            let (t', r, u) =
              rebuild-Rebuilt hash capacity t₁ probed (omega (arith, v.room, occ, was)) in
            (
              (some s, t'),
              rw (due, r) refl,
              (
                refl,
                record {
                  probed = u.probed;
                  live_lt = omega (arith, u.live_le, occ, was);
                  tidy = record {
                    counted = omega (arith, u.no_graves);
                    not_due = omega (arith, u.no_count, d.not_due);
                  };
                  absent = λ s' m. absent s' (u.from key s' m);
                  others = λ k s' n m. u.to k s' (others k s' n m);
                  others_inv = λ k s' m. others_inv k s' (u.from k s' m);
                },
              ),
            )
        | inr later ↦ (
          (some s, t₁),
          rw (later) refl,
          (
            refl,
            record {
              probed = probed;
              live_lt = omega (arith, occ, was);
              tidy = record {
                counted = omega (arith, d.counted, tomb);
                not_due = ground (arith, later);
              };
              absent = absent;
              others = others;
              others_inv = others_inv;
            },
          ),
        )
      ]

  -- `_hash_table_delete` returns the key's slot and removes the key, or finds it nowhere and changes
  -- nothing.
  pub delete-cases :
      (key : Str) (t : Table)
      → IsTable hash capacity t
      → IsTidy t
      → Returns (delete hash capacity rebuild_threshold key t) (λ r.
        ((s : ℕ) × (r.0 ≡ some s) × Maps hash capacity t.buckets key s × Removed key t r.1)
        ⊎ ((r.0 ≡ none) × (r.1 ≡ t) × ((s : ℕ) → Maps hash capacity t.buckets key s → ⊥)))
  unfolding delete
  delete-cases key t v d =
      let (idx, r, (lt, f)) = lookup-IsFound hash capacity key t v in
      elim f [
        | inl (s, o) ↦
            let (r', e, (same, u)) = delete_at-Removed key s idx t v d lt o (inl (s, o)) in
            (r', rw (r, o) e, inl (s, same, (idx, lt, o), u))
        | inr w ↦ elim w.free [
          | inl e ↦ ((none, t), rw (r, e, delete_at) refl, inr (refl, refl, w.absent))
          | inr e ↦ ((none, t), rw (r, e, delete_at) refl, inr (refl, refl, w.absent))
        ]
      ]
