-- ===== src/SharedTable/Refine.antt =====
-- The hash table (src/traffik/backends/multiprocess.py) as a map from keys to slots: what
-- `_hash_table_get_slot` answers after each of the operations that change the table.
use traffik.Base.{
  ℕ, ◌+◌, ◌≤◌, ◌<◌, ◌≡◌, ◌≢◌, refl, sym, ap, ◌∙◌, subst, false, none, some, length, if◌then◌else◌,
  Bool-cases, inl, inr, arith,
}
use traffik.Base.Text.{Str, str_eq, str_eq_iff}
use traffik.Result.{ok, Returns}
use traffik.SharedTable.{Table, get_slot, upsert, delete, rebuild, key_max_bytes}
use traffik.SharedTable.Probe.{Maps}
use traffik.SharedTable.Methods.{
  live, graves, IsTable, get_slot-Maps, get_slot-none, get_slot-agree, upsert-Upserted,
}
use traffik.SharedTable.Rebuild.{rebuild-Rebuilt}
use traffik.SharedTable.Delete.{IsTidy, delete-cases}

pub differ : (key k : Str) → str_eq key k ≡ false → key ≢ k
differ key k d e = ground (arith, (str_eq_iff key k).1 e, d)

module _ (hash : Str → ℕ) (capacity : ℕ) where
  -- An upsert of a short key into a table with two free buckets succeeds; the key then has the new
  -- slot, and every other key the slot that it had, or none.
  pub get_slot-upsert :
      (key : Str) (slot : ℕ) (t : Table)
      → IsTable hash capacity t
      → live hash capacity t + graves hash capacity t + 1 < capacity
      → length key ≤ key_max_bytes
      → Returns (upsert hash capacity key slot t) (λ t'.
        IsTable hash capacity t'
        × ((k : Str)
            → get_slot hash capacity k t'
              ≡ (if str_eq key k then ok (some slot) else get_slot hash capacity k t)))
  get_slot-upsert key slot t v room short =
      let (t', e, u) = upsert-Upserted hash capacity key slot t v short in
      let v' : IsTable hash capacity t' = record {
        probed = u.probed;
        room = omega (arith, u.all_le, room);
      } in
      (
        t',
        e,
        (
          v',
          λ k. elim (Bool-cases (str_eq key k)) [
            | inl same ↦ rw (same) (
                get_slot-Maps hash capacity k slot t' v' (
                  subst (λ k. Maps hash capacity t'.buckets k slot) ((str_eq_iff key k).0 same)
                    u.here))
            | inr other ↦
                let n = differ key k other in
                rw (other) (
                  get_slot-agree hash capacity k t t' v v' (λ s. u.others k s n)
                    (λ s. u.others_inv k s n))
          ],
        ),
      )

  -- A rebuild of a table succeeds, leaves no tombstone, and every key has the slot that it had.
  pub get_slot-rebuild :
      (t : Table)
      → IsTable hash capacity t
      → Returns (rebuild hash capacity t) (λ t'.
        IsTable hash capacity t'
        × (graves hash capacity t' ≡ 0)
        × (t'.tombstone_count ≡ 0)
        × ((k : Str) → get_slot hash capacity k t' ≡ get_slot hash capacity k t))
  get_slot-rebuild t v =
      let (t', e, u) = rebuild-Rebuilt hash capacity t v.probed (omega (arith, v.room)) in
      let v' : IsTable hash capacity t' = record {
        probed = u.probed;
        room = omega (arith, u.live_le, u.no_graves, v.room);
      } in
      (
        t',
        e,
        (
          v',
          u.no_graves,
          u.no_count,
          λ k. get_slot-agree hash capacity k t t' v v' (u.to k) (u.from k),
        ),
      )

  -- A delete from a table whose tombstones are counted, and which is not full even with all the
  -- tombstones that it allows, returns the slot that the key had, or none; the key then has no slot
  -- and every other key has what it had. The table then has no more keys than before and is tidy.
  pub get_slot-delete :
      (rebuild_threshold : ℕ) (key : Str) (t : Table)
      → IsTable hash capacity t
      → IsTidy hash capacity rebuild_threshold t
      → live hash capacity t + rebuild_threshold ≤ capacity
      → Returns (delete hash capacity rebuild_threshold key t) (λ r.
        IsTable hash capacity r.1
        × IsTidy hash capacity rebuild_threshold r.1
        × (live hash capacity r.1 ≤ live hash capacity t)
        × (ok (r.0) ≡ get_slot hash capacity key t)
        × ((k : Str)
            → get_slot hash capacity k r.1
              ≡ (if str_eq key k then ok none else get_slot hash capacity k t)))
  get_slot-delete rebuild_threshold key t v d room =
      let (r, e, c) = delete-cases hash capacity rebuild_threshold key t v d in
      elim c [
        | inl (s, found, m, u) ↦
            let v' : IsTable hash capacity r.1 = record {
              probed = u.probed;
              room = omega (arith, u.live_lt, u.tidy.counted, u.tidy.not_due, room);
            } in
            (
              r,
              e,
              (
                v',
                u.tidy,
                omega (arith, u.live_lt),
                ap ok found ∙ sym (get_slot-Maps hash capacity key s t v m),
                λ k. elim (Bool-cases (str_eq key k)) [
                  | inl same ↦ rw (same) (
                      get_slot-none hash capacity k r.1 v' (
                        subst (λ k. (s : ℕ) → Maps hash capacity r.1.buckets k s → ⊥)
                          ((str_eq_iff key k).0 same) u.absent))
                  | inr other ↦ rw (other) (
                      get_slot-agree hash capacity k t r.1 v v'
                        (λ s. u.others k s (differ key k other)) (λ s. u.others_inv k s))
                ],
              ),
            )
        | inr (found, same_table, absent) ↦ (
          r,
          e,
          (
            subst (IsTable hash capacity) (sym same_table) v,
            subst (IsTidy hash capacity rebuild_threshold) (sym same_table) d,
            omega (arith, ap (live hash capacity) same_table),
            ap ok found ∙ sym (get_slot-none hash capacity key t v absent),
            λ k. ap (get_slot hash capacity k) same_table ∙ elim (Bool-cases (str_eq key k)) [
              | inl same ↦ rw (same) (
                  get_slot-none hash capacity k t v (
                    subst (λ k. (s : ℕ) → Maps hash capacity t.buckets k s → ⊥)
                      ((str_eq_iff key k).0 same) absent))
              | inr other ↦ rw (other) refl
            ],
          ),
        )
      ]
