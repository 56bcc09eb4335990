-- ===== src/SharedTable/Rebuild.antt =====
-- The rebuild of the hash table in place (src/traffik/backends/multiprocess.py): no tombstone is left, and
-- every key maps to the slot that it had.
use native.Mathlib.Nat.{zero-add}
use traffik.Base.{
  ℕ, ◌+◌, ◌≤◌, ◌<◌, ◌≡◌, refl, sym, ap, ◌∙◌, subst, false, List, [], ◌∷◌, length, Bool-cases, inl,
  inr, ◌⊎◌, arith,
}
use traffik.Base.Text.{Str, str_eq, str_eq_iff}
use traffik.Result.{Returns}
use traffik.SharedTable.{Bucket, empty, Table, iter_occupied, upsert_all, rebuild, key_max_bytes}
use traffik.SharedTable.Probe.{Maps, IsProbed}
use traffik.SharedTable.Counts.{count, is_occupied, is_tombstone, count_blank}
use traffik.SharedTable.Update.{occupied-empty, Maps-unique}
use traffik.SharedTable.Methods.{live, graves, Upserted, upsert-Upserted}
use traffik.SharedTable.Scan.{In, In-occupied_from, occupied_from-In, length-occupied_from}

abbrev entry : Str → ℕ → Str × ℕ
entry k s = (k, s)

count_zero : (b : ℕ → Bucket) → count is_occupied 0 b ≡ 0
unfolding count
count_zero b = refl

count_from_zero : (n : ℕ) (b : ℕ → Bucket) → count is_occupied (0 + n) b ≡ count is_occupied n b
count_from_zero n b = ap (λ m. count is_occupied m b) (zero-add n)

module _ (hash : Str → ℕ) (capacity : ℕ) where
  -- A table with no key is probed.
  pub blank-IsProbed : IsProbed hash capacity (λ _. empty)
  blank-IsProbed = record {
    reached = λ j k s lt o. elim (occupied-empty (sym o)) [ ];
    unique = λ j j' k s s' lt lt' o o'. elim (occupied-empty (sym o)) [ ];
    short = λ j k s lt o. elim (occupied-empty (sym o)) [ ];
  }

  -- What the upserts of some entries leave.
  record Inserted (entries : List (Str × ℕ)) (t t' : Table) : Type 0 where
    probed : IsProbed hash capacity t'.buckets
    live_le : live hash capacity t' ≤ live hash capacity t + length entries
    graves_le : graves hash capacity t' ≤ graves hash capacity t
    put :
        (k : Str) (s : ℕ)
        → In k s entries
        → ((s' : ℕ) → In k s' entries → s' ≡ s)
        → Maps hash capacity t'.buckets k s
    kept :
        (k : Str) (s : ℕ)
        → Maps hash capacity t.buckets k s
        → ((s' : ℕ) → In k s' entries → s' ≡ s)
        → Maps hash capacity t'.buckets k s
    came :
        (k : Str) (s : ℕ)
        → Maps hash capacity t'.buckets k s
        → In k s entries ⊎ Maps hash capacity t.buckets k s

  -- After the first of the entries a key that mapped to a slot still does, unless that entry maps it
  -- to another.
  kept_first :
      (key : Str) (slot : ℕ) (t t' : Table) (k : Str) (s : ℕ)
      → Upserted hash capacity key slot t t'
      → Maps hash capacity t.buckets k s
      → (key ≡ k → slot ≡ s)
      → Maps hash capacity t'.buckets k s
  kept_first key slot t t' k s u m h = elim (Bool-cases (str_eq key k)) [
    | inl e ↦
        let same = (str_eq_iff key k).0 e in
        subst (λ k. Maps hash capacity t'.buckets k s) same
          (subst (λ s. Maps hash capacity t'.buckets key s) (h same) u.here)
    | inr e ↦ u.others k s (λ x. differ x e) m
  ]
    where
      differ : key ≡ k → str_eq key k ≡ false → ⊥
      differ x e = ground (arith, (str_eq_iff key k).1 x, e)

  upsert_all-Inserted :
      (entries : List (Str × ℕ)) (t : Table)
      → IsProbed hash capacity t.buckets
      → live hash capacity t + graves hash capacity t + length entries < capacity
      → ((k : Str) (s : ℕ) → In k s entries → length k ≤ key_max_bytes)
      → Returns (upsert_all hash capacity entries t) (Inserted entries t)
  unfolding upsert_all
  upsert_all-Inserted [] t v room short = (
    t,
    refl,
    record {
      probed = v;
      live_le = omega arith;
      graves_le = omega arith;
      put = λ k s m. elim m [ ];
      kept = λ k s m h. m;
      came = λ k s m. inr m;
    },
  )
  upsert_all-Inserted ((key, slot) ∷ entries) t v room short =
      let (t₁, r, u) =
        upsert-Upserted hash capacity key slot t (record { probed = v; room = omega (arith, room) })
          (short key slot (inl refl)) in
      let (t', r', n) =
        upsert_all-Inserted entries t₁ u.probed (omega (arith, room, u.all_le))
          (λ k s m. short k s (inr m)) in
      (
        t',
        rw (r) r',
        record {
          probed = n.probed;
          live_le = omega (arith, n.live_le, u.live_le);
          graves_le = omega (arith, n.graves_le, u.graves_le);
          put = λ k s m h. elim m [
            | inl e ↦
                n.kept k s (subst (λ (e : Str × ℕ). Maps hash capacity t₁.buckets e.0 e.1) e u.here)
                  (λ s' m'. h s' (inr m'))
            | inr m' ↦ n.put k s m' (λ s' m'. h s' (inr m'))
          ];
          kept = λ k s m h.
              n.kept k s
                (kept_first key slot t t₁ k s u m (λ e. h slot (inl (ap (λ k. (k, slot)) e))))
                (λ s' m'. h s' (inr m'));
          came = λ k s m. elim (n.came k s m) [
            | inl m' ↦ inl (inr m')
            | inr m' ↦ elim (Bool-cases (str_eq key k)) [
              | inl e ↦ inl (inl (first_entry k s t₁ key slot u ((str_eq_iff key k).0 e) n m'))
              | inr e ↦ inr (u.others_inv k s (λ x. differ key k x e) m')
            ]
          ];
        },
      )
    where
      differ : (key k : Str) → key ≡ k → str_eq key k ≡ false → ⊥
      differ key k x e = ground (arith, (str_eq_iff key k).1 x, e)

      first_entry :
          (k : Str) (s : ℕ) (t₁ : Table) (key : Str) (slot : ℕ)
          → Upserted hash capacity key slot t t₁
          → key ≡ k
          → {t' : Table} → Inserted entries t₁ t'
          → Maps hash capacity t₁.buckets k s
          → entry key slot ≡ entry k s
      first_entry k s t₁ key slot u e n m =
          let slot_same =
            Maps-unique hash capacity t₁.buckets k slot s u.probed
              (subst (λ k. Maps hash capacity t₁.buckets k slot) e u.here) m in
          ap (λ k. entry k slot) e ∙ ap (λ s. entry k s) slot_same

  -- What a rebuild leaves.
  pub record Rebuilt (t t' : Table) : Type 0 where
    pub probed : IsProbed hash capacity t'.buckets
    pub live_le : live hash capacity t' ≤ live hash capacity t
    pub no_graves : graves hash capacity t' ≡ 0
    pub no_count : t'.tombstone_count ≡ 0
    pub to :
        (k : Str) (s : ℕ) → Maps hash capacity t.buckets k s → Maps hash capacity t'.buckets k s
    pub from :
        (k : Str) (s : ℕ) → Maps hash capacity t'.buckets k s → Maps hash capacity t.buckets k s

  pub rebuild-Rebuilt :
      (t : Table)
      → IsProbed hash capacity t.buckets
      → live hash capacity t < capacity
      → Returns (rebuild hash capacity t) (Rebuilt t)
  unfolding rebuild
  rebuild-Rebuilt t v room =
      let cleared : Table = record t { buckets = λ _. empty } in
      let no_live : live hash capacity cleared ≡ 0 = count_blank is_occupied capacity refl in
      let no_graves : graves hash capacity cleared ≡ 0 = count_blank is_tombstone capacity refl in
      let same : length (iter_occupied hash capacity t) ≡ live hash capacity t = omega (
        arith,
        length-occupied_from hash capacity t.buckets capacity 0,
        count_zero t.buckets,
        count_from_zero capacity t.buckets,
      ) in
      let (t', r, n) =
        upsert_all-Inserted (iter_occupied hash capacity t) cleared blank-IsProbed
          (omega (arith, no_live, no_graves, same, room))
          (λ k s m. let (j, lt, o) = listed t k s m in v.short j k s lt o) in
      (
        record t' { tombstone_count = 0 },
        rw (r) refl,
        record {
          probed = n.probed;
          live_le = omega (arith, n.live_le, no_live, same);
          no_graves = omega (arith, n.graves_le, no_graves);
          no_count = refl;
          to = λ k s (j, lt, o).
              n.put k s
                (occupied_from-In hash capacity t.buckets k s capacity 0 j (omega arith)
                  (omega (arith, lt)) o)
                (λ s' m. Maps-unique hash capacity t.buckets k s' s v (listed t k s' m) (j, lt, o));
          from = λ k s m. elim (n.came k s m) [
            | inl m' ↦ listed t k s m'
            | inr (j, lt, o) ↦ elim (occupied-empty (sym o)) [ ]
          ];
        },
      )
    where
      listed :
          (t : Table) (k : Str) (s : ℕ)
          → In k s (iter_occupied hash capacity t)
          → Maps hash capacity t.buckets k s
      listed t k s m =
          let (j, lt, o) = In-occupied_from hash capacity t.buckets k s capacity 0 m in
          (j, omega (arith, lt), o)
