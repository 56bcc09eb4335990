-- ===== src/SharedTable/Scan.antt =====
-- `_hash_table_iter_occupied` (src/traffik/backends/multiprocess.py): it lists the occupied buckets, each
-- once.
use traffik.Base.{
  ℕ, zero, suc, ◌+◌, ◌≤◌, ◌<◌, ◌≡◌, refl, sym, ap, ◌∙◌, subst, List, [], ◌∷◌, length, ◌==◌,
  Bool-cases, ==_iff, inl, inr, ◌⊎◌, arith,
}
use traffik.Base.Text.{Str}
use traffik.SharedTable.{Bucket, empty, tombstone, occupied, occupied_from}
use traffik.SharedTable.Probe.{Bucket-cases}
use traffik.SharedTable.Counts.{count, is_occupied}

abbrev pub In : Str → ℕ → List (Str × ℕ) → Type 0
In k s [] = ⊥
In k s (e ∷ entries) = (e ≡ (k, s)) ⊎ In k s entries

count_at : (b : ℕ → Bucket) (m m' : ℕ) → m ≡ m' → count is_occupied m b ≡ count is_occupied m' b
count_at b m m' e = ap (λ m. count is_occupied m b) e

module _ (hash : Str → ℕ) (capacity : ℕ) (b : ℕ → Bucket) where
  -- What one bucket adds to the list.
  scan_free :
      (n i : ℕ)
      → (b i ≡ empty) ⊎ (b i ≡ tombstone)
      → occupied_from hash capacity b (suc n) i ≡ occupied_from hash capacity b n (i + 1)
  unfolding occupied_from
  scan_free n i (inl e) = rw (occupied_from, e) refl
  scan_free n i (inr e) = rw (occupied_from, e) refl

  scan_occupied :
      (n i : ℕ) (k : Str) (s : ℕ)
      → b i ≡ occupied k s
      → occupied_from hash capacity b (suc n) i ≡ (k, s) ∷ occupied_from hash capacity b n (i + 1)
  unfolding occupied_from
  scan_occupied n i k s e = rw (occupied_from, e) refl

  bucket_split :
      (i : ℕ) → ((b i ≡ empty) ⊎ (b i ≡ tombstone)) ⊎ ((k : Str) × (s : ℕ) × (b i ≡ occupied k s))
  bucket_split i = elim (Bucket-cases (b i)) [
    | inl e ↦ inl (inl e)
    | inr (inl e) ↦ inl (inr e)
    | inr (inr o) ↦ inr o
  ]

  pub In-occupied_from :
      (k : Str) (s n i : ℕ)
      → In k s (occupied_from hash capacity b n i)
      → (j : ℕ) × (j < i + n) × (b j ≡ occupied k s)
  unfolding occupied_from
  In-occupied_from k s zero i m = elim m [ ]
  In-occupied_from k s (suc n) i m = elim (bucket_split i) [
    | inl e ↦
        let (j, lt, o) = In-occupied_from k s n (i + 1) (subst (In k s) (scan_free n i e) m) in
        (j, omega (arith, lt), o)
    | inr (k', s', e) ↦ elim (subst (In k s) (scan_occupied n i k' s' e) m) [
      | inl p ↦ (i, omega arith, e ∙ ap (λ (p : Str × ℕ). occupied p.0 p.1) p)
      | inr m' ↦ let (j, lt, o) = In-occupied_from k s n (i + 1) m' in (j, omega (arith, lt), o)
    ]
  ]

  pub occupied_from-In :
      (k : Str) (s n i j : ℕ)
      → i ≤ j
      → j < i + n
      → b j ≡ occupied k s
      → In k s (occupied_from hash capacity b n i)
  occupied_from-In k s zero i j le lt o = absurd (omega (arith, le, lt))
  occupied_from-In k s (suc n) i j le lt o = elim (Bool-cases (i == j)) [
    | inl e ↦ subst (In k s) (sym (scan_occupied n i k s (ap b ((==_iff i j).0 e) ∙ o))) (inl refl)
    | inr e ↦
        let rest = occupied_from-In k s n (i + 1) j (ground (arith, le, e)) (omega (arith, lt)) o in
        elim (bucket_split i) [
          | inl h ↦ subst (In k s) (sym (scan_free n i h)) rest
          | inr (k', s', h) ↦ subst (In k s) (sym (scan_occupied n i k' s' h)) (inr rest)
        ]
  ]

  pub length-occupied_from :
      (n i : ℕ)
      → length (occupied_from hash capacity b n i) + count is_occupied i b
        ≡ count is_occupied (i + n) b
  unfolding occupied_from count
  length-occupied_from zero i = omega (arith, count_at b i (i + zero) (omega arith))
  length-occupied_from (suc n) i =
      let next : count is_occupied (suc i) b ≡ is_occupied (b i) + count is_occupied i b = refl in
      let rest = length-occupied_from n (i + 1) in
      let start = count_at b (i + 1) (suc i) (omega arith) in
      let end = count_at b (i + 1 + n) (i + suc n) (omega arith) in
      elim (bucket_split i) [
        | inl (inl h) ↦
            omega
              (arith, ap length (scan_free n i (inl h)), next, rest, start, end, ap is_occupied h)
        | inl (inr h) ↦
            omega
              (arith, ap length (scan_free n i (inr h)), next, rest, start, end, ap is_occupied h)
        | inr (k', s', h) ↦
            omega (
              arith,
              ap length (scan_occupied n i k' s' h),
              next,
              rest,
              start,
              end,
              ap is_occupied h,
            )
      ]
