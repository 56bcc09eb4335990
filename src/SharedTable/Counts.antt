-- ===== src/SharedTable/Counts.antt =====
-- How many buckets of a table (src/traffik/backends/multiprocess.py) are occupied or tombstones.
use traffik.Base.{
  ℕ, zero, suc, ◌+◌, ◌≤◌, ◌<◌, ◌≡◌, ◌≢◌, refl, ap, false, ◌==◌, Bool-cases, ==_iff, inl, inr, ◌⊎◌,
  arith,
}
use traffik.SharedTable.{Bucket, empty, tombstone, occupied, update}
use traffik.SharedTable.Probe.{Bucket-cases}

abbrev pub is_occupied : Bucket → ℕ
is_occupied (occupied k s) = 1
is_occupied _ = 0

abbrev pub is_tombstone : Bucket → ℕ
is_tombstone tombstone = 1
is_tombstone _ = 0

-- The sum of `w` over the first `n` buckets.
unfoldable pub count : (Bucket → ℕ) → ℕ → (ℕ → Bucket) → ℕ
count w zero b = 0
count w (suc n) b = w (b n) + count w n b

module _ {A : Type 0} where
  pub update_here : (i : ℕ) (a : A) (f : ℕ → A) → update i a f i ≡ a
  update_here i a f = ground arith

  pub update_there : (i j : ℕ) (a : A) (f : ℕ → A) → i ≢ j → update i a f j ≡ f j
  update_there i j a f n = elim (Bool-cases (i == j)) [
    | inl e ↦ elim (n ((==_iff i j).0 e)) [ ]
    | inr e ↦ rw (e) refl
  ]

  -- What stands at `j` after the update.
  pub update_inv :
      (i j : ℕ) (a y : A) (f : ℕ → A)
      → update i a f j ≡ y
      → ((i ≡ j) × (a ≡ y)) ⊎ ((i ≢ j) × (f j ≡ y))
  update_inv i j a y f e = elim (Bool-cases (i == j)) [
    | inl s ↦ inl ((==_iff i j).0 s, rw (s) at e)
    | inr s ↦ inr (λ x. differ i j s x, rw (s) at e)
  ]
    where
      differ : (i j : ℕ) → (i == j) ≡ false → i ≢ j
      differ i j s x = ground (arith, s, x)

module _ (w : Bucket → ℕ) where
  count-update_past :
      (n j : ℕ) (x : Bucket) (b : ℕ → Bucket) → n ≤ j → count w n (update j x b) ≡ count w n b
  unfolding count
  count-update_past zero j x b h = refl
  count-update_past (suc n) j x b h =
      rw
        (
          update_there j n x b (λ e. omega (arith, h, e)),
          count-update_past n j x b (omega (arith, h)),
        )
        refl

  -- An update exchanges the weight of one bucket.
  pub count-update :
      (n j : ℕ) (x : Bucket) (b : ℕ → Bucket)
      → j < n
      → count w n (update j x b) + w (b j) ≡ count w n b + w x
  unfolding count
  count-update zero j x b h = elim h [ ]
  count-update (suc n) j x b h = elim (Bool-cases (j == n)) [
    | inl e ↦
        let same : j ≡ n = (==_iff j n).0 e in
        rw (e, count-update_past n j x b (omega (arith, same)), same) (omega arith)
    | inr e ↦ rw (e) (omega (arith, count-update n j x b (ground (arith, e))))
  ]

  pub count_blank : (n : ℕ) → w empty ≡ 0 → count w n (λ _. empty) ≡ 0
  unfolding count
  count_blank zero e = refl
  count_blank (suc n) e = rw (e, count_blank n e) (omega arith)

-- If the occupied buckets and the tombstones are fewer than the buckets, one is empty.
pub some_empty :
    (n : ℕ) (b : ℕ → Bucket)
    → count is_occupied n b + count is_tombstone n b < n
    → (j : ℕ) × (j < n) × (b j ≡ empty)
unfolding count
some_empty zero b h = absurd (omega (arith, h))
some_empty (suc n) b h = elim (Bucket-cases (b n)) [
  | inl e ↦ (n, omega arith, e)
  | inr (inl t) ↦
      let (j, lt, e) = some_empty n b (omega (arith, h, ap is_occupied t, ap is_tombstone t)) in
      (j, omega (arith, lt), e)
  | inr (inr (k, s, o)) ↦
      let (j, lt, e) = some_empty n b (omega (arith, h, ap is_occupied o, ap is_tombstone o)) in
      (j, omega (arith, lt), e)
]
