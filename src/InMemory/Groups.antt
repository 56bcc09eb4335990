-- ===== src/InMemory/Groups.antt =====
-- The grouping of keys by shard in `multi_get` and `multi_set`
-- (src/traffik/backends/inmemory.py): each key stands in the group of its shard, and that shard is
-- among the indexes that the loop visits.
use traffik.Base.{
  ℕ, ◌<◌, ◌≡◌, refl, Bool, true, false, ◌||◌, List, [], ◌∷◌, arith, ◌==◌, if◌then◌else◌,
}
use traffik.Base.Int.{ℤ}
use traffik.Base.Text.{Str, str_eq, str_eq_iff}
use traffik.InMemory.{Backend, shard_idx, on_shard, shard_indexes, insert_sorted}
use traffik.InMemory.Views.{mod_int-lt}

abbrev pub elem : ℕ → List ℕ → Bool
elem i [] = false
elem i (j ∷ l) = i == j || elem i l

elem-insert_sorted : (i j : ℕ) (l : List ℕ) → elem i (insert_sorted j l) ≡ (i == j || elem i l)
unfolding insert_sorted
elem-insert_sorted i j [] = refl
elem-insert_sorted i j (k ∷ l) = ground (arith, elem-insert_sorted i j l)

-- Whether a key is among those of the list.
abbrev pub has_key : {A : Type 0} → (A → Str) → Str → List A → Bool
has_key key_of j [] = false
has_key key_of j (a ∷ l) = str_eq (key_of a) j || has_key key_of j l

module _ (hash : Str → ℤ) (b : Backend) {A : Type 0} (key_of : A → Str) where
  -- The shard of a key is visited.
  pub elem-shard_indexes :
      (j : Str) (l : List A)
      → has_key key_of j l ≡ true
      → elem (shard_idx hash b j) (shard_indexes hash key_of b l) ≡ true
  unfolding shard_indexes
  elem-shard_indexes j [] h = cc
  elem-shard_indexes j (a ∷ l) h = ground (
    arith,
    str_eq_iff (key_of a) j,
    elem-shard_indexes j l,
    elem-insert_sorted (shard_idx hash b j) (shard_idx hash b (key_of a))
        (shard_indexes hash key_of b l),
  )

  -- Only shards that exist are visited.
  pub shard_indexes-lt :
      (l : List A)
      → 0 < b.number_of_shards
      → (i : ℕ) → elem i (shard_indexes hash key_of b l) ≡ true
      → i < b.number_of_shards
  unfolding shard_indexes
  shard_indexes-lt [] h i e = cc
  shard_indexes-lt (a ∷ l) h i e = ground (
    arith,
    shard_indexes-lt l h i,
    mod_int-lt (hash (key_of a)) b.number_of_shards h,
    elem-insert_sorted i (shard_idx hash b (key_of a)) (shard_indexes hash key_of b l),
  )

  pub has_key-on_shard :
      (i : ℕ) (j : Str) (l : List A)
      → has_key key_of j (on_shard hash key_of i b l)
        ≡ (if shard_idx hash b j == i then has_key key_of j l else false)
  unfolding on_shard
  has_key-on_shard i j [] = ground arith
  has_key-on_shard i j (a ∷ l) = ground (arith, has_key-on_shard i j l, str_eq_iff (key_of a) j)
