-- ===== src/LockPool/Entries.antt =====
-- How many items of a dictionary have a key: what the lock pool (src/traffik/_locks.py) keeps of the
-- number of the names in use.
use traffik.Base.{
  ℕ, suc, ◌+◌, ◌<◌, ◌≡◌, refl, none, some, [], ◌∷◌, length, if◌then◌else◌, Bool-cases, inl, inr,
  arith,
}
use traffik.Base.Text.{Str, str_eq, str_eq_iff}
use traffik.Base.Dict.{Dict, lookup, insert, erase}

module _ {V : Type 0} where
  unfoldable pub copies : Str → Dict V → ℕ
  copies k [] = 0
  copies k ((j, v) ∷ d) = (if str_eq j k then 1 else 0) + copies k d

  pub copies-none : (k : Str) (d : Dict V) → lookup k d ≡ none → copies k d ≡ 0
  unfolding copies lookup
  copies-none k [] e = refl
  copies-none k ((j, v) ∷ d) e = ground (arith, e, copies-none k d)

  pub copies-some : (k : Str) (d : Dict V) (v : V) → lookup k d ≡ some v → 0 < copies k d
  unfolding copies lookup
  copies-some k [] v e = ground (arith, e)
  copies-some k ((j, w) ∷ d) v e = elim (Bool-cases (str_eq j k)) [
    | inl m ↦ rw (m) (omega arith)
    | inr m ↦ ground (arith, copies-some k d v (ground (arith, e, m)), m)
  ]

  pub length-erase : (k : Str) (d : Dict V) → length (erase k d) + copies k d ≡ length d
  unfolding copies erase
  length-erase k [] = omega arith
  length-erase k ((j, v) ∷ d) = ground (arith, length-erase k d)

  pub copies-erase :
      (k j : Str) (d : Dict V) → copies j (erase k d) ≡ (if str_eq k j then 0 else copies j d)
  unfolding copies erase
  copies-erase k j [] = ground arith
  copies-erase k j ((i, v) ∷ d) =
      ground (arith, copies-erase k j d, str_eq_iff i k, str_eq_iff i j, str_eq_iff k j)

  pub length-insert_old :
      (k : Str) (v w : V) (d : Dict V) → lookup k d ≡ some w → length (insert k v d) ≡ length d
  unfolding lookup insert
  length-insert_old k v w [] e = ground (arith, e)
  length-insert_old k v w ((j, x) ∷ d) e = elim (Bool-cases (str_eq j k)) [
    | inl m ↦ ground (arith, m)
    | inr m ↦ ground (arith, length-insert_old k v w d (ground (arith, e, m)), m)
  ]

  pub copies-insert_old :
      (k j : Str) (v w : V) (d : Dict V)
      → lookup k d ≡ some w
      → copies j (insert k v d) ≡ copies j d
  unfolding copies lookup insert
  copies-insert_old k j v w [] e = ground (arith, e)
  copies-insert_old k j v w ((i, x) ∷ d) e = elim (Bool-cases (str_eq i k)) [
    | inl m ↦ ground (arith, m)
    | inr m ↦ ground (arith, copies-insert_old k j v w d (ground (arith, e, m)), m)
  ]

  pub length-insert_new :
      (k : Str) (v : V) (d : Dict V) → lookup k d ≡ none → length (insert k v d) ≡ suc (length d)
  unfolding lookup insert
  length-insert_new k v [] e = refl
  length-insert_new k v ((j, x) ∷ d) e = ground (arith, e, length-insert_new k v d)

  pub copies-insert_new :
      (k j : Str) (v : V) (d : Dict V)
      → lookup k d ≡ none
      → copies j (insert k v d) ≡ copies j d + (if str_eq k j then 1 else 0)
  unfolding copies lookup insert
  copies-insert_new k j v [] e = ground arith
  copies-insert_new k j v ((i, x) ∷ d) e = ground (arith, e, copies-insert_new k j v d)
