-- ===== src/Shard/Index.antt =====
-- The pair of `_shard_key_lists` and `_shard_key_positions` (src/traffik/backends/inmemory.py)
-- under an append and under the swap-pop of `_index_remove`.
use traffik.Base.{
  ℕ, ◌<◌, ◌≡◌, ◌≢◌, refl, ◌∙◌, inl, inr, none, some, List, [], ◌∷◌, ◌++◌, arith, length, set,
  get_elem?, get_elem?-append, get_elem?-append_last, get_elem?-append_inv, get_elem?-set_self,
  get_elem?-set_ne, lt_of_get_elem?, Bool-cases, if◌then◌else◌,
}
use native.Mathlib.Decide.{dec_lt}
use traffik.Base.Text.{Str, str_eq, str_eq_iff}
use traffik.Base.Dict.{Dict, lookup, insert, erase, lookup-insert, lookup-erase}

-- `positions` holds the place of each key of `keys`, and nothing else.
pub record Indexes (keys : List Str) (positions : Dict ℕ) : Type 0 where
  pub placed : (k : Str) (p : ℕ) → lookup k positions ≡ some p → get_elem? keys p ≡ some k
  pub found : (k : Str) (p : ℕ) → get_elem? keys p ≡ some k → lookup k positions ≡ some p

pub append-Indexes :
    (keys : List Str) (positions : Dict ℕ) (key : Str)
    → Indexes keys positions
    → lookup key positions ≡ none
    → Indexes (keys ++ key ∷ []) (insert key (length keys) positions)
append-Indexes keys positions key v new = record {
  placed = λ k p h.
      let h' = rw lookup-insert at h in
      elim (Bool-cases (str_eq key k)) [
        | inl e ↦ ground (arith, str_eq_iff key k, get_elem?-append_last keys key p)
        | inr e ↦
            let old : lookup k positions ≡ some p = ground arith in
            ground (
              arith,
              v.placed k p old,
              lt_of_get_elem? keys p k,
              get_elem?-append keys (key ∷ []) p,
            )
      ];
  found = λ k p h. elim (get_elem?-append_inv keys key p k h) [
    | inl e ↦ rw lookup-insert (ground (arith, v.found k p e, str_eq_iff key k))
    | inr e ↦ rw lookup-insert (ground (arith, str_eq_iff key k))
  ];
}

-- The swap: the last key takes the place `p` of the key that goes.
pub swap-Indexes :
    (rest : List Str) (last key : Str) (positions : Dict ℕ) (p : ℕ)
    → Indexes (rest ++ last ∷ []) positions
    → lookup key positions ≡ some p
    → p < length rest
    → Indexes (set rest p last) (insert last p (erase key positions))
swap-Indexes rest last key positions p v at_p lt = record {
  placed = λ k q h.
      let h' = rw (lookup-insert, lookup-erase) at h in
      elim (Bool-cases (str_eq last k)) [
        | inl e ↦ ground (arith, str_eq_iff last k, get_elem?-set_self rest p last)
        | inr e ↦
            let old : lookup k positions ≡ some q = ground arith in
            elim (get_elem?-append_inv rest last q k (v.placed k q old)) [
              | inl there ↦
                  ground
                    (arith, str_eq_iff key k, get_elem?-set_ne rest {i = p} {j = q} last, key_at)
              | inr there ↦ ground (arith, str_eq_iff last k)
            ]
      ];
  found = λ k q h.
      rw (lookup-insert, lookup-erase)
        (elim (dec_lt q p) [
          | yes below ↦ moved k q h (omega arith)
          | no above ↦ elim (dec_lt p q) [
            | yes over ↦ moved k q h (omega arith)
            | no same ↦
                let e : q ≡ p = omega arith in
                ground (arith, get_elem?-set_self rest p last, str_eq_iff last k)
          ]
        ]);
}
  where
    key_at : get_elem? rest p ≡ some key
    key_at = ground (arith, get_elem?-append rest (last ∷ []) p, v.placed key p at_p)

    last_at : lookup last positions ≡ some (length rest)
    last_at = v.found last (length rest) (get_elem?-append_last rest last (length rest) refl)

    moved :
        (k : Str) (q : ℕ)
        → get_elem? (set rest p last) q ≡ some k
        → p ≢ q
        → (if str_eq last k then some p else if str_eq key k then none else lookup k positions)
          ≡ some q
    moved k q h ne =
        let old : get_elem? rest q ≡ some k =
          ground (arith, get_elem?-set_ne rest {i = p} {j = q} last ne) in
        let in_rest : q < length rest = lt_of_get_elem? rest q k old in
        let at_q : lookup k positions ≡ some q =
          v.found k q (get_elem?-append rest (last ∷ []) q in_rest ∙ old) in
        ground (arith, str_eq_iff last k, str_eq_iff key k, last_at, at_p)

-- The key that goes stands last.
pub pop-Indexes :
    (rest : List Str) (last key : Str) (positions : Dict ℕ) (p : ℕ)
    → Indexes (rest ++ last ∷ []) positions
    → lookup key positions ≡ some p
    → ¬ (p < length rest)
    → Indexes rest (erase key positions)
pop-Indexes rest last key positions p v at_p ge = record {
  placed = λ k q h.
      let h' = rw lookup-erase at h in
      let old : lookup k positions ≡ some q = ground arith in
      elim (get_elem?-append_inv rest last q k (v.placed k q old)) [
        | inl there ↦ there
        | inr there ↦ ground (arith, str_eq_iff key k, is_last)
      ];
  found = λ k q h.
      let in_rest : q < length rest = lt_of_get_elem? rest q k h in
      let at_q : lookup k positions ≡ some q =
        v.found k q (get_elem?-append rest (last ∷ []) q in_rest ∙ h) in
      rw lookup-erase (ground (arith, str_eq_iff key k));
}
  where
    is_last : key ≡ last
    is_last = elim (get_elem?-append_inv rest last p key (v.placed key p at_p)) [
      | inl there ↦ absurd (ge (lt_of_get_elem? rest p key there))
      | inr there ↦ there.1
    ]
