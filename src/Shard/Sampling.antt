-- ===== src/Shard/Sampling.antt =====
-- The sampling index of a shard (src/traffik/backends/inmemory.py) against its dictionary: every
-- operation of the shard keeps them in step.
use traffik.Base.{
  ℕ, ◌≡◌, refl, inl, inr, true, false, Option, none, some, List, [], ◌∷◌, ◌++◌, arith, length,
  unsnoc, get_elem?-append_last, append_of_unsnoc, nil_of_unsnoc, Bool-cases, ltb,
}
use traffik.Base.Int.{ℤ}
use traffik.Base.Text.{Str, str_eq_iff}
use traffik.Base.Dict.{lookup, contains, insert, erase, lookup-insert, lookup-erase}
use traffik.Shard.Index.{Indexes, append-Indexes, swap-Indexes, pop-Indexes}
use traffik.Shard.{
  Shard, Entry, empty, index_insert, swap_pop, index_remove_at, drop_key, store, overwrite, get,
  delete, increment, increment_with_ttl, expire,
}

-- The index lists exactly the keys of the dictionary, each once, and knows the place of each.
pub record IsIndexed (s : Shard) : Type 0 where
  pub present : (k : Str) → contains k s.items ≡ contains k s.key_positions
  pub indexes : Indexes s.key_list s.key_positions

pub empty-IsIndexed : IsIndexed empty
unfolding lookup
empty-IsIndexed = record {
  present = λ k. refl;
  indexes = record { placed = λ k p h. cc; found = λ k p h. cc };
}

overwrite-IsIndexed :
    (s : Shard) (key : Str) (e : Entry)
    → IsIndexed s
    → contains key s.items ≡ true
    → IsIndexed (overwrite key e s)
unfolding overwrite
overwrite-IsIndexed s key e v h = record {
  present = λ k.
      ground (arith, lookup-insert key k e s.items, v.present k, v.present key, str_eq_iff key k);
  indexes = v.indexes;
}

insert_new-IsIndexed :
    (s : Shard) (key : Str) (e : Entry)
    → IsIndexed s
    → contains key s.items ≡ false
    → IsIndexed (index_insert key (record s { items = insert key e s.items }))
unfolding index_insert
insert_new-IsIndexed s key e v h = record {
  present = λ k. ground (
    arith,
    lookup-insert key k e s.items,
    lookup-insert key k (length s.key_list) s.key_positions,
    v.present k,
    str_eq_iff key k,
  );
  indexes = append-Indexes s.key_list s.key_positions key v.indexes (ground (arith, v.present key));
}

pub store-IsIndexed : (s : Shard) (key : Str) (e : Entry) → IsIndexed s → IsIndexed (store key e s)
unfolding store overwrite
store-IsIndexed s key e v = elim (Bool-cases (contains key s.items)) [
  | inl old ↦ rw old (overwrite-IsIndexed s key e v old)
  | inr new ↦ rw new (insert_new-IsIndexed s key e v new)
]

-- The key's place is known; its last key is `last`.
swap_pop-IsIndexed :
    (s : Shard) (key : Str) (p : ℕ) (last : Str) (rest : List Str)
    → IsIndexed s
    → lookup key s.key_positions ≡ some p
    → s.key_list ≡ rest ++ last ∷ []
    → IsIndexed (
        swap_pop p
          (some (last, rest))
          (record s { items = erase key s.items; key_positions = erase key s.key_positions }))
unfolding swap_pop
swap_pop-IsIndexed s key p last rest v e u = elim (Bool-cases (ltb p (length rest))) [
  | inl lt ↦ rw lt (record {
    present = λ k. ground (
      arith,
      lookup-erase key k s.items,
      lookup-erase key k s.key_positions,
      v.present k,
      lookup-insert last k p (erase key s.key_positions),
      str_eq_iff last k,
      str_eq_iff key k,
      last_at,
    );
    indexes = swap-Indexes rest last key s.key_positions p split e (ground arith);
  })
  | inr ge ↦ rw ge (record {
    present = λ k. ground (
      arith,
      lookup-erase key k s.items,
      lookup-erase key k s.key_positions,
      v.present k,
      str_eq_iff key k,
    );
    indexes = pop-Indexes rest last key s.key_positions p split e (ground arith);
  })
]
  where
    split : Indexes (rest ++ last ∷ []) s.key_positions
    split = rw (← u) v.indexes

    last_at : lookup last s.key_positions ≡ some (length rest)
    last_at = split.found last (length rest) (get_elem?-append_last rest last (length rest) refl)

index_remove_at-IsIndexed :
    (s : Shard) (key : Str) (o : Option ℕ) (u : Option (Str × List Str))
    → IsIndexed s
    → lookup key s.key_positions ≡ o
    → unsnoc s.key_list ≡ u
    → IsIndexed (index_remove_at key o (record s { items = erase key s.items }))
unfolding index_remove_at
index_remove_at-IsIndexed s key none u v e h = record {
  present =
      λ k. ground (arith, lookup-erase key k s.items, v.present k, v.present key, str_eq_iff key k);
  indexes = v.indexes;
}
index_remove_at-IsIndexed s key (some p) none v e h =
    ground (arith, v.indexes.placed key p e, nil_of_unsnoc s.key_list h)
index_remove_at-IsIndexed s key (some p) (some (last, rest)) v e h =
    rw h (swap_pop-IsIndexed s key p last rest v e (append_of_unsnoc s.key_list h))

drop_key-IsIndexed : (s : Shard) (key : Str) → IsIndexed s → IsIndexed (drop_key key s)
unfolding drop_key
drop_key-IsIndexed s key v = index_remove_at-IsIndexed s key _ _ v refl refl

ruleset indexed_rules = (store-IsIndexed, overwrite-IsIndexed, drop_key-IsIndexed)

-- `get` keeps the index in step with the dictionary.
pub get-IsIndexed : (now : ℕ) (key : Str) (s : Shard) → IsIndexed s → IsIndexed (get now key s).1
unfolding get
get-IsIndexed now key s v = grind (arith, indexed_rules)

pub delete-IsIndexed : (key : Str) (s : Shard) → IsIndexed s → IsIndexed (delete key s).1
unfolding delete
delete-IsIndexed key s v = grind (arith, indexed_rules)

pub increment-IsIndexed :
    (now : ℕ) (key : Str) (amount : ℤ) (s : Shard)
    → IsIndexed s
    → IsIndexed (increment now key amount s).1
unfolding increment
increment-IsIndexed now key amount s v = grind (arith, indexed_rules)

pub expire-IsIndexed :
    (now : ℕ) (key : Str) (seconds : ℕ) (s : Shard)
    → IsIndexed s
    → IsIndexed (expire now key seconds s).1
unfolding expire
expire-IsIndexed now key seconds s v = grind (arith, indexed_rules)

pub increment_with_ttl-IsIndexed :
    (now : ℕ) (key : Str) (amount : ℤ) (ttl : ℕ) (s : Shard)
    → IsIndexed s
    → IsIndexed (increment_with_ttl now key amount ttl s).1
unfolding increment_with_ttl
increment_with_ttl-IsIndexed now key amount ttl s v = grind (arith, indexed_rules)
