-- ===== src/SharedShard/Atomic.antt =====
-- The atomic steps of the processes on a shard (src/traffik/backends/multiprocess.py), and any number
-- of them: the generation of a slot tells whether its key has kept it.
use traffik.Base.{
  ℕ, ◌+◌, ◌%◌, ◌^◌, ◌≤◌, ◌≡◌, ◌≢◌, refl, sym, ap, ◌∙◌, subst, true, false, Option, none, List, [],
  ◌∷◌, length, ◌==◌, if◌then◌else◌, Bool-cases, ==_iff, inl, inr, ◌⊎◌, arith,
}
use traffik.Base.Text.{Str}
use traffik.Result.{backend_error, Result, ok, err}
use traffik.SharedTable.{Table, get_slot, key_max_bytes}
use traffik.SharedTable.Probe.{Maps}
use traffik.SharedTable.Methods.{get_slot-cases}
use traffik.SharedTable.Update.{Maps-unique}
use traffik.SharedTable.Delete.{Removed, delete-cases}
use traffik.SharedShard.{SharedShard, free_stack_push, clear_slot}
use traffik.SharedShard.Calls.{pop_slot, take_found, take_slot, delete_found, delete_key}
use traffik.SharedShard.Ownership.{occurs, Owns, IsShard, Steps, still, bumped}
use traffik.SharedShard.Taking.{Taken, pop_slot-Taken, shard-IsTable, bump-lt}

module _ (hash : Str → ℕ) (capacity rebuild_threshold max_keys : ℕ)
    (fits : max_keys + rebuild_threshold ≤ capacity) where
  -- The first phase of a write takes a slot for its key, or finds that the shard is full and changes
  -- nothing.
  pub take_slot-cases :
      (key : Str) (s : SharedShard)
      → IsShard hash capacity rebuild_threshold max_keys s
      → length key ≤ key_max_bytes
      → ((r : ℕ × ℕ) × (s' : SharedShard) × (take_slot hash capacity rebuild_threshold key s
            ≡ (ok r, s'))
          × Taken hash capacity rebuild_threshold max_keys fits key s r s')
        ⊎ ((take_slot hash capacity rebuild_threshold key s ≡ (err backend_error, s))
            × (s.free ≡ []))
  unfolding take_slot take_found pop_slot
  take_slot-cases key s v short =
      elim (get_slot-cases hash capacity key s.table
        (shard-IsTable hash capacity rebuild_threshold max_keys fits s v)) [
          | inl (slot, e, o) ↦ inl (
            (slot, s.generations slot),
            s,
            ap (λ (o : Result (Option ℕ)). take_found hash capacity rebuild_threshold key o s) e,
            record {
              valid = v;
              owns = o;
              generation = refl;
              steps =
                  still hash capacity rebuild_threshold s s v.words (λ slot. refl) (λ k slot o. o);
              same_slots = refl;
              fresh = inl o;
              fewer = λ slot. omega arith;
              others = λ k slot o. o;
              others_inv = λ k slot n o. o;
            },
          )
          | inr (e, absent) ↦ from_free key s v short s.free refl e absent
        ]
    where
      from_free :
          (key : Str) (s : SharedShard)
          → IsShard hash capacity rebuild_threshold max_keys s
          → length key ≤ key_max_bytes
          → (free : List ℕ) → s.free ≡ free
          → get_slot hash capacity key s.table ≡ ok none
          → ((slot : ℕ) → Owns hash capacity rebuild_threshold s key slot → ⊥)
          → ((r : ℕ × ℕ) × (s' : SharedShard) × (take_found hash capacity rebuild_threshold key
                  (get_slot hash capacity key s.table)
                  s
                ≡ (ok r, s'))
              × Taken hash capacity rebuild_threshold max_keys fits key s r s')
            ⊎ ((take_found hash capacity rebuild_threshold key
                    (get_slot hash capacity key s.table)
                    s
                  ≡ (err backend_error, s))
                × (s.free ≡ []))
      from_free key s v short [] f e absent = inr (
        ap (λ (o : Result (Option ℕ)). take_found hash capacity rebuild_threshold key o s) e
            ∙ ap (λ (l : List ℕ). pop_slot hash capacity rebuild_threshold key l s) f,
        f,
      )
      from_free key s v short (slot_idx ∷ free) f e absent =
          let (r, s', p, t) =
            pop_slot-Taken hash capacity rebuild_threshold max_keys fits key slot_idx free s v short
              f absent in
          inl (
            r,
            s',
            ap (λ (o : Result (Option ℕ)). take_found hash capacity rebuild_threshold key o s) e
                ∙ ap (λ (l : List ℕ). pop_slot hash capacity rebuild_threshold key l s) f
                ∙ p,
            t,
          )

  -- `_delete` removes the key and frees its slot, or finds the key nowhere and changes nothing.
  pub record Deleted (key : Str) (slot : ℕ) (s s' : SharedShard) : Type 0 where
    pub valid : IsShard hash capacity rebuild_threshold max_keys s'
    pub owned : Owns hash capacity rebuild_threshold s key slot
    pub absent : (i : ℕ) → Owns hash capacity rebuild_threshold s' key i → ⊥
    pub steps : Steps hash capacity rebuild_threshold 1 s s'
    pub pushed : s'.free ≡ slot ∷ s.free
    pub cleared : (s'.slots slot).occupied ≡ false
    pub advanced : s'.generations slot ≡ (s.generations slot + 1) % 2 ^ 32
    pub same_slots : (i : ℕ) → slot ≢ i → s'.slots i ≡ s.slots i
    pub freed :
        (i : ℕ)
        → 1 ≤ occurs i s'.free
        → ((s'.slots i).occupied ≡ false) ⊎ ((1 ≤ occurs i s.free) × (s'.slots i ≡ s.slots i))
    pub others :
        (k : Str) (i : ℕ)
        → key ≢ k
        → Owns hash capacity rebuild_threshold s k i
        → Owns hash capacity rebuild_threshold s' k i
    pub others_inv :
        (k : Str) (i : ℕ)
        → Owns hash capacity rebuild_threshold s' k i
        → Owns hash capacity rebuild_threshold s k i

  freed-Deleted :
      (key : Str) (slot : ℕ) (s : SharedShard) (t : Table)
      → IsShard hash capacity rebuild_threshold max_keys s
      → Owns hash capacity rebuild_threshold s key slot
      → Removed hash capacity rebuild_threshold key s.table t
      → Deleted key slot s (free_stack_push slot (clear_slot slot (record s { table = t })))
  unfolding occurs
  freed-Deleted key slot s t v o u = record {
    valid = record {
      probed = u.probed;
      tidy = u.tidy;
      budget = omega (arith, v.budget, u.live_lt);
      owner = λ k k' i a b. v.owner k k' i (u.others_inv k i a) (u.others_inv k' i b);
      unowned = λ k i a. stays_owned k i a (u.others_inv k i a);
      once = λ i. elim (Bool-cases (slot == i)) [
        | inl e ↦ rw (e) (
            omega (
              arith,
              subst (λ i. occurs i s.free ≡ 0) ((==_iff slot i).0 e) (v.unowned key slot o),
            ))
        | inr e ↦ rw (e) (omega (arith, v.once i))
      ];
      words = λ i. bump-lt slot i (record s { table = t }) v.words;
    };
    owned = o;
    absent = u.absent;
    steps =
        bumped hash capacity rebuild_threshold slot s
          (free_stack_push slot (clear_slot slot (record s { table = t }))) v.words (λ i. refl)
          (λ k i a n. u.others k i (λ same. n (owner_slot k i same a)) a);
    pushed = refl;
    cleared = rw ((==_iff slot slot).1 refl) refl;
    advanced = rw ((==_iff slot slot).1 refl) refl;
    same_slots = λ i n. elim (Bool-cases (slot == i)) [
      | inl e ↦ elim (n ((==_iff slot i).0 e)) [ ]
      | inr e ↦ rw (e) refl
    ];
    freed = λ i free. elim (Bool-cases (slot == i)) [
      | inl e ↦ inl (rw (e) refl)
      | inr e ↦ inr (unfreed i e free, rw (e) refl)
    ];
    others = u.others;
    others_inv = u.others_inv;
  }
    where
      unfreed :
          (i : ℕ)
          → slot == i ≡ false
          → 1 ≤ (if slot == i then 1 else 0) + occurs i s.free
          → 1 ≤ occurs i s.free
      unfreed i e free =
          omega (arith, subst (λ b. 1 ≤ (if b then 1 else 0) + occurs i s.free) e free)

      owner_slot :
          (k : Str) (i : ℕ) → key ≡ k → Owns hash capacity rebuild_threshold s k i → slot ≡ i
      owner_slot k i same a =
          Maps-unique hash capacity s.table.buckets key slot i v.probed o
            (subst (λ k. Owns hash capacity rebuild_threshold s k i) (sym same) a)

      stays_owned :
          (k : Str) (i : ℕ)
          → Maps hash capacity t.buckets k i
          → Owns hash capacity rebuild_threshold s k i
          → (if slot == i then 1 else 0) + occurs i s.free ≡ 0
      stays_owned k i a b = elim (Bool-cases (slot == i)) [
        | inl e ↦
            elim (u.absent slot (
              subst (λ k. Maps hash capacity t.buckets k slot)
                (v.owner k key slot
                  (subst (λ i. Owns hash capacity rebuild_threshold s k i)
                    (sym ((==_iff slot i).0 e)) b)
                  o)
                (subst (λ i. Maps hash capacity t.buckets k i) (sym ((==_iff slot i).0 e)) a))) [ ]
        | inr e ↦ rw (e) (omega (arith, v.unowned k i b))
      ]

  pub delete_key-cases :
      (key : Str) (s : SharedShard)
      → IsShard hash capacity rebuild_threshold max_keys s
      → ((slot : ℕ) × (s' : SharedShard) × (delete_key hash capacity rebuild_threshold key s
            ≡ (ok true, s'))
          × Deleted key slot s s')
        ⊎ ((delete_key hash capacity rebuild_threshold key s ≡ (ok false, s))
            × ((slot : ℕ) → Owns hash capacity rebuild_threshold s key slot → ⊥))
  unfolding delete_key delete_found
  delete_key-cases key s v =
      let (r, e, c) =
        delete-cases hash capacity rebuild_threshold key s.table
          (shard-IsTable hash capacity rebuild_threshold max_keys fits s v) v.tidy in
      let through =
        ap (λ (d : Result (Option ℕ × Table)). delete_found hash capacity rebuild_threshold s d)
          e in
      elim c [
        | inl (slot, same, o, u) ↦ inl (
          slot,
          free_stack_push slot (clear_slot slot (record s { table = r.1 })),
          through
              ∙ ap (λ (x : Option ℕ). delete_found hash capacity rebuild_threshold s (ok (x, r.1)))
                  same,
          freed-Deleted key slot s r.1 v o u,
        )
        | inr (same, same_table, absent) ↦ inr (
          through
              ∙ ap (λ (x : Option ℕ). delete_found hash capacity rebuild_threshold s (ok (x, r.1)))
                  same
              ∙ ap (λ (t : Table). delete_found hash capacity rebuild_threshold s (ok (none, t)))
                  same_table,
          absent,
        )
      ]
