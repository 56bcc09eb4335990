-- ===== src/SharedShard/Reaped.antt =====
-- What the clean-up of a shard changes (src/traffik/backends/multiprocess.py): nothing that a reader could
-- still see.
use traffik.Base.{
  ℕ, ◌+◌, ◌≤◌, ◌≡◌, refl, sym, ap, ◌∙◌, subst, Bool, true, false, not, ◌&&◌, ◌||◌, Option, none,
  some, List, [], ◌∷◌, length, ◌==◌, if◌then◌else◌, Bool-cases, ==_iff, inl, inr, arith,
}
use traffik.Base.Text.{Str, str_eq, str_eq_iff}
use traffik.Result.{Result, ok}
use traffik.SharedTable.{Table, delete}
use traffik.SharedTable.Methods.{get_slot-cases}
use traffik.SharedTable.Update.{Maps-unique}
use traffik.SharedTable.Delete.{delete-cases}
use traffik.SharedShard.{Slot, SharedShard, expired, passed, free_stack_push, clear_slot}
use traffik.SharedShard.Calls.{delete_key, delete_found}
use traffik.SharedShard.Ownership.{Owns, IsShard}
use traffik.SharedShard.Taking.{shard-IsTable}
use traffik.SharedShard.View.{seen, visible, IsClear, view, view-Owns}
use traffik.SharedShard.Removal.{Gone, Freed, delete_key-Gone}
use traffik.SharedShard.Reap.{
  is_expired, reap_deleted, reap_found, reap_candidate, count_freed, reap_rest, reap_all,
  with_checked, sample_and_reap_shard, candidates,
}

-- A slot that is expired shows nothing from then on.
is_expired-unseen : (now t : ℕ) (x : Slot) → now ≤ t → is_expired now x ≡ true → visible t x ≡ none
unfolding visible
is_expired-unseen now t x le e = hidden (late x.expires_at (both e))
  where
    both : x.occupied && expired now x ≡ true → expired now x ≡ true
    both e = ground (arith, e)

    late : (d : ℕ) → passed now d ≡ true → passed t d ≡ true
    late d p = ground (arith, p, le)

    hidden :
        expired t x ≡ true → (if not x.occupied || expired t x then none else some (seen x)) ≡ none
    hidden p = elim (Bool-cases (not x.occupied)) [ inl o ↦ rw (o) refl | inr o ↦ rw (o, p) refl ]

module _ (hash : Str → ℕ) (capacity rebuild_threshold max_keys : ℕ)
    (fits : max_keys + rebuild_threshold ≤ capacity) where
  -- What reaping leaves: a well-formed shard that shows from `now` on what it showed.
  pub record Kept (now : ℕ) (s s' : SharedShard) : Type 0 where
    pub valid : IsShard hash capacity rebuild_threshold max_keys s'
    pub clear : IsClear s'
    pub shows : (t : ℕ) (k : Str) → now ≤ t → view hash capacity t k s' ≡ view hash capacity t k s

  same-Kept :
      (now : ℕ) (s : SharedShard)
      → IsShard hash capacity rebuild_threshold max_keys s
      → IsClear s
      → Kept now s s
  same-Kept now s v clear = record { valid = v; clear = clear; shows = λ t k le. refl }

  abbrev leaving : {A : Type 0} → Result A → SharedShard → Result A × SharedShard
  leaving r s = (r, s)

  -- Reaping a key in its slot is deleting it.
  reap_deleted-eq :
      (key : Str) (slot : ℕ) (s : SharedShard)
      → IsShard hash capacity rebuild_threshold max_keys s
      → IsClear s
      → Owns hash capacity rebuild_threshold s key slot
      → (s' : SharedShard) × (reap_deleted hash capacity rebuild_threshold slot s
            (delete hash capacity rebuild_threshold key s.table)
          ≡ (ok true, s'))
        × Gone hash capacity rebuild_threshold max_keys fits key s s'
        × Freed hash capacity rebuild_threshold max_keys fits slot s s'
  unfolding reap_deleted delete_key delete_found
  reap_deleted-eq key slot s v clear o =
      let (r, e, c) =
        delete-cases hash capacity rebuild_threshold key s.table
          (shard-IsTable hash capacity rebuild_threshold max_keys fits s v) v.tidy in
      let after : SharedShard = free_stack_push slot (clear_slot slot (record s { table = r.1 })) in
      let (b, s', e', _, g, freed, _) =
        delete_key-Gone hash capacity rebuild_threshold max_keys fits key s v clear in
      elim c [
        | inl (slot', found, o', _) ↦
            let here =
              found
              ∙ ap some (Maps-unique hash capacity s.table.buckets key slot' slot v.probed o' o) in
            let both : delete_key hash capacity rebuild_threshold key s ≡ leaving (ok true) after =
              ap
                (λ (d : Result (Option ℕ × Table)).
                  delete_found hash capacity rebuild_threshold s d)
                e
              ∙ ap (λ (x : Option ℕ). delete_found hash capacity rebuild_threshold s (ok (x, r.1)))
                  here in
            let same : s' ≡ after = ap (λ (a : Result Bool × SharedShard). a.1) (sym e' ∙ both) in
            (
              after,
              ap
                  (λ (d : Result (Option ℕ × Table)).
                    reap_deleted hash capacity rebuild_threshold slot s d)
                  e,
              subst (λ x. Gone hash capacity rebuild_threshold max_keys fits key s x) same g,
              subst (λ x. Freed hash capacity rebuild_threshold max_keys fits slot s x) same
                  (freed slot o),
            )
        | inr (_, _, absent) ↦ elim (absent slot o) [ ]
      ]

  -- What the second pass does to one candidate of the first: nothing, or it frees the slot, which the
  -- key of the candidate still owns then, and whose entry is expired then.
  pub data Reviewed (now : ℕ) (entry : Str × ℕ) (s s' : SharedShard) (freed : Bool) : Type 0 where
    stays : freed ≡ false → s' ≡ s → Reviewed now entry s s' freed
    frees :
        freed ≡ true
        → Owns hash capacity rebuild_threshold s entry.0 entry.1
        → is_expired now (s.slots entry.1) ≡ true
        → Kept now s s'
        → Freed hash capacity rebuild_threshold max_keys fits entry.1 s s'
        → Reviewed now entry s s' freed

  Reviewed-Kept :
      (now : ℕ) (entry : Str × ℕ) (s s' : SharedShard) (freed : Bool)
      → IsShard hash capacity rebuild_threshold max_keys s
      → IsClear s
      → Reviewed now entry s s' freed
      → Kept now s s'
  Reviewed-Kept now entry s s' freed v clear (stays _ e) =
      subst (Kept now s) (sym e) (same-Kept now s v clear)
  Reviewed-Kept now entry s s' freed v clear (frees _ _ _ k _) = k

  Gone-Kept :
      (now : ℕ) (key : Str) (slot : ℕ) (s s' : SharedShard)
      → IsShard hash capacity rebuild_threshold max_keys s
      → Owns hash capacity rebuild_threshold s key slot
      → is_expired now (s.slots slot) ≡ true
      → Gone hash capacity rebuild_threshold max_keys fits key s s'
      → Kept now s s'
  Gone-Kept now key slot s s' v o late g = record {
    valid = g.valid;
    clear = g.clear;
    shows = λ t k le. g.shows t k ∙ elim (Bool-cases (str_eq key k)) [
      | inl same ↦ rw (same) (
          sym (
            ap (λ k. view hash capacity t k s) (sym ((str_eq_iff key k).0 same))
            ∙ view-Owns hash capacity rebuild_threshold max_keys fits t key slot s v o
            ∙ is_expired-unseen now t (s.slots slot) le late))
      | inr other ↦ rw (other) refl
    ];
  }

  reap_candidate-Reviewed :
      (now : ℕ) (entry : Str × ℕ) (s : SharedShard)
      → IsShard hash capacity rebuild_threshold max_keys s
      → IsClear s
      → (b : Bool) × (s' : SharedShard) × (reap_candidate hash capacity rebuild_threshold now entry
            s
          ≡ (ok b, s'))
        × Reviewed now entry s s' b
  unfolding reap_candidate reap_found
  reap_candidate-Reviewed now (key, expected) s v clear =
      elim (get_slot-cases hash capacity key s.table
        (shard-IsTable hash capacity rebuild_threshold max_keys fits s v)) [
          | inl (slot, e, o) ↦
              elim (Bool-cases (not (slot == expected) || not (is_expired now (s.slots slot)))) [
                | inl stay ↦ (false, s, rw (e, stay) refl, stays refl refl)
                | inr reap ↦
                    let (s', r, g, freed) = reap_deleted-eq key slot s v clear o in
                    let (same, late) =
                      chosen (slot == expected) (is_expired now (s.slots slot)) reap in
                    let at = (==_iff slot expected).0 same in
                    (
                      true,
                      s',
                      rw (e, reap) r,
                      frees refl (subst (Owns hash capacity rebuild_threshold s key) at o)
                          (subst (λ i. is_expired now (s.slots i) ≡ true) at late)
                          (Gone-Kept now key slot s s' v o late g)
                          (subst (λ i. Freed hash capacity rebuild_threshold max_keys fits i s s')
                            at freed),
                    )
              ]
          | inr (e, _) ↦ (false, s, rw (e) refl, stays refl refl)
        ]
    where
      chosen : (a b : Bool) → not a || not b ≡ false → (a ≡ true) × (b ≡ true)
      chosen a b e = (ground (arith, e), ground (arith, e))

  -- The second pass over the candidates, from the i-th on: before each, other processes change the
  -- shard, and `n` counts the candidates that were freed.
  pub Passes :
      (ℕ → SharedShard → SharedShard)
      → ℕ
      → ℕ
      → List (Str × ℕ)
      → SharedShard
      → SharedShard
      → ℕ
      → Type 0
  Passes between now i [] s s' n = (s' ≡ s) × (n ≡ 0)
  Passes between now i (entry ∷ entries) s s' n =
      (freed : Bool) × (m : SharedShard) × (rest : ℕ) × Reviewed now entry (between i s) m freed
      × Kept now (between i s) m
      × Passes between now (i + 1) entries m s' rest
      × (n ≡ (if freed then rest + 1 else rest))

  Passes-le :
      (between : ℕ → SharedShard → SharedShard) (now i : ℕ) (entries : List (Str × ℕ))
      (s s' : SharedShard) (n : ℕ)
      → Passes between now i entries s s' n
      → n ≤ length entries
  unfolding Passes
  Passes-le between now i [] s s' n p = omega (arith, p.1)
  Passes-le between now i (entry ∷ entries) s s' n (true, m, rest, _, _, p, e) =
      omega (arith, e, Passes-le between now (i + 1) entries m s' rest p)
  Passes-le between now i (entry ∷ entries) s s' n (false, m, rest, _, _, p, e) =
      omega (arith, e, Passes-le between now (i + 1) entries m s' rest p)

  module _ (between : ℕ → SharedShard → SharedShard)
      (kept : (i : ℕ) (s : SharedShard)
        → IsShard hash capacity rebuild_threshold max_keys s
        → IsClear s
        → IsShard hash capacity rebuild_threshold max_keys (between i s)
          × IsClear (between i s)) where
    reap_all-Passes :
        (now i : ℕ) (entries : List (Str × ℕ)) (s : SharedShard)
        → IsShard hash capacity rebuild_threshold max_keys s
        → IsClear s
        → (n : ℕ) × (s' : SharedShard) × (reap_all hash capacity rebuild_threshold between now i
              entries s
            ≡ (ok n, s'))
          × Passes between now i entries s s' n
    unfolding reap_all reap_rest count_freed Passes
    reap_all-Passes now i [] s v clear = (0, s, refl, (refl, refl))
    reap_all-Passes now i (entry ∷ entries) s v clear =
        let (v', clear') = kept i s v clear in
        let (b, m, e, r) = reap_candidate-Reviewed now entry (between i s) v' clear' in
        let k = Reviewed-Kept now entry (between i s) m b v' clear' r in
        let (n, s', e', p) = reap_all-Passes now (i + 1) entries m k.valid k.clear in
        ((if b then n + 1 else n), s', rw (e, e') refl, (b, m, n, r, k, p, refl))

    -- A round of the clean-up of a shard returns, whatever buckets it samples and whatever other
    -- processes do to the shard before each step of the second pass, as long as they leave it
    -- well-formed with its free slots cleared. It frees at most as many slots as it has candidates.
    -- Each step of the second pass changes nothing that a reader sees at the round's time or later,
    -- and frees a slot only if the candidate's key still owns it then and its entry is expired then.
    pub sample_and_reap_shard-Kept :
        (now : ℕ) (sample : List ℕ) (s : SharedShard)
        → IsShard hash capacity rebuild_threshold max_keys s
        → IsClear s
        → (n : ℕ) × (s' : SharedShard) × (sample_and_reap_shard hash capacity rebuild_threshold
              between now sample s
            ≡ (ok ((candidates now sample s).0, n), s'))
          × (n ≤ length (candidates now sample s).1)
          × Passes between now 0 (candidates now sample s).1 s s' n
    unfolding sample_and_reap_shard with_checked
    sample_and_reap_shard-Kept now sample s v clear =
        let entries = (candidates now sample s).1 in
        let (n, s', e, p) = reap_all-Passes now 0 entries s v clear in
        (n, s', rw (e) refl, Passes-le between now 0 entries s s' n p, p)
