-- ===== src/SharedShard/Generations.antt =====
-- The generations of the slots (src/traffik/backends/multiprocess.py) against the steps that other
-- processes take between the two phases of a call.
use traffik.Base.{
  ℕ, ◌+◌, ◌^◌, ◌≤◌, ◌<◌, ◌≡◌, refl, sym, ap, ◌∙◌, subst, Bool, true, Option, List, [], ◌∷◌, length,
  ltb, Bool-cases, inl, inr, ◌⊎◌, arith,
}
use traffik.Base.Text.{Str}
use traffik.Result.{backend_error, Result, ok, err}
use traffik.SharedTable.{update, upsert, key_max_bytes}
use traffik.SharedTable.Methods.{get_slot-none}
use traffik.SharedShard.{Slot, SharedShard, bump}
use traffik.SharedShard.Calls.{put_slot, pop_slot, take_found, take_slot, delete_key}
use traffik.SharedShard.Ownership.{occurs, Owns, IsShard, Steps, still, bumped, compose, unmoved}
use traffik.SharedShard.Taking.{Taken, shard-IsTable, bump-lt}
use traffik.SharedShard.Atomic.{take_slot-cases, delete_key-cases}

-- An atomic step of some process: the first phase of a write, a delete, or the write of a slot.
pub data Atomic : Type 0 where
  takes removes : Str → Atomic
  writes : ℕ → (Slot → Slot) → Atomic

module _ (hash : Str → ℕ) (capacity rebuild_threshold : ℕ) where
  unfoldable pub apply : Atomic → SharedShard → SharedShard
  apply (takes key) s = (take_slot hash capacity rebuild_threshold key s).1
  apply (removes key) s = (delete_key hash capacity rebuild_threshold key s).1
  apply (writes slot_idx f) s = record s { slots = update slot_idx (f (s.slots slot_idx)) s.slots }

  unfoldable pub apply_all : List Atomic → SharedShard → SharedShard
  unfolding apply
  apply_all [] s = s
  apply_all (a ∷ steps) s = apply_all steps (apply a s)

module _ (hash : Str → ℕ) (capacity rebuild_threshold max_keys : ℕ)
    (fits : max_keys + rebuild_threshold ≤ capacity) where
  -- A key that is too long is nowhere in the table.
  long_absent :
      (key : Str) (s : SharedShard)
      → IsShard hash capacity rebuild_threshold max_keys s
      → key_max_bytes < length key
      → (slot : ℕ) → Owns hash capacity rebuild_threshold s key slot
      → ⊥
  long_absent key s v long slot (j, lt, o) = omega (arith, v.probed.short j key slot lt o, long)

  -- A write with a key of more than 200 bytes pops a slot of the free stack and then raises: the slot
  -- is in use by no key, and is free no more.
  pub long_key-leaks :
      (key : Str) (slot_idx : ℕ) (free : List ℕ) (s : SharedShard)
      → IsShard hash capacity rebuild_threshold max_keys s
      → key_max_bytes < length key
      → s.free ≡ slot_idx ∷ free
      → take_slot hash capacity rebuild_threshold key s
        ≡ (err backend_error, bump slot_idx (record s { free = free }))
  unfolding take_slot take_found pop_slot put_slot upsert
  long_key-leaks key slot_idx free s v long f =
      let nowhere =
        get_slot-none hash capacity key s.table
          (shard-IsTable hash capacity rebuild_threshold max_keys fits s v)
          (long_absent key s v long) in
      let too_long : ltb key_max_bytes (length key) ≡ true = ground (arith, long) in
      ap (λ (o : Result (Option ℕ)). take_found hash capacity rebuild_threshold key o s) nowhere
      ∙ ap (λ (l : List ℕ). pop_slot hash capacity rebuild_threshold key l s) f
      ∙ rw (too_long) refl

  full_raises :
      (key : Str) (s : SharedShard)
      → IsShard hash capacity rebuild_threshold max_keys s
      → key_max_bytes < length key
      → s.free ≡ []
      → take_slot hash capacity rebuild_threshold key s ≡ (err backend_error, s)
  unfolding take_slot take_found pop_slot
  full_raises key s v long f =
      let nowhere =
        get_slot-none hash capacity key s.table
          (shard-IsTable hash capacity rebuild_threshold max_keys fits s v)
          (long_absent key s v long) in
      ap (λ (o : Result (Option ℕ)). take_found hash capacity rebuild_threshold key o s) nowhere
      ∙ ap (λ (l : List ℕ). pop_slot hash capacity rebuild_threshold key l s) f

  abbrev Next : ℕ → SharedShard → SharedShard → Type 0
  Next n s s' =
      IsShard hash capacity rebuild_threshold max_keys s'
      × Steps hash capacity rebuild_threshold n s s'

  unchanged : (s : SharedShard) → IsShard hash capacity rebuild_threshold max_keys s → Next 1 s s
  unchanged s v =
      (v, still hash capacity rebuild_threshold s s v.words (λ slot. refl) (λ k slot o. o))

  long-Next :
      (key : Str) (free : List ℕ) (s : SharedShard)
      → IsShard hash capacity rebuild_threshold max_keys s
      → key_max_bytes < length key
      → s.free ≡ free
      → Next 1 s (take_slot hash capacity rebuild_threshold key s).1
  unfolding occurs take_slot take_found pop_slot
  long-Next key [] s v long f =
      subst (λ (r : Result (ℕ × ℕ) × SharedShard). Next 1 s r.1) (sym (full_raises key s v long f))
        (unchanged s v)
  long-Next key (slot_idx ∷ free) s v long f =
      let held = λ (slot : ℕ). ap (occurs slot) f in
      subst (λ (r : Result (ℕ × ℕ) × SharedShard). Next 1 s r.1)
        (sym (long_key-leaks key slot_idx free s v long f))
        (
          record {
            probed = v.probed;
            tidy = v.tidy;
            owner = v.owner;
            budget = omega (arith, v.budget, ap length f);
            unowned = λ k slot o. omega (arith, v.unowned k slot o, held slot);
            once = λ slot. omega (arith, v.once slot, held slot);
            words = λ slot. bump-lt slot_idx slot (record s { free = free }) v.words;
          },
          bumped hash capacity rebuild_threshold slot_idx s
              (bump slot_idx (record s { free = free })) v.words (λ slot. refl) (λ k slot o _. o),
        )

  take-Next :
      (key : Str) (s : SharedShard)
      → IsShard hash capacity rebuild_threshold max_keys s
      → Next 1 s (take_slot hash capacity rebuild_threshold key s).1
  take-Next key s v = elim (Bool-cases (ltb key_max_bytes (length key))) [
    | inl long ↦ long-Next key s.free s v (ground (arith, long)) refl
    | inr short ↦
        elim (take_slot-cases hash capacity rebuild_threshold max_keys fits key s v
          (ground (arith, short))) [
            | inl (r, s', e, t) ↦
                subst (λ (r : Result (ℕ × ℕ) × SharedShard). Next 1 s r.1) (sym e)
                  (t.valid, t.steps)
            | inr (e, _) ↦
                subst (λ (r : Result (ℕ × ℕ) × SharedShard). Next 1 s r.1) (sym e) (unchanged s v)
          ]
  ]

  -- The first phase of a write takes a slot, or raises and leaves a well-formed shard.
  pub take-cases :
      (key : Str) (s : SharedShard)
      → IsShard hash capacity rebuild_threshold max_keys s
      → ((r : ℕ × ℕ) × (s' : SharedShard) × (take_slot hash capacity rebuild_threshold key s
            ≡ (ok r, s'))
          × Taken hash capacity rebuild_threshold max_keys fits key s r s')
        ⊎ ((s' : SharedShard) × (take_slot hash capacity rebuild_threshold key s
              ≡ (err backend_error, s'))
            × IsShard hash capacity rebuild_threshold max_keys s')
  take-cases key s v = elim (Bool-cases (ltb key_max_bytes (length key))) [
    | inl long ↦ raises key s v (ground (arith, long)) s.free refl
    | inr short ↦
        elim (take_slot-cases hash capacity rebuild_threshold max_keys fits key s v
          (ground (arith, short))) [ inl t ↦ inl t | inr (e, _) ↦ inr (s, e, v) ]
  ]
    where
      raises :
          (key : Str) (s : SharedShard)
          → IsShard hash capacity rebuild_threshold max_keys s
          → key_max_bytes < length key
          → (free : List ℕ) → s.free ≡ free
          → ((r : ℕ × ℕ) × (s' : SharedShard) × (take_slot hash capacity rebuild_threshold key s
                ≡ (ok r, s'))
              × Taken hash capacity rebuild_threshold max_keys fits key s r s')
            ⊎ ((s' : SharedShard) × (take_slot hash capacity rebuild_threshold key s
                  ≡ (err backend_error, s'))
                × IsShard hash capacity rebuild_threshold max_keys s')
      raises key s v long [] f = inr (s, full_raises key s v long f, v)
      raises key s v long (slot_idx ∷ free) f =
          let e = long_key-leaks key slot_idx free s v long f in
          inr (
            bump slot_idx (record s { free = free }),
            e,
            subst
                (λ (r : Result (ℕ × ℕ) × SharedShard).
                  IsShard hash capacity rebuild_threshold max_keys r.1)
                e (take-Next key s v).0,
          )

  delete-Next :
      (key : Str) (s : SharedShard)
      → IsShard hash capacity rebuild_threshold max_keys s
      → Next 1 s (delete_key hash capacity rebuild_threshold key s).1
  delete-Next key s v =
      elim (delete_key-cases hash capacity rebuild_threshold max_keys fits key s v) [
        | inl (slot, s', e, d) ↦
            subst (λ (r : Result Bool × SharedShard). Next 1 s r.1) (sym e) (d.valid, d.steps)
        | inr (e, _) ↦
            subst (λ (r : Result Bool × SharedShard). Next 1 s r.1) (sym e) (unchanged s v)
      ]

  pub written-IsShard :
      (slots : ℕ → Slot) (s : SharedShard)
      → IsShard hash capacity rebuild_threshold max_keys s
      → IsShard hash capacity rebuild_threshold max_keys (record s { slots = slots })
  written-IsShard slots s v = record {
    probed = v.probed;
    tidy = v.tidy;
    budget = v.budget;
    owner = v.owner;
    unowned = v.unowned;
    once = v.once;
    words = v.words;
  }

  apply-Next :
      (a : Atomic) (s : SharedShard)
      → IsShard hash capacity rebuild_threshold max_keys s
      → Next 1 s (apply hash capacity rebuild_threshold a s)
  unfolding apply
  apply-Next (takes key) s v = take-Next key s v
  apply-Next (removes key) s v = delete-Next key s v
  apply-Next (writes slot_idx f) s v =
      let s' : SharedShard = record s { slots = update slot_idx (f (s.slots slot_idx)) s.slots } in
      (
        written-IsShard s'.slots s v,
        still hash capacity rebuild_threshold s s' v.words (λ slot. refl) (λ k slot o. o),
      )

  pub apply_all-Next :
      (steps : List Atomic) (s : SharedShard)
      → IsShard hash capacity rebuild_threshold max_keys s
      → Next (length steps) s (apply_all hash capacity rebuild_threshold steps s)
  unfolding apply_all
  apply_all-Next [] s v = (
    v,
    record {
      bumps = λ _. 0;
      few = λ slot. omega arith;
      counted = λ slot. omega (arith, v.words slot);
      keeps = λ k slot o e. o;
    },
  )
  apply_all-Next (a ∷ steps) s v =
      let (v', st) = apply-Next a s v in
      let (v'', st') = apply_all-Next steps (apply hash capacity rebuild_threshold a s) v' in
      let one : 1 + length steps ≡ length (a ∷ steps) = omega arith in
      let s'' =
        apply_all hash capacity rebuild_threshold steps
          (apply hash capacity rebuild_threshold a s) in
      (
        v'',
        subst (λ n. Steps hash capacity rebuild_threshold n s s'') one
            (compose hash capacity rebuild_threshold 1 (length steps) s
              (apply hash capacity rebuild_threshold a s) s'' st st'),
      )

  -- A key that owns a slot still owns it after fewer than 2 ^ 32 steps of any processes, if the slot's
  -- generation is the same then.
  pub generation-Owns :
      (steps : List Atomic) (s : SharedShard) (key : Str) (slot : ℕ)
      → IsShard hash capacity rebuild_threshold max_keys s
      → Owns hash capacity rebuild_threshold s key slot
      → length steps < 2 ^ 32
      → (apply_all hash capacity rebuild_threshold steps s).generations slot ≡ s.generations slot
      → Owns hash capacity rebuild_threshold
          (apply_all hash capacity rebuild_threshold steps s)
          key
          slot
  generation-Owns steps s key slot v o lt e =
      let (v', st) = apply_all-Next steps s v in
      unmoved hash capacity rebuild_threshold (length steps) s
        (apply_all hash capacity rebuild_threshold steps s) key slot lt (v.words slot) st o e
