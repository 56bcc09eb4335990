-- ===== src/SharedShard/Alone.antt =====
-- The calls of `MultiProcessInMemoryBackend` with no other process about (src/traffik/backends/multiprocess.py):
-- what they return, and what the shard shows after them.
use traffik.Base.{
  ℕ, zero, suc, ◌+◌, ◌≤◌, ◌<◌, ◌≡◌, ◌≢◌, refl, sym, ap, ◌∙◌, subst, [], length, ◌==◌, if◌then◌else◌,
  Bool-cases, ==_iff, inl, inr, arith,
}
use traffik.Base.Text.{Str, str_eq, str_eq_iff}
use traffik.Result.{Result}
use traffik.SharedTable.{update, key_max_bytes}
use traffik.SharedTable.Refine.{differ}
use traffik.SharedShard.{Slot, SharedShard, on_slot}
use traffik.SharedShard.Calls.{retrying}
use traffik.SharedShard.Ownership.{occurs, Owns, IsShard}
use traffik.SharedShard.Taking.{Taken}
use traffik.SharedShard.Generations.{written-IsShard}
use traffik.SharedShard.Linear.{retrying-alone}
use traffik.SharedShard.View.{visible, IsClear, view, view-Owns, view-agree, Taken-visible}

module _ (hash : Str → ℕ) (capacity rebuild_threshold max_keys : ℕ)
    (fits : max_keys + rebuild_threshold ≤ capacity) where
  -- A shard in which the write of one key changed what the shard showed.
  pub record Written (key : Str) (x : Slot) (s s' : SharedShard) : Type 0 where
    pub valid : IsShard hash capacity rebuild_threshold max_keys s'
    pub clear : IsClear s'
    pub shows :
        (t : ℕ) (k : Str)
        → view hash capacity t k s'
          ≡ (if str_eq key k then visible t x else view hash capacity t k s)

  Taken-Written :
      (key : Str) (x : Slot) (s s' : SharedShard) (r : ℕ × ℕ)
      → IsShard hash capacity rebuild_threshold max_keys s
      → IsClear s
      → Taken hash capacity rebuild_threshold max_keys fits key s r s'
      → Written key x s (record s' { slots = update r.0 x s'.slots })
  unfolding IsClear
  Taken-Written key x s s' r v clear taken =
      let after : SharedShard = record s' { slots = update r.0 x s'.slots } in
      let v' =
        written-IsShard hash capacity rebuild_threshold max_keys fits after.slots s' taken.valid in
      record {
        valid = v';
        clear = λ slot free.
            elsewhere slot (λ same. used (subst (λ i. 1 ≤ occurs i s'.free) (sym same) free))
            ∙ ap (λ (f : ℕ → Slot). (f slot).occupied) taken.same_slots
            ∙ clear slot (omega (arith, free, taken.fewer slot));
        shows = λ t k. elim (Bool-cases (str_eq key k)) [
          | inl same ↦ rw (same) (
              ap (λ k. view hash capacity t k after) (sym ((str_eq_iff key k).0 same))
              ∙ view-Owns hash capacity rebuild_threshold max_keys fits t key r.0 after v'
                  taken.owns
              ∙ ap (visible t) here)
          | inr other ↦
              let n = differ key k other in
              rw (other) (
                view-agree hash capacity rebuild_threshold max_keys fits t k s after v v'
                  (λ slot o. taken.others k slot o) (λ slot o. taken.others_inv k slot n o)
                  (λ slot o.
                    elsewhere_slot slot (λ same. n (
                      taken.valid.owner key k slot
                        (subst (λ i. Owns hash capacity rebuild_threshold s' key i) same taken.owns)
                        o))
                    ∙ ap (λ (f : ℕ → Slot). f slot) taken.same_slots))
        ];
      }
    where
      used : 1 ≤ occurs r.0 s'.free → ⊥
      used free = omega (arith, free, taken.valid.unowned key r.0 taken.owns)

      here : update r.0 x s'.slots r.0 ≡ x
      here = rw ((==_iff r.0 r.0).1 refl) refl

      elsewhere_slot : (slot : ℕ) → r.0 ≢ slot → update r.0 x s'.slots slot ≡ s'.slots slot
      elsewhere_slot slot n = elim (Bool-cases (r.0 == slot)) [
        | inl e ↦ elim (n ((==_iff r.0 slot).0 e)) [ ]
        | inr e ↦ rw (e) refl
      ]

      elsewhere :
          (slot : ℕ) → r.0 ≢ slot → (update r.0 x s'.slots slot).occupied ≡ (s'.slots slot).occupied
      elsewhere slot n = ap (λ (y : Slot). y.occupied) (elsewhere_slot slot n)

  -- A call that writes, with no other process about, applies its write to a slot that shows what the
  -- key stood for.
  pub write-alone :
      {A : Type 0} (write : Slot → Result A × Slot) (retries : ℕ) (key : Str) (s : SharedShard)
      → IsShard hash capacity rebuild_threshold max_keys s
      → IsClear s
      → length key ≤ key_max_bytes
      → s.free ≢ []
      → 0 < retries
      → (x : Slot) × (s' : SharedShard) × ((t : ℕ) → visible t x ≡ view hash capacity t key s)
        × (retrying hash capacity rebuild_threshold (λ j s. s) key write retries 0 s
            ≡ ((write x).0, s'))
        × Written key (write x).1 s s'
  write-alone write zero key s v clear short room positive = absurd (omega (arith, positive))
  write-alone write (suc n) key s v clear short room positive =
      let (r, s', taken, e) =
        retrying-alone hash capacity rebuild_threshold max_keys fits key write n 0 s v short room in
      let x = s'.slots r.0 in
      (
        x,
        (on_slot r.0 write s').1,
        λ t. Taken-visible hash capacity rebuild_threshold max_keys fits t key s s' r v clear taken,
        e,
        Taken-Written key (write x).1 s s' r v clear taken,
      )
