-- ===== src/SharedShard/Removal.antt =====
-- `_delete` (src/traffik/backends/multiprocess.py): what it answers, and what the shard shows after it.
use traffik.Base.{
  ℕ, ◌+◌, ◌%◌, ◌^◌, ◌≤◌, ◌≡◌, ◌≢◌, refl, ap, ◌∙◌, subst, Bool, true, false, none, ◌∷◌,
  if◌then◌else◌, Bool-cases, inl, inr, ◌↔◌,
}
use traffik.Base.Text.{Str, str_eq, str_eq_iff}
use traffik.Result.{ok}
use traffik.SharedTable.Methods.{get_slot-none}
use traffik.SharedTable.Update.{Maps-unique}
use traffik.SharedTable.Refine.{differ}
use traffik.SharedShard.{Slot, SharedShard}
use traffik.SharedShard.Calls.{delete_key}
use traffik.SharedShard.Ownership.{Owns, IsShard}
use traffik.SharedShard.Taking.{shard-IsTable}
use traffik.SharedShard.Atomic.{delete_key-cases}
use traffik.SharedShard.View.{IsClear, view, view_in, view-agree}

module _ (hash : Str → ℕ) (capacity rebuild_threshold max_keys : ℕ)
    (fits : max_keys + rebuild_threshold ≤ capacity) where
  -- What a delete leaves: the key is gone, and every other key stands for what it stood for.
  pub record Gone (key : Str) (s s' : SharedShard) : Type 0 where
    pub valid : IsShard hash capacity rebuild_threshold max_keys s'
    pub clear : IsClear s'
    pub shows :
        (t : ℕ) (k : Str)
        → view hash capacity t k s' ≡ (if str_eq key k then none else view hash capacity t k s)

  -- What a delete does to the slot of its key: it is cleared, the top of the free stack, and of the next
  -- generation.
  pub record Freed (slot : ℕ) (s s' : SharedShard) : Type 0 where
    pub pushed : s'.free ≡ slot ∷ s.free
    pub cleared : (s'.slots slot).occupied ≡ false
    pub advanced : s'.generations slot ≡ (s.generations slot + 1) % 2 ^ 32

  -- `_delete`, under both semaphores, tells whether the key was in the table, and changes nothing if it
  -- was not. The key is gone then, and every other key stands for what it stood for; the slot that
  -- the key had is cleared, pushed on the free stack, and its generation moves on.
  pub delete_key-Gone :
      (key : Str) (s : SharedShard)
      → IsShard hash capacity rebuild_threshold max_keys s
      → IsClear s
      → (b : Bool) × (s' : SharedShard) × (delete_key hash capacity rebuild_threshold key s
          ≡ (ok b, s'))
        × ((b ≡ true) ↔ ((slot : ℕ) × Owns hash capacity rebuild_threshold s key slot))
        × Gone key s s'
        × ((slot : ℕ) → Owns hash capacity rebuild_threshold s key slot → Freed slot s s')
        × (b ≡ false → s' ≡ s)
  unfolding IsClear view_in
  delete_key-Gone key s v clear =
      elim (delete_key-cases hash capacity rebuild_threshold max_keys fits key s v) [
        | inl (slot, s', e, d) ↦ (
          true,
          s',
          e,
          ((λ _. (slot, d.owned)), (λ _. refl)),
          record {
            valid = d.valid;
            clear = λ i free. elim (d.freed i free) [
              | inl e ↦ e
              | inr (free, e) ↦ ap (λ (x : Slot). x.occupied) e ∙ clear i free
            ];
            shows = λ t k. elim (Bool-cases (str_eq key k)) [
              | inl same ↦ rw (same) (
                  ap (view_in t s') (
                    get_slot-none hash capacity k s'.table
                      (shard-IsTable hash capacity rebuild_threshold max_keys fits s' d.valid)
                      (subst (λ k. (i : ℕ) → Owns hash capacity rebuild_threshold s' k i → ⊥)
                        ((str_eq_iff key k).0 same) d.absent)))
              | inr other ↦ rw (other) (
                  view-agree hash capacity rebuild_threshold max_keys fits t k s s' v d.valid
                    (λ i. d.others k i (differ key k other)) (λ i. d.others_inv k i)
                    (λ i o.
                      d.same_slots i (not_owned key k i slot other d.owned (d.others_inv k i o))))
            ];
          },
          (λ i o.
              subst (λ i. Freed i s s')
                (Maps-unique hash capacity s.table.buckets key slot i v.probed d.owned o)
                (record { pushed = d.pushed; cleared = d.cleared; advanced = d.advanced })),
          (λ n. elim (true-neq n) [ ]),
        )
        | inr (e, absent) ↦ (
          false,
          s,
          e,
          ((λ n. elim (false-neq n) [ ]), (λ o. elim (absent o.0 o.1) [ ])),
          record {
            valid = v;
            clear = clear;
            shows = λ t k. elim (Bool-cases (str_eq key k)) [
              | inl same ↦ rw (same) (
                  ap (view_in t s) (
                    get_slot-none hash capacity k s.table
                      (shard-IsTable hash capacity rebuild_threshold max_keys fits s v)
                      (subst (λ k. (i : ℕ) → Owns hash capacity rebuild_threshold s k i → ⊥)
                        ((str_eq_iff key k).0 same) absent)))
              | inr other ↦ rw (other) refl
            ];
          },
          (λ i o. elim (absent i o) [ ]),
          (λ _. refl),
        )
      ]
    where
      true-neq : true ≡ false → ⊥
      true-neq e = cc e

      false-neq : false ≡ true → ⊥
      false-neq e = cc e

      not_owned :
          (key k : Str) (i slot : ℕ)
          → str_eq key k ≡ false
          → Owns hash capacity rebuild_threshold s key slot
          → Owns hash capacity rebuild_threshold s k i
          → slot ≢ i
      not_owned key k i slot other o o' same =
          differ key k other
            (v.owner key k i (subst (λ i. Owns hash capacity rebuild_threshold s key i) same o) o')
