-- ===== src/SharedShard/Start.antt =====
-- A shard as `start` leaves it (src/traffik/backends/multiprocess.py): the memory is zeroed and every slot is
-- on the free stack, the first on top.
use traffik.Base.{
  ℕ, zero, suc, ◌+◌, ◌≤◌, ◌<◌, ◌≡◌, refl, sym, ap, false, none, List, [], ◌∷◌, length, ◌==◌,
  Bool-cases, inl, inr, arith,
}
use traffik.Base.Int.{pos}
use traffik.Base.Text.{Str}
use traffik.SharedTable.{blank}
use traffik.SharedTable.Probe.{Maps}
use traffik.SharedTable.Counts.{is_occupied, is_tombstone, count_blank}
use traffik.SharedTable.Update.{occupied-empty}
use traffik.SharedTable.Methods.{get_slot-none}
use traffik.SharedTable.Rebuild.{blank-IsProbed}
use traffik.SharedShard.{string_kind, SharedShard}
use traffik.SharedShard.Ownership.{occurs, IsShard}
use traffik.SharedShard.Taking.{shard-IsTable}
use traffik.SharedShard.View.{view, view_in, IsClear}

-- The slots from `i` on, `n` of them.
unfoldable pub slots_from : ℕ → ℕ → List ℕ
slots_from zero i = []
slots_from (suc n) i = i ∷ slots_from n (i + 1)

-- A shard of `start`.
unfoldable pub start_shard : ℕ → SharedShard
unfolding slots_from
start_shard max_keys_per_shard = record {
  table = blank;
  free = slots_from max_keys_per_shard 0;
  generations = λ _. 0;
  slots = λ _. record {
    kind = string_kind;
    value = [];
    int_value = pos 0;
    expires_at = 0;
    occupied = false;
  };
}

length-slots_from : (n i : ℕ) → length (slots_from n i) ≡ n
unfolding slots_from
length-slots_from zero i = refl
length-slots_from (suc n) i = omega (arith, length-slots_from n (i + 1))

occurs-before : (n i x : ℕ) → x < i → occurs x (slots_from n i) ≡ 0
unfolding slots_from occurs
occurs-before zero i x lt = refl
occurs-before (suc n) i x lt = ground (arith, lt, occurs-before n (i + 1) x (omega (arith, lt)))

occurs-once : (n i x : ℕ) → occurs x (slots_from n i) ≤ 1
unfolding slots_from occurs
occurs-once zero i x = omega arith
occurs-once (suc n) i x = elim (Bool-cases (i == x)) [
  | inl e ↦ rw (e) (omega (arith, occurs-before n (i + 1) x (ground (arith, e))))
  | inr e ↦ rw (e) (omega (arith, occurs-once n (i + 1) x))
]

module _ (hash : Str → ℕ) (capacity rebuild_threshold max_keys : ℕ)
    (fits : max_keys + rebuild_threshold ≤ capacity) where
  nobody : (k : Str) (slot : ℕ) → Maps hash capacity blank.buckets k slot → ⊥
  nobody k slot (j, _, e) = occupied-empty (sym e)

  -- A shard as it is started is well-formed, its free slots are cleared, and it shows nothing, as long
  -- as a rebuild is not due with no tombstone.
  pub start_shard-IsShard :
      0 < rebuild_threshold
      → IsShard hash capacity rebuild_threshold max_keys (start_shard max_keys)
        × IsClear (start_shard max_keys)
        × ((t : ℕ) (k : Str) → view hash capacity t k (start_shard max_keys) ≡ none)
  unfolding start_shard IsClear view_in
  start_shard-IsShard positive =
      let v : IsShard hash capacity rebuild_threshold max_keys (start_shard max_keys) = record {
        probed = blank-IsProbed hash capacity;
        tidy = record {
          counted = omega (arith, count_blank is_tombstone capacity refl);
          not_due = positive;
        };
        budget = omega (arith, count_blank is_occupied capacity refl, length-slots_from max_keys 0);
        owner = λ k k' slot o _. elim (nobody k slot o) [ ];
        unowned = λ k slot o. elim (nobody k slot o) [ ];
        once = λ slot. occurs-once max_keys 0 slot;
        words = λ slot. omega arith;
      } in
      (
        v,
        (λ slot _. refl),
        λ t k. ap (view_in t (start_shard max_keys)) (
            get_slot-none hash capacity k blank
              (shard-IsTable hash capacity rebuild_threshold max_keys fits (start_shard max_keys) v)
              (nobody k)),
      )
