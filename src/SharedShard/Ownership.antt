-- ===== src/SharedShard/Ownership.antt =====
-- Which slots of a shard belong to which keys (src/traffik/backends/multiprocess.py): every slot belongs to
-- one key, or is free once, or to nobody.
use traffik.Base.{
  ℕ, ◌+◌, ◌%◌, ◌^◌, ◌≤◌, ◌<◌, ◌≡◌, ◌≢◌, ap, ◌∙◌, List, [], ◌∷◌, length, ◌==◌, if◌then◌else◌,
  Bool-cases, ==_iff, inl, inr, arith,
}
use traffik.Base.Text.{Str}
use traffik.SharedTable.Probe.{Maps, IsProbed}
use traffik.SharedTable.Methods.{live}
use traffik.SharedTable.Delete.{IsTidy}
use traffik.SharedShard.{SharedShard, bump}

-- How often a slot stands in the free stack.
unfoldable pub occurs : ℕ → List ℕ → ℕ
occurs x [] = 0
occurs x (y ∷ free) = (if y == x then 1 else 0) + occurs x free

module _ (hash : Str → ℕ) (capacity rebuild_threshold : ℕ) where
  abbrev pub Owns : SharedShard → Str → ℕ → Type 0
  Owns s key slot_idx = Maps hash capacity s.table.buckets key slot_idx

  pub record IsShard (max_keys : ℕ) (s : SharedShard) : Type 0 where
    pub probed : IsProbed hash capacity s.table.buckets
    pub tidy : IsTidy hash capacity rebuild_threshold s.table
    pub budget : live hash capacity s.table + length s.free ≤ max_keys
    pub owner : (k k' : Str) (slot : ℕ) → Owns s k slot → Owns s k' slot → k ≡ k'
    pub unowned : (k : Str) (slot : ℕ) → Owns s k slot → occurs slot s.free ≡ 0
    pub once : (slot : ℕ) → occurs slot s.free ≤ 1
    pub words : (slot : ℕ) → s.generations slot < 2 ^ 32

  -- At most `n` bumps of the generations of each slot lie between two shards, and a key keeps a slot that
  -- was not bumped.
  pub record Steps (n : ℕ) (s s' : SharedShard) : Type 0 where
    pub bumps : ℕ → ℕ
    pub few : (slot : ℕ) → bumps slot ≤ n
    pub counted : (slot : ℕ) → s'.generations slot ≡ (s.generations slot + bumps slot) % 2 ^ 32
    pub keeps : (k : Str) (slot : ℕ) → Owns s k slot → bumps slot ≡ 0 → Owns s' k slot

  pub still :
      (s s' : SharedShard)
      → ((slot : ℕ) → s.generations slot < 2 ^ 32)
      → ((slot : ℕ) → s'.generations slot ≡ s.generations slot)
      → ((k : Str) (slot : ℕ) → Owns s k slot → Owns s' k slot)
      → Steps 1 s s'
  still s s' w g k = record {
    bumps = λ _. 0;
    few = λ slot. omega arith;
    counted = λ slot. omega (arith, g slot, w slot);
    keeps = λ key slot o _. k key slot o;
  }

  pub bumped :
      (slot_idx : ℕ) (s s' : SharedShard)
      → ((slot : ℕ) → s.generations slot < 2 ^ 32)
      → ((slot : ℕ) → s'.generations slot ≡ (bump slot_idx s).generations slot)
      → ((k : Str) (slot : ℕ) → Owns s k slot → slot_idx ≢ slot → Owns s' k slot)
      → Steps 1 s s'
  bumped slot_idx s s' w g k = record {
    bumps = λ slot. if slot_idx == slot then 1 else 0;
    few = λ slot. ground arith;
    counted = λ slot. g slot ∙ counted_bump slot_idx slot (w slot);
    keeps = λ key slot o e. k key slot o (λ same. ground (arith, same, e));
  }
    where
      counted_bump :
          (i slot : ℕ)
          → s.generations slot < 2 ^ 32
          → (bump i s).generations slot
            ≡ (s.generations slot + (if i == slot then 1 else 0)) % 2 ^ 32
      counted_bump i slot lt = elim (Bool-cases (i == slot)) [
        | inl e ↦ rw (e) (ap (λ j. (s.generations j + 1) % 2 ^ 32) ((==_iff i slot).0 e))
        | inr e ↦ rw (e) (omega (arith, lt))
      ]

  pub compose :
      (n m : ℕ) (s s' s'' : SharedShard) → Steps n s s' → Steps m s' s'' → Steps (n + m) s s''
  compose n m s s' s'' a b = record {
    bumps = λ slot. a.bumps slot + b.bumps slot;
    few = λ slot. omega (arith, a.few slot, b.few slot);
    counted = λ slot. omega (arith, a.counted slot, b.counted slot);
    keeps =
        λ key slot o e. b.keeps key slot (a.keeps key slot o (omega (arith, e))) (omega (arith, e));
  }

  -- A generation that is what it was, with fewer bumps than a word counts, was not bumped.
  pub unmoved :
      (n : ℕ) (s s' : SharedShard) (k : Str) (slot : ℕ)
      → n < 2 ^ 32
      → s.generations slot < 2 ^ 32
      → Steps n s s'
      → Owns s k slot
      → s'.generations slot ≡ s.generations slot
      → Owns s' k slot
  unmoved n s s' k slot lt w st o e =
      st.keeps k slot o (omega (arith, lt, w, e, st.counted slot, st.few slot))
