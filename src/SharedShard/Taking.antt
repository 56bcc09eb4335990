-- ===== src/SharedShard/Taking.antt =====
-- The atomic steps on a shard (src/traffik/backends/multiprocess.py): the first phase of a write, a
-- delete, and the write of a slot. Each keeps the ownership of the slots.
use traffik.Base.{
  ℕ, ◌+◌, ◌^◌, ◌≤◌, ◌<◌, ◌≡◌, ◌≢◌, refl, sym, ap, ◌∙◌, subst, false, List, ◌∷◌, length, ◌==◌,
  if◌then◌else◌, Bool-cases, inl, inr, ◌⊎◌, arith,
}
use traffik.Base.Text.{Str, str_eq, str_eq_iff}
use traffik.Result.{ok}
use traffik.SharedTable.{Table, key_max_bytes}
use traffik.SharedTable.Probe.{Maps}
use traffik.SharedTable.Methods.{IsTable, Upserted, upsert-Upserted}
use traffik.SharedTable.Update.{Maps-unique}
use traffik.SharedShard.{SharedShard, bump}
use traffik.SharedShard.Calls.{put_slot, pop_slot}
use traffik.SharedShard.Ownership.{occurs, Owns, IsShard, Steps, bumped}

pub bump-lt :
    (i j : ℕ) (s : SharedShard)
    → ((slot : ℕ) → s.generations slot < 2 ^ 32)
    → (bump i s).generations j < 2 ^ 32
bump-lt i j s w = elim (Bool-cases (i == j)) [ inl e ↦ rw (e) (omega arith) | inr e ↦ rw (e) (w j) ]

module _ (hash : Str → ℕ) (capacity rebuild_threshold max_keys : ℕ)
    (fits : max_keys + rebuild_threshold ≤ capacity) where
  pub shard-IsTable :
      (s : SharedShard)
      → IsShard hash capacity rebuild_threshold max_keys s
      → IsTable hash capacity s.table
  shard-IsTable s v = record {
    probed = v.probed;
    room = omega (arith, fits, v.budget, v.tidy.counted, v.tidy.not_due);
  }

  -- What the first phase leaves: the key owns the slot, and the others keep theirs.
  pub record Taken (key : Str) (s : SharedShard) (r : ℕ × ℕ) (s' : SharedShard) : Type 0 where
    pub valid : IsShard hash capacity rebuild_threshold max_keys s'
    pub owns : Owns hash capacity rebuild_threshold s' key r.0
    pub generation : s'.generations r.0 ≡ r.1
    pub steps : Steps hash capacity rebuild_threshold 1 s s'
    pub same_slots : s'.slots ≡ s.slots
    pub fresh : Owns hash capacity rebuild_threshold s key r.0 ⊎ (1 ≤ occurs r.0 s.free)
    pub fewer : (slot : ℕ) → occurs slot s'.free ≤ occurs slot s.free
    pub others :
        (k : Str) (slot : ℕ)
        → Owns hash capacity rebuild_threshold s k slot
        → Owns hash capacity rebuild_threshold s' k slot
    pub others_inv :
        (k : Str) (slot : ℕ)
        → key ≢ k
        → Owns hash capacity rebuild_threshold s' k slot
        → Owns hash capacity rebuild_threshold s k slot

  pub pop_slot-Taken :
      (key : Str) (slot_idx : ℕ) (free : List ℕ) (s : SharedShard)
      → IsShard hash capacity rebuild_threshold max_keys s
      → length key ≤ key_max_bytes
      → s.free ≡ slot_idx ∷ free
      → ((slot : ℕ) → Owns hash capacity rebuild_threshold s key slot → ⊥)
      → (r : ℕ × ℕ) × (s' : SharedShard) × (pop_slot hash capacity rebuild_threshold key
            (slot_idx ∷ free)
            s
          ≡ (ok r, s'))
        × Taken key s r s'
  unfolding pop_slot put_slot occurs
  pop_slot-Taken key slot_idx free s v short e absent =
      let (t, u, p) =
        upsert-Upserted hash capacity key slot_idx s.table (shard-IsTable s v) short in
      let popped : SharedShard = bump slot_idx (record s { free = free }) in
      let held : (slot : ℕ)
          → occurs slot s.free ≡ (if slot_idx == slot then 1 else 0) + occurs slot free =
        λ slot. ap (occurs slot) e in
      let kept = λ (k : Str) (slot : ℕ) (o : Owns hash capacity rebuild_threshold s k slot).
        p.others k slot
          (λ same.
            absent slot (subst (λ k. Owns hash capacity rebuild_threshold s k slot) (sym same) o))
          o in
      let other_slot = λ (k : Str) (slot : ℕ) (o : Owns hash capacity rebuild_threshold s k slot).
        not_free slot_idx slot free (v.unowned k slot o) (held slot) in
      (
        (slot_idx, popped.generations slot_idx),
        record popped { table = t },
        rw (u) refl,
        record {
          valid = record {
            probed = p.probed;
            tidy = record {
              counted = omega (arith, v.tidy.counted, p.graves_le, p.same_count);
              not_due = omega (arith, v.tidy.not_due, p.same_count);
            };
            budget = omega (arith, v.budget, p.live_le, ap length e);
            owner = λ k k' slot o o'. owner_put t key slot_idx s p v other_slot k k' slot o o';
            unowned = λ k slot o. elim (Bool-cases (str_eq key k)) [
              | inl same ↦
                  let here : slot_idx ≡ slot =
                    put_same t key slot_idx s p k slot ((str_eq_iff key k).0 same) o in
                  taken_free slot_idx slot free here (v.once slot) (held slot)
              | inr differ ↦
                  gone_free slot_idx slot free
                    (v.unowned k slot (p.others_inv k slot (different key k differ) o)) (held slot)
            ];
            once = λ slot. omega (arith, v.once slot, held slot);
            words = λ slot. bump-lt slot_idx slot (record s { free = free }) v.words;
          };
          owns = p.here;
          generation = refl;
          steps =
              bumped hash capacity rebuild_threshold slot_idx s (record popped { table = t })
                v.words (λ slot. refl) (λ k slot o _. kept k slot o);
          same_slots = refl;
          fresh = inr (ground (arith, held slot_idx));
          fewer = λ slot. omega (arith, held slot);
          others = kept;
          others_inv = p.others_inv;
        },
      )
    where
      different : (key k : Str) → str_eq key k ≡ false → key ≢ k
      different key k d e = ground (arith, (str_eq_iff key k).1 e, d)

      not_free :
          (i slot : ℕ) (free : List ℕ) {n : ℕ}
          → n ≡ 0
          → n ≡ (if i == slot then 1 else 0) + occurs slot free
          → i ≢ slot
      not_free i slot free z h same = ground (arith, z, h, same)

      gone_free :
          (i slot : ℕ) (free : List ℕ) {n : ℕ}
          → n ≡ 0
          → n ≡ (if i == slot then 1 else 0) + occurs slot free
          → occurs slot free ≡ 0
      gone_free i slot free z h = omega (arith, z, h)

      taken_free :
          (i slot : ℕ) (free : List ℕ) {n : ℕ}
          → i ≡ slot
          → n ≤ 1
          → n ≡ (if i == slot then 1 else 0) + occurs slot free
          → occurs slot free ≡ 0
      taken_free i slot free same o h = ground (arith, same, o, h)

      put_same :
          (t : Table) (key : Str) (slot_idx : ℕ) (s : SharedShard)
          → Upserted hash capacity key slot_idx s.table t
          → (k : Str) (slot : ℕ) → key ≡ k
          → Maps hash capacity t.buckets k slot
          → slot_idx ≡ slot
      put_same t key slot_idx s p k slot same o =
          Maps-unique hash capacity t.buckets key slot_idx slot p.probed p.here
            (subst (λ k. Maps hash capacity t.buckets k slot) (sym same) o)

      owner_put :
          (t : Table) (key : Str) (slot_idx : ℕ) (s : SharedShard)
          → Upserted hash capacity key slot_idx s.table t
          → IsShard hash capacity rebuild_threshold max_keys s
          → ((k : Str) (slot : ℕ) → Owns hash capacity rebuild_threshold s k slot → slot_idx ≢ slot)
          → (k k' : Str) (slot : ℕ) → Maps hash capacity t.buckets k slot
          → Maps hash capacity t.buckets k' slot
          → k ≡ k'
      owner_put t key slot_idx s p v other k k' slot o o' = elim (Bool-cases (str_eq key k)) [
        | inl a ↦ elim (Bool-cases (str_eq key k')) [
          | inl b ↦ sym ((str_eq_iff key k).0 a) ∙ (str_eq_iff key k').0 b
          | inr b ↦
              elim (other k' slot (p.others_inv k' slot (different key k' b) o')
                (put_same t key slot_idx s p k slot ((str_eq_iff key k).0 a) o)) [ ]
        ]
        | inr a ↦ elim (Bool-cases (str_eq key k')) [
          | inl b ↦
              elim (other k slot (p.others_inv k slot (different key k a) o)
                (put_same t key slot_idx s p k' slot ((str_eq_iff key k').0 b) o')) [ ]
          | inr b ↦
              v.owner k k' slot (p.others_inv k slot (different key k a) o)
                (p.others_inv k' slot (different key k' b) o')
        ]
      ]
