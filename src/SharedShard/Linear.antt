-- ===== src/SharedShard/Linear.antt =====
-- The calls in two phases (src/traffik/backends/multiprocess.py) among the steps of other processes: each
-- takes effect in its second phase, on the slot that its key owns then.
use traffik.Base.{
  ℕ, zero, suc, ◌+◌, ◌^◌, ◌≤◌, ◌<◌, ◌≡◌, ◌≢◌, refl, sym, ap, ◌∙◌, true, false, Option, none, List,
  [], length, ◌==◌, Bool-cases, ==_iff, inl, inr,
}
use traffik.Base.Text.{Str}
use traffik.Result.{backend_error, Result, ok, err}
use traffik.SharedTable.{key_max_bytes}
use traffik.SharedShard.{Slot, SharedShard, on_slot}
use traffik.SharedTable.Methods.{get_slot-cases}
use traffik.SharedShard.Calls.{second_phase, after_taking, retrying, get, get_found}
use traffik.SharedShard.Ownership.{Owns, IsShard}
use traffik.SharedShard.Taking.{Taken, shard-IsTable}
use traffik.SharedShard.Atomic.{take_slot-cases}
use traffik.SharedShard.Generations.{Atomic, apply_all, apply_all-Next, generation-Owns, take-cases}
use traffik.SharedShard.View.{text_of, read-visible, view, view-Owns}

abbrev answer : Result (Option Str) → SharedShard → Result (Option Str) × SharedShard
answer r s = (r, s)

module _ (hash : Str → ℕ) (capacity rebuild_threshold max_keys : ℕ)
    (fits : max_keys + rebuild_threshold ≤ capacity) where
  -- What a call that writes comes to: an error, or the write of the slot that its key owns.
  pub data Outcome {A : Type 0} (key : Str) (write : Slot → Result A × Slot)
      (r : Result A × SharedShard) : Type 0 where
    failed :
        (s' : SharedShard)
        → IsShard hash capacity rebuild_threshold max_keys s'
        → r ≡ (err backend_error, s')
        → Outcome key write r
    wrote :
        (slot : ℕ) (s' : SharedShard)
        → IsShard hash capacity rebuild_threshold max_keys s'
        → Owns hash capacity rebuild_threshold s' key slot
        → r ≡ on_slot slot write s'
        → Outcome key write r

  -- Whatever steps other processes take between the two phases of the attempts, fewer than 2 ^ 32 at a
  -- time, a call that writes fails, or it writes once, in a slot that its key owns at that moment and
  -- no other key does; in both cases it leaves a well-formed shard.
  pub retrying-Outcome :
      {A : Type 0} (events : ℕ → List Atomic) (key : Str) (write : Slot → Result A × Slot) (n i : ℕ)
      (s : SharedShard)
      → IsShard hash capacity rebuild_threshold max_keys s
      → ((j : ℕ) → length (events j) < 2 ^ 32)
      → Outcome key write (
          retrying hash capacity rebuild_threshold
            (λ j. apply_all hash capacity rebuild_threshold (events j))
            key
            write
            n
            i
            s)
  unfolding retrying after_taking second_phase
  retrying-Outcome events key write zero i s v few = failed s v refl
  retrying-Outcome events key write (suc n) i s v few =
      elim (take-cases hash capacity rebuild_threshold max_keys fits key s v) [
        | inl (r, s', e, t) ↦
            let s'' = apply_all hash capacity rebuild_threshold (events i) s' in
            let v'' =
              (apply_all-Next hash capacity rebuild_threshold max_keys fits (events i) s'
                t.valid).0 in
            rw (e) (elim (Bool-cases (s''.generations r.0 == r.1)) [
              | inl same ↦
                  wrote r.0 s'' v''
                    (generation-Owns hash capacity rebuild_threshold max_keys fits (events i) s' key
                      r.0 t.valid t.owns (few i)
                      ((==_iff (s''.generations r.0) r.1).0 same ∙ sym t.generation))
                    (rw (same) refl)
              | inr moved ↦ rw (moved) (retrying-Outcome events key write n (i + 1) s'' v'' few)
            ])
        | inr (s', e, v') ↦ rw (e) (failed s' v' refl)
      ]

  -- A call that writes, with no other process about, succeeds in its first attempt if its key is short
  -- and is in the shard or a slot is free.
  pub retrying-alone :
      {A : Type 0} (key : Str) (write : Slot → Result A × Slot) (n i : ℕ) (s : SharedShard)
      → IsShard hash capacity rebuild_threshold max_keys s
      → length key ≤ key_max_bytes
      → s.free ≢ []
      → (r : ℕ × ℕ) × (s' : SharedShard) × Taken hash capacity rebuild_threshold max_keys fits key s
          r s'
        × (retrying hash capacity rebuild_threshold (λ j s. s) key write (suc n) i s
            ≡ on_slot r.0 write s')
  unfolding retrying after_taking second_phase
  retrying-alone key write n i s v short room =
      elim (take_slot-cases hash capacity rebuild_threshold max_keys fits key s v short) [
        | inl (r, s', e, t) ↦
            (r, s', t, rw (e, (==_iff (s'.generations r.0) r.1).1 t.generation) refl)
        | inr (e, full) ↦ elim (room full) [ ]
      ]

  -- What a read comes to, which finds the shard as `s` and then as `s'`: the text that `s'` shows for
  -- the key; or none, where the key was not in the table of `s`, or its slot is of another generation.
  pub data Answer (now : ℕ) (key : Str) (s s' : SharedShard) (r : Result (Option Str) × SharedShard)
      : Type 0 where
    missing :
        ((slot : ℕ) → Owns hash capacity rebuild_threshold s key slot → ⊥)
        → r ≡ (ok none, s)
        → Answer now key s s' r
    moved :
        (slot : ℕ)
        → Owns hash capacity rebuild_threshold s key slot
        → s'.generations slot ≢ s.generations slot
        → r ≡ (ok none, s')
        → Answer now key s s' r
    answered :
        (slot : ℕ)
        → Owns hash capacity rebuild_threshold s key slot
        → Owns hash capacity rebuild_threshold s' key slot
        → r ≡ (ok (text_of (view hash capacity now key s')), s')
        → Answer now key s s' r

  -- Whatever fewer than 2 ^ 32 steps other processes take between the two phases of `_get`, it answers
  -- what the shard shows for its key in the second phase, and none only where the key was not there
  -- in the first phase, or the generation of its slot has changed; it changes nothing itself.
  pub get-Answer :
      (events : List Atomic) (retries now : ℕ) (key : Str) (s : SharedShard)
      → IsShard hash capacity rebuild_threshold max_keys s
      → length events < 2 ^ 32
      → Answer now key s (apply_all hash capacity rebuild_threshold events s) (
          get hash capacity rebuild_threshold retries
            (λ j. apply_all hash capacity rebuild_threshold events)
            now
            key
            s)
  unfolding get get_found
  get-Answer events retries now key s v few =
      let s' = apply_all hash capacity rebuild_threshold events s in
      elim (get_slot-cases hash capacity key s.table
        (shard-IsTable hash capacity rebuild_threshold max_keys fits s v)) [
          | inl (slot, e, o) ↦ elim (Bool-cases (s'.generations slot == s.generations slot)) [
            | inl same ↦
                let o' =
                  generation-Owns hash capacity rebuild_threshold max_keys fits events s key slot v
                    o few ((==_iff (s'.generations slot) (s.generations slot)).0 same) in
                let v' =
                  (apply_all-Next hash capacity rebuild_threshold max_keys fits events s v).0 in
                answered slot o o' (
                  rw (e, same)
                    (ap (λ (t : Option Str). answer (ok t) s')
                      (read-visible now (s'.slots slot)
                        ∙ ap text_of (
                            sym (
                              view-Owns hash capacity rebuild_threshold max_keys fits now key slot
                                s' v' o')))))
            | inr other ↦
                moved slot o
                  (λ same.
                    true-neq
                      (sym ((==_iff (s'.generations slot) (s.generations slot)).1 same) ∙ other))
                  (rw (e, other) refl)
          ]
          | inr (e, absent) ↦ missing absent (rw (e) refl)
        ]
    where
      true-neq : true ≡ false → ⊥
      true-neq e = cc e
