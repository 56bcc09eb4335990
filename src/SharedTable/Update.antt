-- ===== src/SharedTable/Update.antt =====
-- What the writes of a bucket (src/traffik/backends/multiprocess.py) do to the paths of the keys and to
-- the slots that they map to.
use traffik.Base.{ℕ, ◌≤◌, ◌<◌, ◌≡◌, ◌≢◌, sym, ap, ◌∙◌, subst, length, inl, inr}
use traffik.Base.Text.{Str}
use traffik.SharedTable.{Bucket, empty, tombstone, occupied, update, key_max_bytes, probe}
use traffik.SharedTable.Probe.{Full, Maps, IsProbed, Found}
use traffik.SharedTable.Counts.{update_here, update_there, update_inv}

pub occupied-tombstone : {k : Str} {s : ℕ} → occupied k s ≢ tombstone
occupied-tombstone e = cc e

pub occupied-empty : {k : Str} {s : ℕ} → occupied k s ≢ empty
occupied-empty e = cc e

same_key : (k k' : Str) (s s' : ℕ) → occupied k s ≡ occupied k' s' → k ≡ k'
same_key k k' s s' e = cc e

same_slot : (k k' : Str) (s s' : ℕ) → occupied k s ≡ occupied k' s' → s ≡ s'
same_slot k k' s s' e = cc e

module _ (hash : Str → ℕ) (capacity : ℕ) (b : ℕ → Bucket) (idx : ℕ) (x : Bucket) where
  -- A write that leaves the bucket not empty keeps every path.
  Full-update :
      (k : Str) (i : ℕ)
      → x ≢ empty
      → Full hash capacity b k i
      → Full hash capacity (update idx x b) k i
  Full-update k i n f i' lt e = elim (update_inv idx (probe hash capacity k i') x empty b e) [
    | inl (_, e') ↦ n e'
    | inr (_, e') ↦ f i' lt e'
  ]

  -- A key in another bucket stays, and no other key comes.
  pub Maps-update :
      (k : Str) (s : ℕ)
      → ((s' : ℕ) → b idx ≢ occupied k s')
      → Maps hash capacity b k s
      → Maps hash capacity (update idx x b) k s
  Maps-update k s n (j, lt, o) = (j, lt, update_there idx j x b (λ e. n s (ap b e ∙ o)) ∙ o)

  pub Maps-update_inv :
      (k : Str) (s : ℕ)
      → ((s' : ℕ) → x ≢ occupied k s')
      → Maps hash capacity (update idx x b) k s
      → Maps hash capacity b k s
  Maps-update_inv k s n (j, lt, o) = elim (update_inv idx j x (occupied k s) b o) [
    | inl (_, e) ↦ elim (n s e) [ ]
    | inr (_, e) ↦ (j, lt, e)
  ]

module _ (hash : Str → ℕ) (capacity : ℕ) (b : ℕ → Bucket) (idx : ℕ)
    (v : IsProbed hash capacity b) where
  -- A bucket that becomes a tombstone.
  pub tombstone-IsProbed : IsProbed hash capacity (update idx tombstone b)
  tombstone-IsProbed = record {
    reached = λ j k s lt o.
        let (i, at, f) = v.reached j k s lt (before j k s o) in
        (i, at, Full-update hash capacity b idx tombstone k i (λ e. occupied_tomb e) f);
    unique =
        λ j j' k s s' lt lt' o o'. v.unique j j' k s s' lt lt' (before j k s o) (before j' k s' o');
    short = λ j k s lt o. v.short j k s lt (before j k s o);
  }
    where
      occupied_tomb : tombstone ≢ empty
      occupied_tomb e = cc e

      before :
          (j : ℕ) (k : Str) (s : ℕ) → update idx tombstone b j ≡ occupied k s → b j ≡ occupied k s
      before j k s o = elim (update_inv idx j tombstone (occupied k s) b o) [
        | inl (_, e) ↦ elim (occupied-tombstone (sym e)) [ ]
        | inr (_, e) ↦ e
      ]

  module _ (key : Str) (slot : ℕ) (lt : idx < capacity) (f : Found hash capacity b key idx) where
    -- The key stands in no bucket but the one that was found.
    only_found : (j s : ℕ) → j < capacity → idx ≢ j → b j ≢ occupied key s
    only_found j s jlt n o = elim f [
      | inl (s', o') ↦ n (v.unique idx j key s' s lt jlt o' o)
      | inr w ↦ w.absent s (j, jlt, o)
    ]

    found_path : (i : ℕ) × (probe hash capacity key i ≡ idx) × Full hash capacity b key i
    found_path = elim f [
      | inl (s', o') ↦ v.reached idx key s' lt o'
      | inr w ↦ (w.step, w.at, w.path)
    ]

    -- The found bucket takes the key.
    pub occupied-IsProbed :
        length key ≤ key_max_bytes → IsProbed hash capacity (update idx (occupied key slot) b)
    occupied-IsProbed short_key = record {
      reached = λ j k s jlt o. elim (update_inv idx j (occupied key slot) (occupied k s) b o) [
        | inl (at, e) ↦
            subst
              (λ k.
                (i : ℕ) × (probe hash capacity k i ≡ j)
                × Full hash capacity (update idx (occupied key slot) b) k i)
              (same_key key k slot s e)
              (let (i, at', p) = found_path in
                (
                  i,
                  at' ∙ at,
                  Full-update hash capacity b idx (occupied key slot) key i occupied-empty p,
                ))
        | inr (_, e) ↦
            let (i, at, p) = v.reached j k s jlt e in
            (i, at, Full-update hash capacity b idx (occupied key slot) k i occupied-empty p)
      ];
      unique = λ j j' k s s' jlt jlt' o o'.
          elim (update_inv idx j (occupied key slot) (occupied k s) b o) [
            | inl (at, e) ↦ elim (update_inv idx j' (occupied key slot) (occupied k s') b o') [
              | inl (at', _) ↦ sym at ∙ at'
              | inr (n, e') ↦
                  elim (only_found j' s' jlt' n
                    (e' ∙ ap (λ k. occupied k s') (sym (same_key key k slot s e)))) [ ]
            ]
            | inr (n, e) ↦ elim (update_inv idx j' (occupied key slot) (occupied k s') b o') [
              | inl (at', e') ↦
                  elim (only_found j s jlt n
                    (e ∙ ap (λ k. occupied k s) (sym (same_key key k slot s' e')))) [ ]
              | inr (_, e') ↦ v.unique j j' k s s' jlt jlt' e e'
            ]
          ];
      short = λ j k s jlt o. elim (update_inv idx j (occupied key slot) (occupied k s) b o) [
        | inl (_, e) ↦ subst (λ k. length k ≤ key_max_bytes) (same_key key k slot s e) short_key
        | inr (_, e) ↦ v.short j k s jlt e
      ];
    }

    -- The key maps to the slot.
    pub Maps-key : Maps hash capacity (update idx (occupied key slot) b) key slot
    Maps-key = (idx, lt, update_here idx (occupied key slot) b)

    -- Another key does not stand in the found bucket.
    pub found_other : (k : Str) (s : ℕ) → key ≢ k → b idx ≢ occupied k s
    found_other k s n o = elim f [
      | inl (s', o') ↦ n (same_key key k s' s (sym o' ∙ o))
      | inr w ↦ elim w.free [
        | inl e ↦ occupied-empty (sym o ∙ e)
        | inr e ↦ occupied-tombstone (sym o ∙ e)
      ]
    ]

    -- After the key's bucket becomes a tombstone the key is nowhere.
    pub gone : (s : ℕ) → Maps hash capacity (update idx tombstone b) key s → ⊥
    gone s (j, jlt, o) = elim (update_inv idx j tombstone (occupied key s) b o) [
      | inl (_, e) ↦ occupied-tombstone (sym e)
      | inr (n, e) ↦ only_found j s jlt n e
    ]

-- A key maps to one slot at most.
pub Maps-unique :
    (hash : Str → ℕ) (capacity : ℕ) (b : ℕ → Bucket) (k : Str) (s s' : ℕ)
    → IsProbed hash capacity b
    → Maps hash capacity b k s
    → Maps hash capacity b k s'
    → s ≡ s'
Maps-unique hash capacity b k s s' v (j, lt, o) (j', lt', o') =
    same_slot k k s s' (sym o ∙ ap b (v.unique j j' k s s' lt lt' o o') ∙ o')
