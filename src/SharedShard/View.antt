-- ===== src/SharedShard/View.antt =====
-- What a shard shows (src/traffik/backends/multiprocess.py): the text, the number and the expiry that a key
-- stands for, and how it changes when a call writes the slot of a key.
use traffik.Base.{
  ℕ, ◌+◌, ◌≤◌, ◌≡◌, refl, sym, ap, ◌∙◌, false, not, ◌||◌, Option, none, some, if◌then◌else◌,
  Bool-cases, inl, inr,
}
use traffik.Base.Int.{ℤ}
use traffik.Base.Text.{Str}
use traffik.Result.{Result, ok, err}
use traffik.SharedTable.{get_slot}
use traffik.SharedTable.Methods.{get_slot-cases, get_slot-Maps, get_slot-agree}
use traffik.SharedTable.Update.{Maps-unique}
use traffik.SharedShard.{Slot, SharedShard, expired, shown, current, read}
use traffik.SharedShard.Ownership.{occurs, Owns, IsShard}
use traffik.SharedShard.Taking.{Taken, shard-IsTable}

pub record Seen : Type 0 where
  pub text : Str
  pub number : ℤ
  pub expires_at : ℕ

abbrev pub seen : Slot → Seen
seen x = record { text = shown x; number = current x; expires_at = x.expires_at }

unfoldable pub visible : ℕ → Slot → Option Seen
visible now x = if not x.occupied || expired now x then none else some (seen x)

abbrev pub text_of : Option Seen → Option Str
text_of none = none
text_of (some e) = some e.text

unfoldable pub view_in : ℕ → SharedShard → Result (Option ℕ) → Option Seen
view_in now s (err e) = none
view_in now s (ok none) = none
view_in now s (ok (some slot)) = visible now (s.slots slot)

-- What `get` reads of a slot is the text of what the slot shows.
pub read-visible : (now : ℕ) (x : Slot) → read now x ≡ text_of (visible now x)
unfolding read visible
read-visible now x = elim (Bool-cases (not x.occupied || expired now x)) [
  | inl e ↦ rw (e) refl
  | inr e ↦ rw (e) refl
]

-- The free slots are not occupied.
unfoldable pub IsClear : SharedShard → Type 0
IsClear s = (slot : ℕ) → 1 ≤ occurs slot s.free → (s.slots slot).occupied ≡ false

module _ (hash : Str → ℕ) (capacity : ℕ) where
  abbrev pub view : ℕ → Str → SharedShard → Option Seen
  view now key s = view_in now s (get_slot hash capacity key s.table)

  module _ (rebuild_threshold max_keys : ℕ) (fits : max_keys + rebuild_threshold ≤ capacity) where
    pub view-Owns :
        (t : ℕ) (k : Str) (slot : ℕ) (s : SharedShard)
        → IsShard hash capacity rebuild_threshold max_keys s
        → Owns hash capacity rebuild_threshold s k slot
        → view t k s ≡ visible t (s.slots slot)
    unfolding view_in
    view-Owns t k slot s v o = ap (view_in t s) (
        get_slot-Maps hash capacity k slot s.table
          (shard-IsTable hash capacity rebuild_threshold max_keys fits s v) o)

    -- Two shards whose table gives a key the same slot, and which hold the same there, show the same.
    pub view-agree :
        (t : ℕ) (k : Str) (s s' : SharedShard)
        → IsShard hash capacity rebuild_threshold max_keys s
        → IsShard hash capacity rebuild_threshold max_keys s'
        → ((slot : ℕ)
            → Owns hash capacity rebuild_threshold s k slot
            → Owns hash capacity rebuild_threshold s' k slot)
        → ((slot : ℕ)
            → Owns hash capacity rebuild_threshold s' k slot
            → Owns hash capacity rebuild_threshold s k slot)
        → ((slot : ℕ)
            → Owns hash capacity rebuild_threshold s' k slot
            → s'.slots slot ≡ s.slots slot)
        → view t k s' ≡ view t k s
    unfolding view_in
    view-agree t k s s' v v' to from same =
        let shard = shard-IsTable hash capacity rebuild_threshold max_keys fits in
        let agree =
          get_slot-agree hash capacity k s.table s'.table (shard s v) (shard s' v') to from in
        elim (get_slot-cases hash capacity k s'.table (shard s' v')) [
          | inl (slot, e, o) ↦
              view-Owns t k slot s' v' o
              ∙ ap (visible t) (same slot o)
              ∙ sym (view-Owns t k slot s v (from slot o))
          | inr (e, _) ↦ ap (view_in t s') e ∙ sym (ap (view_in t s) (sym agree ∙ e))
        ]

    -- The slot that the first phase takes holds what its key showed before.
    pub Taken-visible :
        (t : ℕ) (key : Str) (s s' : SharedShard) (r : ℕ × ℕ)
        → IsShard hash capacity rebuild_threshold max_keys s
        → IsClear s
        → Taken hash capacity rebuild_threshold max_keys fits key s r s'
        → visible t (s'.slots r.0) ≡ view t key s
    unfolding IsClear visible view_in
    Taken-visible t key s s' r v clear taken =
        let here = ap (λ (f : ℕ → Slot). visible t (f r.0)) taken.same_slots in
        elim (get_slot-cases hash capacity key s.table
          (shard-IsTable hash capacity rebuild_threshold max_keys fits s v)) [
            | inl (slot, e, o) ↦
                here
                ∙ ap (λ i. visible t (s.slots i))
                    (Maps-unique hash capacity s'.table.buckets key r.0 slot taken.valid.probed
                      taken.owns (taken.others key slot o))
                ∙ sym (ap (view_in t s) e)
            | inr (e, absent) ↦ elim taken.fresh [
              | inl o ↦ elim (absent r.0 o) [ ]
              | inr free ↦ here ∙ unseen t (s.slots r.0) (clear r.0 free) ∙ sym (ap (view_in t s) e)
            ]
          ]
      where
        unseen :
            (t : ℕ) (x : Slot)
            → x.occupied ≡ false
            → (if not x.occupied || expired t x then none else some (seen x)) ≡ none
        unseen t x e = rw (e) refl
