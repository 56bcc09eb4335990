-- ===== src/SharedShard/Commands.antt =====
-- What the second phases write (src/traffik/backends/multiprocess.py), against what the slot shows.
use traffik.Base.{
  ℕ, ◌+◌, ◌*◌, ◌<◌, ◌^◌, ◌≤◌, ◌≡◌, refl, true, false, not, ◌||◌, Option, none, some, length, ltb,
  ◌==◌, if◌then◌else◌, Bool-cases, inl, inr, ◌⊎◌, arith,
}
use traffik.Base.Int.{ℤ, ◌+ℤ◌}
use traffik.Base.Text.{Str, str_of_int, int_of_str}
use traffik.Result.{ok}
use traffik.SharedShard.{
  Slot, expired, passed, int64, second, or_zero, current, current_in, shown, shown_in,
  write_string_slot, write_int_slot, write_int_value, write_increment, write_increment_ttl,
}
use traffik.SharedShard.View.{Seen, seen, visible}

-- What is seen at a time of what was written: it is there until its expiry.
abbrev pub until : ℕ → Seen → Option Seen
until t e = if passed t e.expires_at then none else some e

abbrev pub text_seen : Str → ℕ → Seen
text_seen value expires_at = record {
  text = value;
  number = or_zero (int_of_str value);
  expires_at = expires_at;
}

abbrev pub number_seen : ℤ → ℕ → Seen
number_seen n expires_at = record { text = str_of_int n; number = n; expires_at = expires_at }

-- The count after an increment, and the expiry that it leaves.
abbrev pub counted : ℤ → Option Seen → ℤ
counted amount none = amount
counted amount (some e) = e.number +ℤ amount

abbrev pub kept_expiry : Option Seen → ℕ
kept_expiry none = 0
kept_expiry (some e) = e.expires_at

abbrev pub window : ℕ → Option Seen → ℕ
window end none = end
window end (some e) = if e.expires_at == 0 then end else e.expires_at

pub seen-cases :
    (now : ℕ) (x : Slot)
    → ((not x.occupied || expired now x ≡ true) × (visible now x ≡ none))
      ⊎ ((not x.occupied || expired now x ≡ false)
          × (visible now x ≡ some (seen x))
          × (x.occupied ≡ true))
unfolding visible
seen-cases now x = elim (Bool-cases (not x.occupied || expired now x)) [
  | inl e ↦ inl (e, rw (e) refl)
  | inr e ↦ inr (e, rw (e) refl, ground (arith, e))
]

-- What the writes of a slot leave to be seen.
pub string-visible :
    (max_value_size : ℕ) (value : Str) (expires_at : ℕ) (x : Slot)
    → length value ≤ max_value_size
    → length value < 2 ^ 16
    → ((write_string_slot max_value_size value expires_at x).0 ≡ ok tt)
      × ((t : ℕ)
          → visible t (write_string_slot max_value_size value expires_at x).1
            ≡ until t (text_seen value expires_at))
unfolding write_string_slot visible shown shown_in current current_in
string-visible max_value_size value expires_at x le lt =
    let fits : ltb max_value_size (length value) ≡ false = ground (arith, le) in
    let packed : ltb (length value) (2 ^ 16) ≡ true = ground (arith, lt) in
    (rw (fits, packed) refl, λ t. rw (fits, packed) refl)

pub int-visible :
    (n : ℤ) (expires_at : ℕ) (x : Slot)
    → int64 n ≡ true
    → ((write_int_slot n expires_at x).0 ≡ ok n)
      × ((t : ℕ) → visible t (write_int_slot n expires_at x).1 ≡ until t (number_seen n expires_at))
unfolding write_int_slot visible shown shown_in current current_in
int-visible n expires_at x fits = (rw (fits) refl, λ t. rw (fits) refl)

pub increment_ttl-visible :
    (now : ℕ) (amount : ℤ) (ttl : ℕ) (x : Slot)
    → int64 (counted amount (visible now x)) ≡ true
    → ((write_increment_ttl now amount ttl x).0 ≡ ok (counted amount (visible now x)))
      × ((t : ℕ)
          → visible t (write_increment_ttl now amount ttl x).1
            ≡ until t (
                number_seen
                  (counted amount (visible now x))
                  (window (now + second * ttl) (visible now x))))
unfolding write_increment_ttl
increment_ttl-visible now amount ttl x = elim (seen-cases now x) [
  | inl (e, v) ↦ rw (e, v) (int-visible amount (now + second * ttl) x)
  | inr (e, v, o) ↦
      rw (e, v)
        (int-visible (current x +ℤ amount)
          (if x.expires_at == 0 then now + second * ttl else x.expires_at) x)
]

pub value-visible :
    (n : ℤ) (x : Slot)
    → x.occupied ≡ true
    → int64 n ≡ true
    → ((write_int_value n x).0 ≡ ok n)
      × ((t : ℕ) → visible t (write_int_value n x).1 ≡ until t (number_seen n x.expires_at))
unfolding write_int_value visible shown shown_in current current_in
value-visible n x o fits = (rw (fits) refl, λ t. rw (fits, o) refl)

pub increment-visible :
    (now : ℕ) (amount : ℤ) (x : Slot)
    → int64 (counted amount (visible now x)) ≡ true
    → ((write_increment now amount x).0 ≡ ok (counted amount (visible now x)))
      × ((t : ℕ)
          → visible t (write_increment now amount x).1
            ≡ until t (number_seen (counted amount (visible now x)) (kept_expiry (visible now x))))
unfolding write_increment
increment-visible now amount x = elim (seen-cases now x) [
  | inl (e, v) ↦ rw (e, v) (int-visible amount 0 x)
  | inr (e, v, o) ↦ rw (e, v) (value-visible (current x +ℤ amount) x o)
]
