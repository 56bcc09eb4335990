-- ===== src/Base/Text/RoundTrip.antt =====
-- `int(str(n))` is `n`: the texts of numbers that the strategies write are read back.
use Prim.Native.Nat.{ℕ, zero, suc, ◌+◌, ◌*◌, ◌-◌, ◌/◌, ◌%◌, ◌<◌, ◌≤◌}
use mathlib.Core.Path.{◌≡◌, refl, ◌∙◌, ap, sym}
use mathlib.Core.Logic.{inl, inr}
use mathlib.Core.Bool.{true, false}
use mathlib.Core.Option.{some}
use mathlib.Core.List.{[], ◌∷◌}
use native.Mathlib.Omega.{arith}
use traffik.Base.Tests.{ltb, Bool-cases}
use traffik.Base.Lists.{All}
use traffik.Base.Int.{ℤ, pos, negsuc}
use traffik.Base.Text.{
  Str, is_space, is_digit, negate, lstrip, rstrip, strip, int_rest, int_digits, int_signed,
  int_of_str, positive, digits, str_of_int,
}

abbrev NoSpace : Str → Type 0
NoSpace = All (λ c. is_space c ≡ false)

lstrip_lem : (s : Str) → NoSpace s → lstrip s ≡ s
unfolding lstrip
lstrip_lem [] h = refl
lstrip_lem (c ∷ s) h = rw (h.0) refl

rstrip_lem : (s : Str) → NoSpace s → rstrip s ≡ s
unfolding rstrip
rstrip_lem [] h = refl
rstrip_lem (c ∷ []) h = rw (h.0) refl
rstrip_lem (c ∷ d ∷ s) h = rw (rstrip_lem (d ∷ s) h.1) refl

strip_lem : (s : Str) → NoSpace s → strip s ≡ s
unfolding strip
strip_lem s h = rw (lstrip_lem s h) (rstrip_lem s h)

digits-NoSpace : (f n : ℕ) (tail : Str) → NoSpace tail → NoSpace (digits f n tail)
unfolding digits
digits-NoSpace zero n tail h = h
digits-NoSpace (suc f) n tail h = elim (Bool-cases (ltb n 10)) [
  | inl e ↦ rw (e, digits) (ground arith, h)
  | inr e ↦ rw (e, digits) (digits-NoSpace f (n / 10) ((48 + n % 10) ∷ tail) (ground arith, h))
]

-- The text of a number begins with a digit.
digits_head :
    (f n : ℕ) (tail : Str) → n < f → (c : ℕ) × (s : Str) × (digits f n tail ≡ c ∷ s) × (48 ≤ c)
unfolding digits
digits_head zero n tail h = elim h [ ]
digits_head (suc f) n tail h = elim (Bool-cases (ltb n 10)) [
  | inl e ↦ rw (e, digits) (48 + n, tail, refl, omega arith)
  | inr e ↦ rw (e, digits) (digits_head f (n / 10) ((48 + n % 10) ∷ tail) (ground arith))
]

int_rest_last : (n : ℕ) (tail : Str) → int_rest (n / 10) ((48 + n % 10) ∷ tail) ≡ int_rest n tail
unfolding int_rest
int_rest_last n [] = ground arith
int_rest_last n (d ∷ s) =
    let digit : is_digit (48 + n % 10) ≡ true = ground arith in
    let value : n / 10 * 10 + (48 + n % 10 - 48) ≡ n = omega arith in rw (digit, value)

int_digits-digits : (f n : ℕ) (tail : Str) → n < f → int_digits (digits f n tail) ≡ int_rest n tail
unfolding digits int_digits
int_digits-digits zero n tail h = elim h [ ]
int_digits-digits (suc f) n tail h = elim (Bool-cases (ltb n 10)) [
  | inl e ↦ rw (e, digits) (ground arith)
  | inr e ↦
      rw (e, digits)
        (int_digits-digits f (n / 10) ((48 + n % 10) ∷ tail) (ground arith) ∙ int_rest_last n tail)
]

int_rest_nil : (n : ℕ) → int_rest n [] ≡ some n
unfolding int_rest
int_rest_nil n = refl

int_signed_digit : (c : ℕ) (s : Str) → 48 ≤ c → int_signed (c ∷ s) ≡ positive (int_digits (c ∷ s))
unfolding int_signed
int_signed_digit c s h = ground arith

int_of_str-digits : (f n : ℕ) → n < f → int_signed (digits f n []) ≡ some (pos n)
int_of_str-digits f n h =
    let (c, s, e, d) = digits_head f n [] h in
    let read : int_digits (c ∷ s) ≡ some n =
      ap int_digits (sym e) ∙ int_digits-digits f n [] h ∙ int_rest_nil n in
    ap int_signed e ∙ int_signed_digit c s d ∙ ap positive read

pub int_of_str-str_of_int : (z : ℤ) → int_of_str (str_of_int z) ≡ some z
unfolding int_of_str str_of_int
int_of_str-str_of_int (pos n) =
    ap int_signed (strip_lem _ (digits-NoSpace (suc n) n [] tt))
    ∙ int_of_str-digits (suc n) n (omega arith)
int_of_str-str_of_int (negsuc n) =
    let minus : is_space 45 ≡ false = refl in
    ap int_signed (
      strip_lem (45 ∷ digits (suc (suc n)) (suc n) [])
        (minus, digits-NoSpace (suc (suc n)) (suc n) [] tt))
    ∙ ap negate (int_digits-digits (suc (suc n)) (suc n) [] (omega arith) ∙ int_rest_nil (suc n))
