-- ===== src/Base/Text.antt =====
-- Python's `str` as the list of its code points, and the conversions `str(int)` and `int(str)`.
-- `int` reads ASCII digits; the other Unicode digits that it takes are not modelled.
pub mod RoundTrip
use Prim.Native.Nat.{ℕ, zero, suc, ◌+◌, ◌*◌, ◌-◌, ◌/◌, ◌%◌, ◌<◌, ◌≤◌}
use Prim.Native.Char.{code}
use Prim.Native.String.{String}
use mathlib.Core.Path.{◌≡◌, refl, ap}
use mathlib.Core.Logic.{◌↔◌}
use mathlib.Core.Bool.{Bool, true, false, ◌&&◌, ◌||◌}
use mathlib.Core.Option.{Option, none, some}
use mathlib.Core.List.{List, [], ◌∷◌, ◌++◌}
use native.Mathlib.Omega.{arith}
use traffik.Base.Tests.{◌==◌, leb, ltb, if◌then◌else◌}
use traffik.Base.Int.{ℤ, pos, negsuc}

abbrev pub Str : Type 0
Str = List ℕ

-- A literal of the source.
abbrev pub codes : String → Str
codes String.[] = []
codes (String.◌∷◌ c s) = code c ∷ codes s

unfoldable pub str_eq : Str → Str → Bool
str_eq [] [] = true
str_eq [] (b ∷ t) = false
str_eq (a ∷ s) [] = false
str_eq (a ∷ s) (b ∷ t) = a == b && str_eq s t

pub str_eq_iff : (s t : Str) → (str_eq s t ≡ true) ↔ (s ≡ t)
unfolding str_eq
str_eq_iff [] [] = (λ _. refl, λ _. refl)
str_eq_iff [] (b ∷ t) = (λ h. cc, λ h. cc)
str_eq_iff (a ∷ s) [] = (λ h. cc, λ h. cc)
str_eq_iff (a ∷ s) (b ∷ t) =
    (λ h. ground (arith, str_eq_iff s t), λ h. ground (arith, str_eq_iff s t))

pub str_eq_refl : (s : Str) → str_eq s s ≡ true
str_eq_refl s = (str_eq_iff s s).1 refl

-- Two texts behind one prefix.
pub str_eq-append : (p s t : Str) → str_eq (p ++ s) (p ++ t) ≡ str_eq s t
unfolding str_eq
str_eq-append [] s t = refl
str_eq-append (a ∷ p) s t = ground (arith, str_eq-append p s t)

abbrev pub is_digit : ℕ → Bool
is_digit c = leb 48 c && leb c 57

-- `str.isspace` on ASCII: tab to carriage return, the four separators and the space.
abbrev pub is_space : ℕ → Bool
is_space c = leb 9 c && leb c 13 || leb 28 c && leb c 32

unfoldable pub lstrip : Str → Str
lstrip [] = []
lstrip (c ∷ s) = let rest = lstrip s in if is_space c then rest else c ∷ s

unfoldable pub rstrip : Str → Str
rstrip [] = []
rstrip (c ∷ s) = elim (rstrip s) [ [] ↦ (if is_space c then [] else c ∷ []) | d ∷ t ↦ c ∷ d ∷ t ]

-- `s.strip()`
unfoldable pub strip : Str → Str
unfolding lstrip rstrip
strip s = rstrip (lstrip s)

-- The digits after the first one; one underscore may stand between two digits.
unfoldable pub int_rest : ℕ → Str → Option ℕ
int_rest acc [] = some acc
int_rest acc (c ∷ []) = if is_digit c then some (acc * 10 + (c - 48)) else none
int_rest acc (c ∷ d ∷ s) =
    if is_digit c
    then int_rest (acc * 10 + (c - 48)) (d ∷ s)
    else if c == 95 && is_digit d
    then int_rest (acc * 10 + (d - 48)) s
    else none

unfoldable pub int_digits : Str → Option ℕ
unfolding int_rest
int_digits [] = none
int_digits (c ∷ s) = if is_digit c then int_rest (c - 48) s else none

abbrev negate : Option ℕ → Option ℤ
negate none = none
negate (some zero) = some (pos 0)
negate (some (suc n)) = some (negsuc n)

abbrev positive : Option ℕ → Option ℤ
positive none = none
positive (some n) = some (pos n)

unfoldable pub int_signed : Str → Option ℤ
unfolding int_digits
int_signed [] = none
int_signed (c ∷ s) =
    if c == 45
    then negate (int_digits s)
    else if c == 43
    then positive (int_digits s)
    else positive (int_digits (c ∷ s))

-- `int(s)`: `none` where it raises `ValueError`.
unfoldable pub int_of_str : Str → Option ℤ
unfolding strip int_signed
int_of_str s = int_signed (strip s)

-- The decimal digits of `n` in front of `tail`, by fuel.
unfoldable pub digits : ℕ → ℕ → Str → Str
digits zero n tail = tail
digits (suc f) n tail = elim (ltb n 10) [
  | true ↦ (48 + n) ∷ tail
  | false ↦ digits f (n / 10) ((48 + n % 10) ∷ tail)
]

-- `str(n)`
unfoldable pub str_of_int : ℤ → Str
unfolding digits
str_of_int (pos n) = digits (suc n) n []
str_of_int (negsuc n) = 45 ∷ digits (suc (suc n)) (suc n) []
