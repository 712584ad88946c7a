-- ===== src/Common/Decimal.antt =====
-- `std::to_string(int)` and `std::stoi` of the C++ library.
use tgproxy.Common.{
  ℕ, zero, suc, ◌+◌, ◌-◌, ◌*◌, ◌/◌, ◌%◌, ◌^◌, ◌≤◌, ◌<◌, ◌≡◌, ◌≢◌, refl, ap, ◌∙◌, Bool, ◌&&◌, ◌||◌,
  [], ◌∷◌, Option, none, some, Text, All, ltb, leb, ◌==◌, if◌then◌else◌, arith,
}
use mathlib.Core.List.{cons-ne-nil}
use tgproxy.Common.Int.{ℤ, pos, negsuc}

-- The decimal digits of `n` before `out`; one more round than the value is more than enough.
digits : ℕ → ℕ → Text → Text
digits zero n out = out
digits (suc fuel) n out =
    let rest = digits fuel (n / 10) ((b'0' + n % 10) ∷ out) in
    if ltb n 10 then (b'0' + n % 10) ∷ out else rest

unfoldable pub to_string : ℤ → Text
unfolding digits
to_string (pos n) = digits (suc n) n []
to_string (negsuc n) = b'-' ∷ digits (suc (suc n)) (suc n) []

abbrev pub is_digit : ℕ → Bool
is_digit c = leb b'0' c && leb c b'9'

-- `isspace` in the C locale.
abbrev pub is_space : ℕ → Bool
is_space c = c == 32 || (leb 9 c && leb c 13)

unfoldable pub skip_space : Text → Text
skip_space [] = []
skip_space (c ∷ s) = if is_space c then skip_space s else c ∷ s

-- The number that the leading digits spell behind `n`.
unfoldable pub leading : ℕ → Text → ℕ
leading n [] = n
leading n (c ∷ s) = if is_digit c then leading (n * 10 + (c - b'0')) s else n

-- The unsigned part: there must be a digit.
magnitude : Text → Option ℕ
unfolding leading
magnitude [] = none
magnitude (c ∷ s) = if is_digit c then some (leading 0 (c ∷ s)) else none

abbrev negated : ℕ → ℤ
negated zero = pos 0
negated (suc n) = negsuc n

-- A value that an `int` can hold.
fits_int : Bool → Option ℕ → Option ℤ
fits_int minus none = none
fits_int minus (some n) =
    if minus
    then if leb n (2 ^ 31) then some (negated n) else none
    else if ltb n (2 ^ 31)
    then some (pos n)
    else none

signed : Text → Option ℤ
unfolding fits_int magnitude
signed [] = none
signed (c ∷ s) =
    if c == b'-'
    then fits_int Bool.true (magnitude s)
    else fits_int Bool.false (magnitude (if c == b'+' then s else c ∷ s))

-- `std::stoi(s)`: `none` where it throws, for want of a digit or out of the range of `int`.
unfoldable pub stoi : Text → Option ℤ
unfolding signed skip_space
stoi s = signed (skip_space s)

abbrev pub IsDigit : ℕ → Type 0
IsDigit c = (b'0' ≤ c) × (c ≤ b'9')

digits-IsDigit : (fuel n : ℕ) (out : Text) → All IsDigit out → All IsDigit (digits fuel n out)
unfolding digits
digits-IsDigit zero n out h = h
digits-IsDigit (suc fuel) n out h =
    let digit : IsDigit (b'0' + n % 10) = omega arith in
    ground (arith, digit, digits-IsDigit fuel (n / 10) ((b'0' + n % 10) ∷ out) (digit, h))

leading-digits :
    (fuel n : ℕ) (out : Text) → n < fuel → leading 0 (digits fuel n out) ≡ leading n out
unfolding digits leading
leading-digits zero n out h = absurd (omega arith)
leading-digits (suc fuel) n out h =
    ground (arith, leading-digits fuel (n / 10) ((b'0' + n % 10) ∷ out))

digits-ne-nil : (fuel n : ℕ) (out : Text) → out ≢ [] → digits fuel n out ≢ []
unfolding digits
digits-ne-nil zero n out h = h
digits-ne-nil (suc fuel) n out h =
    ground (arith, digits-ne-nil fuel (n / 10) ((b'0' + n % 10) ∷ out) (cons-ne-nil _ out))

-- The print of a number is one or more digits.
pub to_string-IsDigit : (n : ℕ) → All IsDigit (to_string (pos n)) × (to_string (pos n) ≢ [])
unfolding to_string digits
to_string-IsDigit n = (
  digits-IsDigit (suc n) n [] tt,
  ground (arith, digits-ne-nil n (n / 10) ((b'0' + n % 10) ∷ []) (cons-ne-nil _ [])),
)

-- A text that starts with digits is read as the number that they spell.
pub stoi_digits :
    (s : Text) → All IsDigit s → s ≢ [] → leading 0 s < 2 ^ 31 → stoi s ≡ some (pos (leading 0 s))
unfolding stoi leading
stoi_digits [] a h k = absurd (h refl)
stoi_digits (c ∷ s) a h k = ground (arith, a.0)

pub leading-to_string : (n : ℕ) → leading 0 (to_string (pos n)) ≡ n
unfolding to_string leading
leading-to_string n = leading-digits (suc n) n [] (omega arith)

-- An `int` that is not negative is read back from its print.
pub stoi-to_string : (n : ℕ) → n < 2 ^ 31 → stoi (to_string (pos n)) ≡ some (pos n)
stoi-to_string n h =
    let digits_of = to_string-IsDigit n in
    let e = leading-to_string n in
    stoi_digits (to_string (pos n)) digits_of.0 digits_of.1 (rw e h)
    ∙ ap (λ (k : ℕ). some (pos k)) e
