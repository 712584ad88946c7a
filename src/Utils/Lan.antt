-- ===== src/Utils/Lan.antt =====
-- utils/tgp_utils.cc: `isLAN`. What an `int` on the stack holds before it is written is an argument.
use tgproxy.Common.{
  ℕ, ◌+◌, ◌-◌, ◌*◌, ◌^◌, ◌≤◌, ◌<◌, ◌≡◌, ◌≢◌, ◌↔◌, ◌⊎◌, refl, sym, ap, ◌∙◌, Bool, true, false, ◌&&◌,
  ◌||◌, [], ◌∷◌, ◌++◌, Text, leb, ltb, ◌==◌, if◌then◌else◌, All, arith,
}
use tgproxy.Common.Int.{ℤ, pos, negsuc}
use tgproxy.Common.Decimal.{
  is_digit, skip_space, leading, to_string, IsDigit, to_string-IsDigit, leading-to_string,
}

-- `getline(st, temp, '.')`: what is read, and what is left.
get_line : Text → Text × Text
get_line [] = ([], [])
get_line (c ∷ s) = if c == b'.' then ([], s) else let (line, rest) = get_line s in (c ∷ line, rest)

-- A value that an `int` holds, or the bound on its side.
clamp_int : Bool → ℕ → ℤ
clamp_int minus n =
    if minus
    then if n == 0 then pos 0 else if leb n (2 ^ 31) then negsuc (n - 1) else negsuc (2 ^ 31 - 1)
    else if ltb n (2 ^ 31)
    then pos n
    else pos (2 ^ 31 - 1)

unsigned_int : Bool → Text → ℤ
unfolding clamp_int leading
unsigned_int minus [] = pos 0
unsigned_int minus (c ∷ s) = if is_digit c then clamp_int minus (leading 0 (c ∷ s)) else pos 0

signed_int : Text → ℤ → ℤ
unfolding unsigned_int
signed_int [] old = old
signed_int (c ∷ s) old =
    if c == b'-' then unsigned_int true s else unsigned_int false (if c == b'+' then s else c ∷ s)

-- `a >> ip[i]` for a stream with the text `s`: at the end of the stream the variable keeps what it
-- held, where no digit stands it becomes 0, and out of range it becomes the nearest bound.
read_int : Text → ℤ → ℤ
unfolding signed_int skip_space
read_int s old = signed_int (skip_space s) old

abbrev int_eq : ℤ → ℕ → Bool
int_eq (pos m) n = m == n
int_eq (negsuc m) n = false

abbrev int_in : ℤ → ℕ → ℕ → Bool
int_in (pos m) lo hi = leb lo m && leb m hi
int_in (negsuc m) lo hi = false

lan_test : ℤ → ℤ → Bool
lan_test a b = int_eq a 10 || (int_eq a 172 && int_in b 16 31) || (int_eq a 192 && int_eq b 168)

-- `isLAN(ipstring)`, where `ip[0]` and `ip[1]` held `old0` and `old1`.
pub is_lan : ℤ → ℤ → Text → Bool
unfolding lan_test get_line read_int
is_lan old0 old1 ipstring =
    let (first, rest) = get_line ipstring in
    let (second, rest') = get_line rest in lan_test (read_int first old0) (read_int second old1)

-- The number of a dotted address a.b.c.d.
abbrev pub address : ℕ → ℕ → ℕ → ℕ → ℕ
address a b c d = a * 2 ^ 24 + b * 2 ^ 16 + c * 2 ^ 8 + d

-- The ranges that the comment on `isLAN` lists, 10.0.0.0 to 10.255.255.255 and so on.
abbrev pub InDocumentedRange : ℕ → Type 0
InDocumentedRange n =
    ((address 10 0 0 0 ≤ n) × (n ≤ address 10 255 255 255))
    ⊎ ((address 172 16 0 0 ≤ n) × (n ≤ address 172 31 255 255))
    ⊎ ((address 192 168 0 0 ≤ n) × (n ≤ address 192 168 255 255))

get_line-digits : (s rest : Text) → All IsDigit s → get_line (s ++ b'.' ∷ rest) ≡ (s, rest)
unfolding get_line
get_line-digits [] rest h = refl
get_line-digits (c ∷ s) rest h = ground (arith, h.0, get_line-digits s rest h.1)

read_int-digits :
    (s : Text) (old : ℤ)
    → All IsDigit s
    → s ≢ []
    → leading 0 s < 2 ^ 31
    → read_int s old ≡ pos (leading 0 s)
unfolding read_int leading
read_int-digits [] old a h k = absurd (h refl)
read_int-digits (c ∷ s) old a h k = ground (arith, a.0)

read_int-to_string : (n : ℕ) (old : ℤ) → n < 2 ^ 31 → read_int (to_string (pos n)) old ≡ pos n
read_int-to_string n old h =
    let d = to_string-IsDigit n in
    let e = leading-to_string n in
    read_int-digits (to_string (pos n)) old d.0 d.1 (rw e h) ∙ ap pos e

abbrev pub dotted : ℕ → ℕ → Text → Text
dotted a b rest = to_string (pos a) ++ b'.' ∷ (to_string (pos b) ++ b'.' ∷ rest)

is_lan-dotted :
    (old0 old1 : ℤ) (a b : ℕ) (rest : Text)
    → a ≤ 255
    → b ≤ 255
    → is_lan old0 old1 (dotted a b rest) ≡ lan_test (pos a) (pos b)
unfolding is_lan lan_test
is_lan-dotted old0 old1 a b rest p q = rw (
  get_line-digits (to_string (pos a)) (to_string (pos b) ++ b'.' ∷ rest) (to_string-IsDigit a).0,
  get_line-digits (to_string (pos b)) rest (to_string-IsDigit b).0,
  read_int-to_string a old0 (omega arith),
  read_int-to_string b old1 (omega arith),
)

-- For every dotted address a.b.c.d whose parts are at most 255, `isLAN` answers true exactly if the
-- address lies in one of the three ranges that its comment lists; only the first two parts are read, so what
-- follows the second dot is any text, and the old contents of `ip` do not matter.
pub is_lan_iff :
    (old0 old1 : ℤ) (a b c d : ℕ) (rest : Text)
    → a ≤ 255
    → b ≤ 255
    → c ≤ 255
    → d ≤ 255
    → (is_lan old0 old1 (dotted a b rest) ≡ true) ↔ InDocumentedRange (address a b c d)
unfolding lan_test
is_lan_iff old0 old1 a b c d rest p q r s = (
  λ e. ranges (is_lan-dotted old0 old1 a b rest p q) e,
  λ h. is_lan-dotted old0 old1 a b rest p q ∙ tested h,
)
  where
    ranges :
        is_lan old0 old1 (dotted a b rest) ≡ lan_test (pos a) (pos b)
        → is_lan old0 old1 (dotted a b rest) ≡ true
        → InDocumentedRange (address a b c d)
    ranges f e = let t = sym f ∙ e in ground arith

    tested : InDocumentedRange (address a b c d) → lan_test (pos a) (pos b) ≡ true
    tested h = ground arith
