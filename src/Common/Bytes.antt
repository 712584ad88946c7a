-- ===== src/Common/Bytes.antt =====
-- `std::string` as a list of bytes, and the operations of the C++ library that the proxy uses.
use Prim.Native.Nat.{ℕ}
use Prim.Native.Char.{code}
use Prim.Native.String.{String}
use mathlib.Core.Path.{◌≡◌, refl}
use mathlib.Core.Bool.{Bool, true, false, ◌&&◌, ◌||◌}
use mathlib.Core.List.{List, [], ◌∷◌}
use native.Mathlib.Omega.{arith}
use tgproxy.Common.Tests.{◌==◌, if◌then◌else◌}

abbrev pub Text : Type 0
Text = List ℕ

-- The bytes of an ASCII literal.
abbrev pub codes : String → Text
codes String.[] = []
codes (String.◌∷◌ c s) = code c ∷ codes s

abbrev pub empty : Text → Bool
empty [] = true
empty (c ∷ s) = false

-- `operator==` of `std::string`.
abbrev pub same_text : Text → Text → Bool
same_text [] [] = true
same_text (c ∷ s) (d ∷ t) = c == d && same_text s t
same_text _ _ = false

-- What `std::string(p)` reads at a `char *`: the bytes before the first NUL.
abbrev pub c_str : Text → Text
c_str [] = []
c_str (c ∷ s) = if c == 0 then [] else c ∷ c_str s

-- Whether a byte is one of a set, as `find_first_of` asks.
abbrev pub one_of : Text → ℕ → Bool
one_of [] c = false
one_of (d ∷ ds) c = c == d || one_of ds c

pub same_text_refl : (s : Text) → same_text s s ≡ true
same_text_refl [] = refl
same_text_refl (c ∷ s) = ground (arith, same_text_refl s)

pub same_text→eq : (s t : Text) → same_text s t ≡ true → s ≡ t
same_text→eq [] [] h = refl
same_text→eq [] (d ∷ t) h = ground arith
same_text→eq (c ∷ s) [] h = ground arith
same_text→eq (c ∷ s) (d ∷ t) h = ground (arith, same_text→eq s t)
