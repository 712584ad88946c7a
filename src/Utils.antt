-- ===== src/Utils.antt =====
-- utils/tgp_utils.cc: `split`, `isLAN` and the search for the machine's own address.
pub mod Split
pub mod Join
pub mod Lan
pub mod LocalIp
use tgproxy.Common.{
  ℕ, zero, suc, ◌+◌, ◌-◌, ◌%◌, ◌^◌, Bool, true, false, ◌&&◌, ◌||◌, List, [], ◌∷◌, ◌++◌, Option,
  none, some, Text, codes, empty, same_text, one_of, length, drop, take, ltb, leb, ◌==◌,
  if◌then◌else◌,
}
use tgproxy.Common.Int.{ℤ, pos, negsuc}
use tgproxy.Common.Decimal.{is_space, is_digit, skip_space, leading}

abbrev pub offset : (ℕ → ℕ) → Option ℕ → Option ℕ
offset f none = none
offset f (some k) = some (f k)

-- The first offset of a byte of `delim` in a text.
unfoldable pub first_of : Text → Text → Option ℕ
first_of delim [] = none
first_of delim (c ∷ s) = if one_of delim c then some 0 else offset suc (first_of delim s)

-- `s.find_first_of(delim, last)`: `none` is `npos`.
unfoldable pub find_first_of : Text → Text → ℕ → Option ℕ
find_first_of s delim last = offset (λ k. last + k) (first_of delim (drop last s))

-- `s.substr(start, count)`: `none` where it throws `out_of_range`.
unfoldable pub substr : Text → ℕ → ℕ → Option Text
substr s start count = if leb start (length s) then some (take count (drop start s)) else none

-- `std::string::npos`.
abbrev pub npos : ℕ
npos = 2 ^ 64 - 1

-- `a - b` of `size_t`.
abbrev pub sub64 : ℕ → ℕ → ℕ
sub64 a b = (a + 2 ^ 64 - b) % 2 ^ 64

abbrev pub appended : List Text → Option Text → Option (List Text)
appended ret none = none
appended ret (some piece) = some (ret ++ piece ∷ [])

-- What `split` does behind its loop, where `index` is `npos`.
last_piece : Text → ℕ → List Text → Option (List Text)
last_piece s last ret =
    if ltb 0 (sub64 npos last) then appended ret (substr s last (sub64 npos last)) else some ret

-- The loop of `split`. A round moves `last` forward, so a fuel above the bytes left is enough.
split_loop : ℕ → Text → Text → ℕ → List Text → Option (List Text)
unfolding last_piece
split_loop zero s delim last ret = none
split_loop (suc fuel) s delim last ret = elim (find_first_of s delim last) [
  | none ↦ last_piece s last ret
  | some index ↦ elim (appended ret (substr s last (sub64 index last))) [
    | none ↦ none
    | some ret' ↦ split_loop fuel s delim (index + 1) ret'
  ]
]

-- `split(s, delim, ret)`: the new contents of `ret`; `none` would be an exception of `substr`.
unfoldable pub split : Text → Text → List Text → Option (List Text)
unfolding split_loop
split s delim ret = split_loop (suc (length s)) s delim 0 ret
