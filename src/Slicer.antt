-- ===== src/Slicer.antt =====
-- tiangan/slicer.h: the key ranges of the partitions, and the cutting of a key vector along them.
-- Keys are `uint64_t`: the constructor's products wrap at 2 ^ 64. Positions are `size_t` offsets
-- from the start of the vector.
pub mod Search
pub mod Ranges
pub mod Slices
pub mod Cover
pub mod Unsorted
use tgproxy.Common.{
  ℕ, zero, suc, ◌+◌, ◌-◌, ◌*◌, ◌/◌, ◌%◌, ◌^◌, Bool, true, false, List, [], ◌∷◌, length, get_or,
  take, drop, resize, ltb, ◌==◌, if◌then◌else◌,
}
use tgproxy.Common.Int.{ℤ, pos, negsuc}

-- `std::numeric_limits<K>::max()` at K = uint64.
abbrev pub max_key : ℕ
max_key = 2 ^ 64 - 1

pub record KeyRange : Type 0 where
  pub begin : ℕ
  pub end : ℕ

-- `KeyRange::size()`.
abbrev pub size : KeyRange → ℕ
size r = (r.end + 2 ^ 64 - r.begin) % 2 ^ 64

abbrev pub mul64 : ℕ → ℕ → ℕ
mul64 a b = (a * b) % 2 ^ 64

-- The loop of the constructor from round `i` on, `rounds` of it left.
unfoldable pub range_loop : ℕ → ℕ → ℕ → List KeyRange
range_loop range i zero = []
range_loop range i (suc rounds) =
    record { begin = mul64 (max_key / range) i; end = mul64 (max_key / range) (i + 1) }
    ∷ range_loop range (i + 1) rounds

-- The constructor: `ranges_` after `RangeSlicer(range)`. A negative count runs no round.
unfoldable pub new_slicer : ℤ → List KeyRange
new_slicer (pos n) = range_loop n 0 n
new_slicer (negsuc n) = []

-- `std::lower_bound` on keys[first .. first + len): halve, and keep the half with the answer.
unfoldable pub lower_bound_loop : ℕ → List ℕ → ℕ → ℕ → ℕ → ℕ
lower_bound_loop zero keys v first len = first
lower_bound_loop (suc fuel) keys v first len = elim (len == 0) [
  | true ↦ first
  | false ↦ elim (ltb (get_or keys (first + len / 2) 0) v) [
    | true ↦ lower_bound_loop fuel keys v (first + len / 2 + 1) (len - len / 2 - 1)
    | false ↦ lower_bound_loop fuel keys v first (len / 2)
  ]
]

-- `std::lower_bound(keys.begin() + first, keys.end(), v)`, as an offset from `keys.begin()`.
unfoldable pub lower_bound : List ℕ → ℕ → ℕ → ℕ
unfolding lower_bound_loop
lower_bound keys first v =
    lower_bound_loop (suc (length keys - first)) keys v first (length keys - first)

-- The rounds of `slice(begin, end, pos)`: `begin` is the iterator's offset and `p` is `pos[i]`; the
-- result is `pos[i + 1]` and what follows it.
unfoldable pub position_loop : List ℕ → ℕ → ℕ → List KeyRange → List ℕ
position_loop keys begin p [] = []
position_loop keys begin p (r ∷ rs) =
    let len = lower_bound keys begin r.end - begin in
    (p + len) ∷ position_loop keys (begin + len) (p + len) rs

-- `pos` after `slice(begin, end, pos)`, for a vector that started as n + 1 zeros.
unfoldable pub positions : List ℕ → List KeyRange → List ℕ
positions keys [] = 0 ∷ []
positions keys (r ∷ rs) =
    let p = lower_bound keys 0 r.begin - 0 in p ∷ position_loop keys (0 + p) p (r ∷ rs)

-- The keys at [p, q).
abbrev pub segment : List ℕ → ℕ → ℕ → List ℕ
segment keys p q = take (q - p) (drop p keys)

-- The copy loop: a slice whose positions coincide is left as it was.
unfoldable pub copy_loop : List ℕ → List ℕ → List (List ℕ) → List (List ℕ)
copy_loop keys (p ∷ q ∷ rest) (s ∷ slices) =
    (if q == p then s else segment keys p q) ∷ copy_loop keys (q ∷ rest) slices
copy_loop keys _ slices = slices

is_empty : List ℕ → Bool
is_empty [] = true
is_empty (k ∷ keys) = false

-- `slice(keys, slices)`: the new contents of `slices`.
unfoldable pub slice : List KeyRange → List ℕ → List (List ℕ) → List (List ℕ)
unfolding is_empty
slice ranges keys slices =
    let resized = resize (length ranges) [] slices in
    if is_empty keys then resized else copy_loop keys (positions keys ranges) resized
