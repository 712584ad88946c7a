-- ===== src/Slicer/Ranges.antt =====
-- The ranges of the constructor: equal widths, end to end from 0, no product wraps.
use tgproxy.Common.{
  ℕ, zero, suc, ◌+◌, ◌-◌, ◌*◌, ◌/◌, ◌≤◌, ◌<◌, ◌≡◌, refl, List, [], ◌∷◌, length, arith, All,
}
use tgproxy.Common.Int.{pos}
use tgproxy.Slicer.{KeyRange, max_key, size, mul64, range_loop, new_slicer}

-- The width of one range, and the end of the last.
abbrev pub width : ℕ → ℕ
width n = max_key / n

abbrev pub cutoff : ℕ → ℕ
cutoff n = width n * n

-- Ranges end to end from `lo` to `hi`, none of them inverted.
abbrev pub Chain : ℕ → List KeyRange → ℕ → Type 0
Chain lo [] hi = lo ≡ hi
Chain lo (r ∷ rs) hi = (r.begin ≡ lo) × (lo ≤ r.end) × Chain r.end rs hi

width_mul : (n i : ℕ) → 0 < n → i ≤ n → width n * i ≤ max_key
width_mul n i h p = grind arith

mul64_exact : (n i : ℕ) → 0 < n → i ≤ n → mul64 (width n) i ≡ width n * i
mul64_exact n i h p = omega (arith, width_mul n i h p)

range_loop-Chain :
    (n i rounds lo hi : ℕ)
    → 0 < n
    → i + rounds ≤ n
    → lo ≡ width n * i
    → hi ≡ width n * (i + rounds)
    → Chain lo (range_loop n i rounds) hi
unfolding range_loop
range_loop-Chain n i zero lo hi h p e f = omega arith
range_loop-Chain n i (suc rounds) lo hi h p e f =
    rw (mul64_exact n i h (omega arith), mul64_exact n (i + 1) h (omega arith))
      (
        omega arith,
        omega arith,
        range_loop-Chain n (i + 1) rounds (width n * (i + 1)) hi h (omega arith) refl (omega arith),
      )

pub cutoff-le : (n : ℕ) → 0 < n → (cutoff n ≤ max_key) × (max_key - cutoff n < n)
cutoff-le n h = ground arith

length-range_loop : (n i rounds : ℕ) → length (range_loop n i rounds) ≡ rounds
unfolding range_loop
length-range_loop n i zero = refl
length-range_loop n i (suc rounds) = omega (arith, length-range_loop n (i + 1) rounds)

pub length-new_slicer : (n : ℕ) → length (new_slicer (pos n)) ≡ n
unfolding new_slicer
length-new_slicer n = length-range_loop n 0 n

range_loop-width :
    (n i rounds : ℕ) → 0 < n → i + rounds ≤ n → All (λ r. size r ≡ width n) (range_loop n i rounds)
unfolding range_loop
range_loop-width n i zero h p = tt
range_loop-width n i (suc rounds) h p = (
  omega (arith, mul64_exact n i h, mul64_exact n (i + 1) h, width_mul n i h, width_mul n (i + 1) h),
  range_loop-width n (i + 1) rounds h (omega arith),
)

-- The n ranges of the constructor (n above 0) lie end to end from 0 to cutoff n, none of them
-- inverted: no product of the constructor wraps.
pub new_slicer-Chain : (n : ℕ) → 0 < n → Chain 0 (new_slicer (pos n)) (cutoff n)
unfolding new_slicer
new_slicer-Chain n h =
    range_loop-Chain n 0 n 0 (cutoff n) h (omega arith) (omega arith) (omega arith)

-- Every range of the constructor (n above 0) has the size (2^64 - 1) / n.
pub new_slicer-width : (n : ℕ) → 0 < n → All (λ r. size r ≡ width n) (new_slicer (pos n))
unfolding new_slicer
new_slicer-width n h = range_loop-width n 0 n h (omega arith)
