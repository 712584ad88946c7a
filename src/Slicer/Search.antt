-- ===== src/Slicer/Search.antt =====
-- What `std::lower_bound` finds: on any vector an offset of the range, on a sorted one the split.
use tgproxy.Common.{ℕ, zero, suc, ◌+◌, ◌-◌, ◌/◌, ◌≤◌, ◌<◌, ◌⊎◌, List, length, get_or, arith}
use tgproxy.Slicer.{lower_bound_loop, lower_bound}

infixl 90 ◌!◌
abbrev pub ◌!◌ : List ℕ → ℕ → ℕ
keys ! i = get_or keys i 0

abbrev pub IsSorted : List ℕ → Type 0
IsSorted keys = (i j : ℕ) → i ≤ j → j < length keys → keys ! i ≤ keys ! j

loop_bounds :
    (fuel : ℕ) (keys : List ℕ) (v first len : ℕ)
    → (first ≤ lower_bound_loop fuel keys v first len)
      × (lower_bound_loop fuel keys v first len ≤ first + len)
unfolding lower_bound_loop
loop_bounds zero keys v first len = omega arith
loop_bounds (suc fuel) keys v first len = ground (
  arith,
  loop_bounds fuel keys v (first + len / 2 + 1) (len - len / 2 - 1),
  loop_bounds fuel keys v first (len / 2),
)

pub lower_bound_bounds :
    (keys : List ℕ) (first v : ℕ)
    → first ≤ length keys
    → (first ≤ lower_bound keys first v) × (lower_bound keys first v ≤ length keys)
unfolding lower_bound
lower_bound_bounds keys first v h =
    omega (arith, loop_bounds (suc (length keys - first)) keys v first (length keys - first))

-- Where index `i` stands to the answer `r`.
abbrev Side : List ℕ → ℕ → ℕ → ℕ → Type 0
Side keys v r i = ((i < r) × (keys ! i < v)) ⊎ ((r ≤ i) × (v ≤ keys ! i))

loop-Side :
    (fuel : ℕ) (keys : List ℕ) (v first len i : ℕ)
    → IsSorted keys
    → len < fuel
    → first + len ≤ length keys
    → first ≤ i
    → i < first + len
    → Side keys v (lower_bound_loop fuel keys v first len) i
unfolding lower_bound_loop
loop-Side zero keys v first len i s f h p q = absurd (omega arith)
loop-Side (suc fuel) keys v first len i s f h p q =
    let mid = first + len / 2 in
    ground (
      arith,
      s i mid,
      s mid i,
      loop_bounds fuel keys v (mid + 1) (len - len / 2 - 1),
      loop_bounds fuel keys v first (len / 2),
      loop-Side fuel keys v (mid + 1) (len - len / 2 - 1) i s,
      loop-Side fuel keys v first (len / 2) i s,
    )

-- The keys of [lo, hi) below `v` are those before `r`.
abbrev pub SplitsAt : List ℕ → ℕ → ℕ → ℕ → ℕ → Type 0
SplitsAt keys v lo hi r =
    ((i : ℕ) → lo ≤ i → i < r → keys ! i < v) × ((i : ℕ) → r ≤ i → i < hi → v ≤ keys ! i)

-- On a sorted vector the binary search ends at the split of the range at `v`.
pub lower_bound-SplitsAt :
    (keys : List ℕ) (first v : ℕ)
    → IsSorted keys
    → first ≤ length keys
    → SplitsAt keys v first (length keys) (lower_bound keys first v)
lower_bound-SplitsAt keys first v s h =
    (λ i p q. ground (arith, side i, bounds), λ i p q. ground (arith, side i, bounds))
  where
    bounds : (first ≤ lower_bound keys first v) × (lower_bound keys first v ≤ length keys)
    bounds = lower_bound_bounds keys first v h

    side : (i : ℕ) → first ≤ i → i < length keys → Side keys v (lower_bound keys first v) i
    side i p q =
        unfold lower_bound in
        loop-Side (suc (length keys - first)) keys v first (length keys - first) i s (omega arith)
          (omega arith) p (omega arith)
