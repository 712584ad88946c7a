-- ===== src/Examples/Keys.antt =====
-- The slicer at a few keys.
use tgproxy.Common.{
  ℕ, zero, suc, ◌+◌, ◌^◌, ◌≤◌, ◌<◌, ◌≡◌, refl, List, [], ◌∷◌, map, select, concat, All, arith,
}
use tgproxy.Common.Int.{pos}
use tgproxy.Slicer.{KeyRange, size, new_slicer, lower_bound, segment, slice}
use tgproxy.Slicer.Search.{IsSorted}
use tgproxy.Slicer.Ranges.{cutoff, Chain, new_slicer-Chain}
use tgproxy.Slicer.Slices.{in_range, slice-new_slicer}
use tgproxy.Slicer.Cover.{below, concat-slice}
use tgproxy.Slicer.Unsorted.{concat-slice_any}

-- Two keys in order are sorted, and one key is.
pub pair-IsSorted : (a b : ℕ) → a ≤ b → IsSorted (a ∷ b ∷ [])
pair-IsSorted a b h zero zero p q = omega arith
pair-IsSorted a b h zero (suc zero) p q = h
pair-IsSorted a b h zero (suc (suc k)) p q = absurd (omega arith)
pair-IsSorted a b h (suc i) zero p q = absurd (omega arith)
pair-IsSorted a b h (suc zero) (suc zero) p q = omega arith
pair-IsSorted a b h (suc (suc i)) (suc zero) p q = absurd (omega arith)
pair-IsSorted a b h (suc i) (suc (suc k)) p q = absurd (omega arith)

abbrev pub two_keys : List ℕ
two_keys = 5 ∷ (2 ^ 63 + 9) ∷ []

two_slices : slice (new_slicer (pos 2)) two_keys [] ≡ (5 ∷ []) ∷ ((2 ^ 63 + 9) ∷ []) ∷ []
unfolding slice new_slicer tgproxy.Slicer.range_loop tgproxy.Slicer.lower_bound_loop lower_bound
    tgproxy.Slicer.positions tgproxy.Slicer.position_loop tgproxy.Slicer.copy_loop
two_slices = refl

pub two-IsSorted : IsSorted two_keys
two-IsSorted = pair-IsSorted 5 (2 ^ 63 + 9) (omega arith)

pub two-low : All (λ k. k < cutoff 2) two_keys
two-low = (omega arith, (omega arith, tt))

slice-new_slicer_example :
    slice (new_slicer (pos 2)) two_keys []
    ≡ map (λ r. select (in_range r) two_keys) (new_slicer (pos 2))
slice-new_slicer_example = slice-new_slicer 2 two_keys (omega arith) two-IsSorted

concat-slice_example : concat (slice (new_slicer (pos 2)) two_keys []) ≡ below (cutoff 2) two_keys
concat-slice_example = concat-slice 2 two_keys (omega arith) two-IsSorted

concat-slice_any_example :
    (p : ℕ) × (q : ℕ) × (p ≤ q)
    × (q ≤ 3)
    × (concat (slice (new_slicer (pos 2)) (9 ∷ 2 ∷ 2 ^ 63 ∷ []) [])
        ≡ segment (9 ∷ 2 ∷ 2 ^ 63 ∷ []) p q)
concat-slice_any_example = concat-slice_any (new_slicer (pos 2)) (9 ∷ 2 ∷ 2 ^ 63 ∷ [])

new_slicer-Chain_example : Chain 0 (new_slicer (pos 3)) (cutoff 3)
new_slicer-Chain_example = new_slicer-Chain 3 (omega arith)
