-- ===== src/Slicer/Slices.antt =====
-- What `slice` returns on sorted keys: for every range, the keys that lie in it, in order.
use tgproxy.Common.{
  ℕ, zero, suc, ◌+◌, ◌-◌, ◌≤◌, ◌<◌, ◌≡◌, refl, sym, ap, subst, Bool, ◌&&◌, List, [], ◌∷◌, map,
  length, take, drop, replicate, resize-nil, select, arith, ltb, leb, ◌==◌, Bool-cases, ==_iff, inl,
  inr, if◌then◌else◌,
}
use mathlib.Core.Path.{ap₂}
use tgproxy.Common.Int.{pos}
use tgproxy.Slicer.{
  KeyRange, new_slicer, lower_bound, position_loop, positions, segment, copy_loop, is_empty, slice,
}
use tgproxy.Slicer.Search.{IsSorted, SplitsAt, lower_bound_bounds, lower_bound-SplitsAt}
use tgproxy.Slicer.Ranges.{cutoff, Chain, new_slicer-Chain}

abbrev pub in_range : KeyRange → ℕ → Bool
in_range r k = leb r.begin k && ltb k r.end

-- `p` splits the whole vector at `v`.
abbrev Cut : List ℕ → ℕ → ℕ → Type 0
Cut keys v p = SplitsAt keys v 0 (length keys) p

Cut-tail : (k : ℕ) (keys : List ℕ) (v p : ℕ) → Cut (k ∷ keys) v (suc p) → Cut keys v p
Cut-tail k keys v p c = (
  λ i h q. c.0 (suc i) (omega arith) (omega arith),
  λ i h q. c.1 (suc i) (omega arith) (omega arith),
)

Cut-tail_zero : (k : ℕ) (keys : List ℕ) (v : ℕ) → Cut (k ∷ keys) v 0 → Cut keys v 0
Cut-tail_zero k keys v c =
    (λ i h q. absurd (omega arith), λ i h q. c.1 (suc i) (omega arith) (omega arith))

-- Between the cuts at the ends of a range lie the keys of the range.
select-segment :
    (keys : List ℕ) (r : KeyRange) (p m q : ℕ)
    → q ≡ p + m
    → q ≤ length keys
    → Cut keys r.begin p
    → Cut keys r.end q
    → select (in_range r) keys ≡ take m (drop p keys)
select-segment [] r zero zero q eq h b e = refl
select-segment [] r zero (suc m) q eq h b e = absurd (omega arith)
select-segment [] r (suc p) m q eq h b e = absurd (omega arith)
select-segment (k ∷ keys) r zero (suc m) zero eq h b e = absurd (omega arith)
select-segment (k ∷ keys) r (suc p) m zero eq h b e = absurd (omega arith)
select-segment (k ∷ keys) r zero zero (suc q) eq h b e = absurd (omega arith)
select-segment (k ∷ keys) r zero zero zero eq h b e = ground (
  arith,
  e.1 0,
  select-segment keys r 0 0 0 (omega arith) (omega arith) (Cut-tail_zero k keys r.begin b)
      (Cut-tail_zero k keys r.end e),
)
select-segment (k ∷ keys) r zero (suc m) (suc q) eq h b e = ground (
  arith,
  b.1 0,
  e.0 0,
  select-segment keys r 0 m q (omega arith) (omega arith) (Cut-tail_zero k keys r.begin b)
      (Cut-tail k keys r.end q e),
)
select-segment (k ∷ keys) r (suc p) m (suc q) eq h b e = ground (
  arith,
  b.0 0,
  select-segment keys r p m q (omega arith) (omega arith) (Cut-tail k keys r.begin p b)
      (Cut-tail k keys r.end q e),
)

-- The cut at `v` that the search from an earlier cut finds is a cut of the whole vector.
search-Cut :
    (keys : List ℕ) (first lo v : ℕ)
    → IsSorted keys
    → first ≤ length keys
    → lo ≤ v
    → Cut keys lo first
    → Cut keys v (lower_bound keys first v)
search-Cut keys first lo v s h le c =
    let found = lower_bound-SplitsAt keys first v s h in
    (λ i p q. grind (arith, c.0 i p, found.0 i), λ i p q. found.1 i p q)

-- Leaving an empty slice alone is copying an empty segment.
copied : (keys : List ℕ) (p q : ℕ) → (if q == p then [] else segment keys p q) ≡ segment keys p q
copied keys p q = elim (Bool-cases (q == p)) [
  | inl e ↦ let none_left : q - p ≡ 0 = omega (arith, (==_iff q p).0 e) in rw (e, none_left)
  | inr e ↦ rw e
]

pub copy_loop-cons :
    (keys : List ℕ) (p q : ℕ) (rest : List ℕ) (slices : List (List ℕ))
    → copy_loop keys (p ∷ q ∷ rest) ([] ∷ slices)
      ≡ segment keys p q ∷ copy_loop keys (q ∷ rest) slices
unfolding copy_loop
copy_loop-cons keys p q rest slices = rw (copied keys p q)

pub copy_loop-nil : (keys : List ℕ) (p : ℕ) → copy_loop keys (p ∷ []) [] ≡ []
unfolding copy_loop
copy_loop-nil keys p = refl

pub position_loop-nil : (keys : List ℕ) (begin p : ℕ) → position_loop keys begin p [] ≡ []
unfolding position_loop
position_loop-nil keys begin p = refl

-- The two counters of the loop agree, and are where the search ended.
pub position_loop-cons :
    (keys : List ℕ) (begin : ℕ) (r : KeyRange) (rs : List KeyRange)
    → begin ≤ length keys
    → let q = lower_bound keys begin r.end in
      position_loop keys begin begin (r ∷ rs) ≡ q ∷ position_loop keys q q rs
unfolding position_loop
position_loop-cons keys begin r rs h =
    let q = lower_bound keys begin r.end in
    let here : begin + (q - begin) ≡ q = omega (arith, lower_bound_bounds keys begin r.end h) in
    rw here

-- The loops over the ranges, from a cut at the begin of the first one on.
copy_loop-map :
    (keys : List ℕ) (rs : List KeyRange) (lo hi begin : ℕ)
    → IsSorted keys
    → Chain lo rs hi
    → begin ≤ length keys
    → Cut keys lo begin
    → copy_loop keys (begin ∷ position_loop keys begin begin rs) (replicate (length rs) [])
      ≡ map (λ r. select (in_range r) keys) rs
copy_loop-map keys [] lo hi begin s ch h c = rw position_loop-nil (copy_loop-nil keys begin)
copy_loop-map keys (r ∷ rs) lo hi begin s ch h c =
    let q = lower_bound keys begin r.end in
    let bounds = lower_bound_bounds keys begin r.end h in
    let cut = search-Cut keys begin lo r.end s h ch.1 c in
    rw (position_loop-cons keys begin r rs h, copy_loop-cons keys begin q)
      (ap₂ ◌∷◌
        (sym (
          select-segment keys r begin (q - begin) q (omega (arith, bounds)) bounds.1
            (subst (λ v. Cut keys v begin) (sym ch.0) c) cut))
        (copy_loop-map keys rs r.end hi q s ch.2 bounds.1 cut))

start-Cut : (keys : List ℕ) → Cut keys 0 0
start-Cut keys = (λ i p q. absurd (omega arith), λ i p q. omega arith)

-- The first search finds the cut at the begin of the first range.
pub positions-cons :
    (keys : List ℕ) (r : KeyRange) (rs : List KeyRange)
    → let p = lower_bound keys 0 r.begin in
      positions keys (r ∷ rs) ≡ p ∷ position_loop keys p p (r ∷ rs)
unfolding positions
positions-cons keys r rs =
    let p = lower_bound keys 0 r.begin in
    let here : p - 0 ≡ p = omega arith in let begin : 0 + p ≡ p = omega arith in rw (here, begin)

no_keys : (rs : List KeyRange) → replicate (length rs) [] ≡ map (λ r. select (in_range r) []) rs
no_keys [] = refl
no_keys (r ∷ rs) = ap (◌∷◌ []) (no_keys rs)

-- Along any chain of ranges, sorted keys are sliced into the keys of each range.
pub slice-map :
    (ranges : List KeyRange) (keys : List ℕ) (lo hi : ℕ)
    → IsSorted keys
    → Chain lo ranges hi
    → slice ranges keys [] ≡ map (λ r. select (in_range r) keys) ranges
unfolding slice is_empty
slice-map ranges [] lo hi s ch = rw resize-nil (no_keys ranges)
slice-map [] (k ∷ keys) lo hi s ch = unfold copy_loop positions in refl
slice-map (r ∷ rs) (k ∷ keys) lo hi s ch =
    let p = lower_bound (k ∷ keys) 0 r.begin in
    rw (resize-nil, positions-cons (k ∷ keys) r rs)
      (copy_loop-map (k ∷ keys) (r ∷ rs) r.begin hi p s (refl, omega (arith, ch.0, ch.1), ch.2)
        (lower_bound_bounds (k ∷ keys) 0 r.begin (omega arith)).1
        (search-Cut (k ∷ keys) 0 0 r.begin s (omega arith) (omega arith) (start-Cut (k ∷ keys))))

-- Slicing sorted keys by `RangeSlicer(n)` gives, for each of the n ranges in turn, exactly the keys
-- at least its begin and below its end, in their order, for every n above 0.
pub slice-new_slicer :
    (n : ℕ) (keys : List ℕ)
    → 0 < n
    → IsSorted keys
    → slice (new_slicer (pos n)) keys [] ≡ map (λ r. select (in_range r) keys) (new_slicer (pos n))
slice-new_slicer n keys h s =
    slice-map (new_slicer (pos n)) keys 0 (cutoff n) s (new_slicer-Chain n h)
