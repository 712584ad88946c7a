-- ===== src/Slicer/Unsorted.antt =====
-- The cutting of any keys at all, sorted or not.
use tgproxy.Common.{
  ℕ, zero, suc, ◌+◌, ◌-◌, ◌≤◌, ◌≡◌, refl, ap, ◌∙◌, sym, List, [], ◌∷◌, ◌++◌, length, take, drop,
  take_add, drop_add, replicate, resize-nil, concat, arith,
}
use tgproxy.Slicer.{
  KeyRange, lower_bound, position_loop, positions, segment, copy_loop, is_empty, slice,
}
use tgproxy.Slicer.Search.{lower_bound_bounds}
use tgproxy.Slicer.Slices.{
  copy_loop-cons, copy_loop-nil, position_loop-cons, position_loop-nil, positions-cons,
}

segment-append :
    (keys : List ℕ) (p q r : ℕ)
    → p ≤ q
    → q ≤ r
    → segment keys p q ++ segment keys q r ≡ segment keys p r
segment-append keys p q r h k =
    let q_eq : q ≡ p + (q - p) = omega arith in
    let total : (q - p) + (r - q) ≡ r - p = omega arith in
    ap (λ (d : List ℕ). segment keys p q ++ take (r - q) d)
      (ap (λ (m : ℕ). drop m keys) q_eq ∙ sym (drop_add p (q - p) keys))
    ∙ take_add (q - p) (r - q) (drop p keys)
    ∙ ap (λ (m : ℕ). take m (drop p keys)) total

-- Where the last round of the loop ends.
last_position : List ℕ → ℕ → List KeyRange → ℕ
last_position keys begin [] = begin
last_position keys begin (r ∷ rs) = last_position keys (lower_bound keys begin r.end) rs

last_position_bounds :
    (keys : List ℕ) (rs : List KeyRange) (begin : ℕ)
    → begin ≤ length keys
    → (begin ≤ last_position keys begin rs) × (last_position keys begin rs ≤ length keys)
unfolding last_position
last_position_bounds keys [] begin h = omega arith
last_position_bounds keys (r ∷ rs) begin h =
    let b = lower_bound_bounds keys begin r.end h in
    omega (arith, b, last_position_bounds keys rs (lower_bound keys begin r.end) b.1)

segment_same : (keys : List ℕ) (p : ℕ) → segment keys p p ≡ []
segment_same keys p = let z : p - p ≡ 0 = omega arith in rw z

concat-copy_loop :
    (keys : List ℕ) (rs : List KeyRange) (begin : ℕ)
    → begin ≤ length keys
    → concat (copy_loop keys (begin ∷ position_loop keys begin begin rs) (replicate (length rs) []))
      ≡ segment keys begin (last_position keys begin rs)
unfolding last_position
concat-copy_loop keys [] begin h =
    rw (position_loop-nil, copy_loop-nil keys begin) (sym (segment_same keys begin))
concat-copy_loop keys (r ∷ rs) begin h =
    let q = lower_bound keys begin r.end in
    let b = lower_bound_bounds keys begin r.end h in
    rw
      (
        position_loop-cons keys begin r rs h,
        copy_loop-cons keys begin q,
        concat-copy_loop keys rs q b.1,
      )
      (segment-append keys begin q _ b.0 (last_position_bounds keys rs q b.1).0)

concat-replicate : (n : ℕ) → concat {A = ℕ} (replicate n []) ≡ []
concat-replicate zero = refl
concat-replicate (suc n) = concat-replicate n

-- For every vector of keys, sorted or not, and any ranges, the slices laid end to end are one
-- contiguous run keys[p .. q) of the vector, with p ≤ q ≤ size: no key is reordered, repeated or
-- skipped between the first and the last one sent.
pub concat-slice_any :
    (ranges : List KeyRange) (keys : List ℕ)
    → (p : ℕ) × (q : ℕ) × (p ≤ q)
      × (q ≤ length keys)
      × (concat (slice ranges keys []) ≡ segment keys p q)
unfolding slice is_empty
concat-slice_any ranges [] =
    (0, 0, omega arith, omega arith, rw (resize-nil) (concat-replicate (length ranges)))
concat-slice_any [] (k ∷ keys) =
    (0, 0, omega arith, omega arith, unfold copy_loop positions in refl)
concat-slice_any (r ∷ rs) (k ∷ keys) =
    let ks = k ∷ keys in
    let p = lower_bound ks 0 r.begin in
    let b = lower_bound_bounds ks 0 r.begin (omega arith) in
    let last = last_position_bounds ks (r ∷ rs) p b.1 in
    (
      p,
      last_position ks p (r ∷ rs),
      last.0,
      last.1,
      rw (resize-nil, positions-cons ks r rs) (concat-copy_loop ks (r ∷ rs) p b.1),
    )
