-- ===== src/Slicer/Cover.antt =====
-- The slices of sorted keys, laid end to end, and the keys that no slice holds.
use tgproxy.Common.{
  ℕ, suc, ◌≤◌, ◌<◌, ◌≡◌, refl, ◌∙◌, sym, subst, ◌&&◌, List, [], ◌∷◌, ◌++◌, map, length, select,
  concat, arith, ltb, leb, All,
}
use tgproxy.Common.Int.{pos}
use tgproxy.Slicer.{KeyRange, new_slicer, slice}
use tgproxy.Slicer.Search.{◌!◌, IsSorted}
use tgproxy.Slicer.Ranges.{cutoff, Chain, new_slicer-Chain}
use tgproxy.Slicer.Slices.{in_range, slice-new_slicer}

abbrev between : ℕ → ℕ → List ℕ → List ℕ
between lo hi = select (λ k. leb lo k && ltb k hi)

IsSorted-tail : (k : ℕ) (keys : List ℕ) → IsSorted (k ∷ keys) → IsSorted keys
IsSorted-tail k keys s i j p q = s (suc i) (suc j) (omega arith) (omega arith)

head-le : (k : ℕ) (keys : List ℕ) → IsSorted (k ∷ keys) → (i : ℕ) → i < length keys → k ≤ keys ! i
head-le k keys s i h = s 0 (suc i) (omega arith) (omega arith)

between_none :
    (lo hi : ℕ) (keys : List ℕ)
    → ((i : ℕ) → i < length keys → hi ≤ keys ! i)
    → between lo hi keys ≡ []
between_none lo hi [] h = refl
between_none lo hi (k ∷ keys) h =
    ground (arith, h 0, between_none lo hi keys (λ i p. h (suc i) (omega arith)))

between-append :
    (lo mid hi : ℕ) (keys : List ℕ)
    → IsSorted keys
    → lo ≤ mid
    → mid ≤ hi
    → between lo mid keys ++ between mid hi keys ≡ between lo hi keys
between-append lo mid hi [] s p q = refl
between-append lo mid hi (k ∷ keys) s p q =
    let rest = between-append lo mid hi keys (IsSorted-tail k keys s) p q in
    let none_below =
      λ (h : mid ≤ k). between_none lo mid keys (λ i r. omega (arith, head-le k keys s i r)) in
    ground (arith, rest, none_below)

Chain-le : (lo hi : ℕ) (rs : List KeyRange) → Chain lo rs hi → lo ≤ hi
Chain-le lo hi [] ch = omega (arith, ch)
Chain-le lo hi (r ∷ rs) ch = omega (arith, ch.1, Chain-le r.end hi rs ch.2)

between-eq : (lo : ℕ) (keys : List ℕ) → between lo lo keys ≡ []
between-eq lo [] = refl
between-eq lo (k ∷ keys) = ground (arith, between-eq lo keys)

concat-Chain :
    (keys : List ℕ) (rs : List KeyRange) (lo hi : ℕ)
    → IsSorted keys
    → Chain lo rs hi
    → concat (map (λ r. select (in_range r) keys) rs) ≡ between lo hi keys
concat-Chain keys [] lo hi s ch = rw ch (sym (between-eq hi keys))
concat-Chain keys (r ∷ rs) lo hi s ch = rw (concat-Chain keys rs r.end hi s ch.2) (
    subst (λ b. between b r.end keys ++ between r.end hi keys ≡ between lo hi keys) (sym ch.0)
      (between-append lo r.end hi keys s ch.1 (Chain-le r.end hi rs ch.2)))

-- The keys below a bound.
abbrev pub below : ℕ → List ℕ → List ℕ
below hi = select (λ k. ltb k hi)

between_zero : (hi : ℕ) (keys : List ℕ) → between 0 hi keys ≡ below hi keys
between_zero hi [] = refl
between_zero hi (k ∷ keys) = ground (arith, between_zero hi keys)

-- The slices of sorted keys under n ranges (n above 0), laid end to end, are the keys below
-- cutoff n = (2^64 - 1) / n * n in their order: nothing is reordered or duplicated, and the keys
-- from cutoff n on are in no slice.
pub concat-slice :
    (n : ℕ) (keys : List ℕ)
    → 0 < n
    → IsSorted keys
    → concat (slice (new_slicer (pos n)) keys []) ≡ below (cutoff n) keys
concat-slice n keys h s = rw (slice-new_slicer n keys h s) (
    concat-Chain keys (new_slicer (pos n)) 0 (cutoff n) s (new_slicer-Chain n h)
    ∙ between_zero (cutoff n) keys)

below-All : (hi : ℕ) (keys : List ℕ) → All (λ k. k < hi) keys → below hi keys ≡ keys
below-All hi [] h = refl
below-All hi (k ∷ keys) h = ground (arith, h.0, below-All hi keys h.1)

-- Sorted keys that all lie below the cutoff are cut without loss.
pub concat-slice-All :
    (n : ℕ) (keys : List ℕ)
    → 0 < n
    → IsSorted keys
    → All (λ k. k < cutoff n) keys
    → concat (slice (new_slicer (pos n)) keys []) ≡ keys
concat-slice-All n keys h s a = concat-slice n keys h s ∙ below-All (cutoff n) keys a
