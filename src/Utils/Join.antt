-- ===== src/Utils/Join.antt =====
-- `split` at one byte and joining with it undo each other.
use tgproxy.Common.{
  ℕ, ◌<◌, ◌≡◌, ◌≢◌, refl, ap, ◌∙◌, List, [], ◌∷◌, ◌++◌, some, Text, one_of, length, arith,
  Bool-cases, inl, inr, All,
}
use tgproxy.Utils.{npos, split}
use tgproxy.Utils.Split.{behind, pieces, split-pieces}

-- The texts with `d` between them.
unfoldable pub join : ℕ → List Text → Text
join d [] = []
join d (p ∷ []) = p
join d (p ∷ q ∷ ps) = p ++ d ∷ join d (q ∷ ps)

abbrev pub Lacks : ℕ → Text → Type 0
Lacks d = All (λ c. c ≢ d)

join-behind : (d c : ℕ) (ps : List Text) → join d (behind c ps) ≡ c ∷ join d ps
unfolding join
join-behind d c [] = refl
join-behind d c (p ∷ []) = refl
join-behind d c (p ∷ q ∷ ps) = refl

pieces-cons : (d : ℕ) (s : Text) → (p : Text) × (ps : List Text) × (pieces (d ∷ []) s ≡ p ∷ ps)
unfolding pieces
pieces-cons d [] = ([], [], refl)
pieces-cons d (c ∷ s) = elim (Bool-cases (one_of (d ∷ []) c)) [
  | inl e ↦ ([], pieces (d ∷ []) s, rw e)
  | inr e ↦ let (p, ps, f) = pieces-cons d s in (c ∷ p, ps, rw e (ap (behind c) f))
]

join-cut : (d : ℕ) (ps : List Text) → ps ≢ [] → join d ([] ∷ ps) ≡ d ∷ join d ps
unfolding join
join-cut d [] h = absurd (h refl)
join-cut d (p ∷ ps) h = refl

pieces-ne-nil : (d : ℕ) (s : Text) → pieces (d ∷ []) s ≢ []
pieces-ne-nil d s e = let (p, ps, f) = pieces-cons d s in cc (e, f)

pub join-pieces : (d : ℕ) (s : Text) → join d (pieces (d ∷ []) s) ≡ s
unfolding pieces
join-pieces d [] = unfold join in refl
join-pieces d (c ∷ s) = ground (
  arith,
  join-pieces d s,
  join-behind d c (pieces (d ∷ []) s),
  join-cut d (pieces (d ∷ []) s) (pieces-ne-nil d s),
)

behind-Lacks : (d c : ℕ) (ps : List Text) → c ≢ d → All (Lacks d) ps → All (Lacks d) (behind c ps)
behind-Lacks d c [] h a = ((h, tt), tt)
behind-Lacks d c (p ∷ ps) h a = ((h, a.0), a.1)

pub pieces-Lacks : (d : ℕ) (s : Text) → All (Lacks d) (pieces (d ∷ []) s)
unfolding pieces
pieces-Lacks d [] = (tt, tt)
pieces-Lacks d (c ∷ s) = elim (Bool-cases (one_of (d ∷ []) c)) [
  | inl e ↦ rw e (tt, pieces-Lacks d s)
  | inr e ↦ rw e (behind-Lacks d c (pieces (d ∷ []) s) (ground arith) (pieces-Lacks d s))
]

pieces-append :
    (d : ℕ) (p rest : Text) → Lacks d p → pieces (d ∷ []) (p ++ d ∷ rest) ≡ p ∷ pieces (d ∷ []) rest
unfolding pieces
pieces-append d [] rest h = ground arith
pieces-append d (c ∷ p) rest h = ground (arith, h.0, pieces-append d p rest h.1)

pieces_single : (d : ℕ) (p : Text) → Lacks d p → pieces (d ∷ []) p ≡ p ∷ []
unfolding pieces
pieces_single d [] h = refl
pieces_single d (c ∷ p) h = ground (arith, h.0, pieces_single d p h.1)

pub pieces-join :
    (d : ℕ) (ps : List Text) → ps ≢ [] → All (Lacks d) ps → pieces (d ∷ []) (join d ps) ≡ ps
unfolding join
pieces-join d [] h a = absurd (h refl)
pieces-join d (p ∷ []) h a = pieces_single d p a.0
pieces-join d (p ∷ q ∷ ps) h a =
    pieces-append d p (join d (q ∷ ps)) a.0 ∙ ap (◌∷◌ p) (pieces-join d (q ∷ ps) (λ e. cc) a.1)

-- For every text shorter than `npos`, `split` at one byte throws nothing, and what it appends to an
-- empty vector are pieces without that byte which, joined with it, are the text again.
pub join-split :
    (d : ℕ) (s : Text)
    → length s < npos
    → (ps : List Text) × (split s (d ∷ []) [] ≡ some ps) × (join d ps ≡ s) × All (Lacks d) ps
join-split d s h =
    (pieces (d ∷ []) s, split-pieces s (d ∷ []) [] h, join-pieces d s, pieces-Lacks d s)

-- `split` at one byte recovers any non-empty list of texts without that byte from their join, if
-- the join is shorter than `npos`.
pub split-join :
    (d : ℕ) (ps : List Text)
    → ps ≢ []
    → All (Lacks d) ps
    → length (join d ps) < npos
    → split (join d ps) (d ∷ []) [] ≡ some ps
split-join d ps h a n = split-pieces (join d ps) (d ∷ []) [] n ∙ ap some (pieces-join d ps h a)
