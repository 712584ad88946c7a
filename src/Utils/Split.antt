-- ===== src/Utils/Split.antt =====
-- `split` cuts a text at every byte of the delimiter set, and keeps every piece, the empty ones too.
use tgproxy.Common.{
  ℕ, zero, suc, ◌+◌, ◌-◌, ◌≤◌, ◌<◌, ◌≡◌, refl, ap, ◌∙◌, sym, false, List, [], ◌∷◌, ◌++◌,
  append_assoc, Option, none, some, Text, one_of, length, drop, take, drop_add, arith, lt→ltb,
  if◌then◌else◌, Bool-cases, inl, inr,
}
use tgproxy.Utils.{
  offset, first_of, find_first_of, substr, npos, sub64, last_piece, split_loop, split,
}

abbrev pub behind : ℕ → List Text → List Text
behind c [] = (c ∷ []) ∷ []
behind c (p ∷ ps) = (c ∷ p) ∷ ps

-- The pieces of a text, read from its front.
unfoldable pub pieces : Text → Text → List Text
pieces delim [] = [] ∷ []
pieces delim (c ∷ s) = if one_of delim c then [] ∷ pieces delim s else behind c (pieces delim s)

-- The first cut of a text.
abbrev Cuts : Text → Text → Option ℕ → Type 0
Cuts delim t none = pieces delim t ≡ t ∷ []
Cuts delim t (some k) = (k < length t) × (pieces delim t ≡ take k t ∷ pieces delim (drop (suc k) t))

Cuts-cons :
    (delim t : Text) (c : ℕ) (o : Option ℕ)
    → one_of delim c ≡ false
    → Cuts delim t o
    → Cuts delim (c ∷ t) (offset suc o)
unfolding pieces
Cuts-cons delim t c none e h = rw e (ap (behind c) h)
Cuts-cons delim t c (some k) e h = (omega (arith, h.0), rw e (ap (behind c) h.1))

first_of-Cuts : (delim t : Text) → Cuts delim t (first_of delim t)
unfolding first_of pieces
first_of-Cuts delim [] = refl
first_of-Cuts delim (c ∷ t) = elim (Bool-cases (one_of delim c)) [
  | inl e ↦ rw (e, first_of) (omega arith, rw e)
  | inr e ↦ rw (e, first_of) (Cuts-cons delim t c (first_of delim t) e (first_of-Cuts delim t))
]

substr-take :
    (s : Text) (start count : ℕ)
    → start ≤ length s
    → substr s start count ≡ some (take count (drop start s))
unfolding substr
substr-take s start count h = ground arith

take_all : (n : ℕ) (t : Text) → length t ≤ n → take n t ≡ t
take_all zero [] h = refl
take_all (suc n) [] h = refl
take_all zero (c ∷ t) h = absurd (omega arith)
take_all (suc n) (c ∷ t) h = ap (◌∷◌ c) (take_all n t (omega arith))

length-drop_add : (n : ℕ) (t : Text) → n ≤ length t → length (drop n t) + n ≡ length t
length-drop_add zero t h = omega arith
length-drop_add (suc n) [] h = absurd (omega arith)
length-drop_add (suc n) (c ∷ t) h = omega (arith, length-drop_add n t (omega arith))

last_piece_rest :
    (s : Text) (last : ℕ) (ret : List Text)
    → length s < npos
    → last ≤ length s
    → last_piece s last ret ≡ some (ret ++ drop last s ∷ [])
unfolding last_piece
last_piece_rest s last ret n h =
    let left : 0 < sub64 npos last = omega arith in
    let long : length (drop last s) ≤ sub64 npos last = omega (arith, length-drop_add last s h) in
    rw (lt→ltb _ _ left, substr-take s last (sub64 npos last) h, take_all _ (drop last s) long)

split_loop_end :
    (fuel : ℕ) (s delim : Text) (last : ℕ) (ret : List Text)
    → first_of delim (drop last s) ≡ none
    → split_loop (suc fuel) s delim last ret ≡ last_piece s last ret
unfolding split_loop find_first_of
split_loop_end fuel s delim last ret e = rw (e, split_loop)

split_loop_round :
    (fuel : ℕ) (s delim : Text) (last k : ℕ) (ret : List Text)
    → first_of delim (drop last s) ≡ some k
    → last + k < npos
    → last ≤ length s
    → split_loop (suc fuel) s delim last ret
      ≡ split_loop fuel s delim (last + k + 1) (ret ++ take k (drop last s) ∷ [])
unfolding split_loop find_first_of
split_loop_round fuel s delim last k ret e n h =
    let size : sub64 (last + k) last ≡ k = omega arith in
    rw (e, split_loop, size, substr-take s last k h)

-- One round, where the rounds behind it are right.
split_round :
    (fuel : ℕ) (s delim : Text) (last : ℕ) (ret : List Text)
    → length s < npos
    → last ≤ length s
    → length s - last < suc fuel
    → ((l : ℕ) (r : List Text)
        → l ≤ length s
        → length s - l < fuel
        → split_loop fuel s delim l r ≡ some (r ++ pieces delim (drop l s)))
    → (o : Option ℕ) → first_of delim (drop last s) ≡ o
    → Cuts delim (drop last s) o
    → split_loop (suc fuel) s delim last ret ≡ some (ret ++ pieces delim (drop last s))
split_round fuel s delim last ret n h f later none e c =
    split_loop_end fuel s delim last ret e
    ∙ last_piece_rest s last ret n h
    ∙ ap (λ (ps : List Text). some (ret ++ ps)) (sym c)
split_round fuel s delim last ret n h f later (some k) e c =
    let len = length-drop_add last s h in
    let index : last + suc k ≡ last + k + 1 = omega arith in
    split_loop_round fuel s delim last k ret e (omega (arith, len, c.0)) h
    ∙ later (last + k + 1) (ret ++ take k (drop last s) ∷ []) (omega (arith, len, c.0))
        (omega (arith, len, c.0))
    ∙ ap some (
        append_assoc ret _ _
        ∙ ap (λ (t : Text). ret ++ take k (drop last s) ∷ pieces delim t)
            (ap (λ (m : ℕ). drop m s) (sym index) ∙ sym (drop_add last (suc k) s))
        ∙ ap (◌++◌ ret) (sym c.1))

split_loop-pieces :
    (fuel : ℕ) (s delim : Text) (last : ℕ) (ret : List Text)
    → length s < npos
    → last ≤ length s
    → length s - last < fuel
    → split_loop fuel s delim last ret ≡ some (ret ++ pieces delim (drop last s))
split_loop-pieces zero s delim last ret n h f = absurd (omega arith)
split_loop-pieces (suc fuel) s delim last ret n h f =
    split_round fuel s delim last ret n h f (λ l r b m. split_loop-pieces fuel s delim l r n b m)
      (first_of delim (drop last s)) refl (first_of-Cuts delim (drop last s))

-- For every text shorter than `npos`, `split` throws nothing and appends the pieces between the bytes of `delim`.
pub split-pieces :
    (s delim : Text) (ret : List Text)
    → length s < npos
    → split s delim ret ≡ some (ret ++ pieces delim s)
unfolding split
split-pieces s delim ret h =
    split_loop-pieces (suc (length s)) s delim 0 ret h (omega arith) (omega arith)
