-- ===== src/Tiangan/Trim.antt =====
-- What `trim` cuts off.
use tgproxy.Common.{
  ℕ, ◌≡◌, inl, inr, refl, ap, ◌∙◌, true, false, ◌&&◌, [], ◌∷◌, ◌++◌, Text, empty, if◌then◌else◌,
  All, Bool-cases,
}
use tgproxy.Common.Decimal.{is_space, skip_space}
use tgproxy.Tiangan.{trim_end, trim}

abbrev pub AllSpace : Text → Type 0
AllSpace = All (λ c. is_space c ≡ true)

-- The first byte is no space.
abbrev pub Starts : Text → Type 0
Starts [] = Unit
Starts (c ∷ s) = is_space c ≡ false

-- The last byte is no space.
abbrev pub Ends : Text → Type 0
Ends [] = Unit
Ends (c ∷ []) = is_space c ≡ false
Ends (c ∷ d ∷ s) = Ends (d ∷ s)

skip_space-cut :
    (s : Text)
    → (front : Text) × (s ≡ front ++ skip_space s) × AllSpace front × Starts (skip_space s)
unfolding skip_space
skip_space-cut [] = ([], refl, tt, tt)
skip_space-cut (c ∷ s) = elim (Bool-cases (is_space c)) [
  | inl e ↦
      let (front, f, a, b) = skip_space-cut s in (c ∷ front, rw e (ap (◌∷◌ c) f), (e, a), rw e b)
  | inr e ↦ ([], rw e refl, tt, rw e e)
]

-- What is kept of a byte before a text that was trimmed.
abbrev kept : ℕ → Text → Text
kept c t = if is_space c && empty t then [] else c ∷ t

kept-cut :
    (c : ℕ) (t back : Text)
    → AllSpace back
    → Ends t
    → (x : Text) × (c ∷ t ++ back ≡ kept c t ++ x) × AllSpace x × Ends (kept c t)
kept-cut c [] back a b = elim (Bool-cases (is_space c)) [
  | inl e ↦ (c ∷ back, rw e refl, (e, a), rw e tt)
  | inr e ↦ (back, rw e refl, a, rw e e)
]
kept-cut c (d ∷ t) back a b = elim (Bool-cases (is_space c)) [
  | inl e ↦ (back, rw e refl, a, rw e b)
  | inr e ↦ (back, rw e refl, a, rw e b)
]

trim_end-cut :
    (s : Text) → (back : Text) × (s ≡ trim_end s ++ back) × AllSpace back × Ends (trim_end s)
unfolding trim_end
trim_end-cut [] = ([], refl, tt, tt)
trim_end-cut (c ∷ s) =
    let (back, f, a, b) = trim_end-cut s in
    let (x, g, h, k) = kept-cut c (trim_end s) back a b in (x, ap (◌∷◌ c) f ∙ g, h, k)

-- A text that starts with no space keeps its start when its end is trimmed.
trim_end-Starts : (s : Text) → Starts s → Starts (trim_end s)
unfolding trim_end
trim_end-Starts [] h = tt
trim_end-Starts (c ∷ s) h = rw h h

-- `trim` cuts a text into spaces, what it keeps, and spaces, and what it keeps neither starts nor ends
-- with a space.
pub trim-cut :
    (line : Text)
    → (front : Text) × (back : Text) × (line ≡ front ++ (trim line ++ back))
      × AllSpace front
      × AllSpace back
      × Starts (trim line)
      × Ends (trim line)
unfolding trim
trim-cut line =
    let (front, f, a, b) = skip_space-cut line in
    let (back, g, h, k) = trim_end-cut (skip_space line) in
    (front, back, f ∙ ap (λ t. front ++ t) g, a, h, trim_end-Starts (skip_space line) b, k)
