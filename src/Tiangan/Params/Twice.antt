-- ===== src/Tiangan/Params/Twice.antt =====
-- A value that is replaced twice.
use tgproxy.Common.{ℕ, ◌≡◌, ◌≢◌, [], ◌∷◌, none, some, Text}
use tgproxy.Tiangan.Params.{behind_front, find_text}

-- The first occurrence is at the front, or behind the first byte, or nowhere.
data Found (q : Text) (c : ℕ) (s : Text) : Type 0 where
  front :
      (t : Text)
      → behind_front q (c ∷ s) ≡ some t
      → find_text q (c ∷ s) ≡ some ([], t)
      → Found q c s
  later :
      (a t : Text)
      → behind_front q (c ∷ s) ≡ none
      → find_text q s ≡ some (a, t)
      → find_text q (c ∷ s) ≡ some (c ∷ a, t)
      → Found q c s
  nowhere :
      behind_front q (c ∷ s) ≡ none
      → find_text q s ≡ none
      → find_text q (c ∷ s) ≡ none
      → Found q c s

abbrev pub Plain : ℕ → Type 0
Plain c = (c ≢ b'?') × (c ≢ b'&')
