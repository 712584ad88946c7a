-- ===== src/Tiangan/Params.antt =====
-- tiangan/curl_helper.h: the value of a parameter in a URL.
pub mod Twice
use tgproxy.Common.{
  ℕ, ◌≤◌, ◌≡◌, ◌≢◌, refl, sym, ap, ◌∙◌, [], ◌∷◌, ◌++◌, append_assoc, append-nil, Option, none, some,
  Text, length, length-append, Bool-cases, ◌==◌, if◌then◌else◌, All, one_of, arith, inl, inr, ◌⊎◌,
}

-- What follows `q` at the front of a text.
unfoldable pub behind_front : Text → Text → Option Text
behind_front [] s = some s
behind_front (c ∷ q) [] = none
behind_front (c ∷ q) (d ∷ s) = if c == d then behind_front q s else none

-- `find(q)`: what stands before the first occurrence, and what behind it.
unfoldable pub find_text : Text → Text → Option (Text × Text)
find_text q [] = elim (behind_front q []) [ some rest ↦ some ([], rest) | none ↦ none ]
find_text q (c ∷ s) =
    let later = find_text q s in
    elim (behind_front q (c ∷ s)) [
      | some rest ↦ some ([], rest)
      | none ↦ elim later [ some r ↦ some (c ∷ r.0, r.1) | none ↦ none ]
    ]

-- What is left from the first `&` on.
unfoldable pub from_amp : Text → Text
from_amp [] = []
from_amp (c ∷ s) = let rest = from_amp s in if c == b'&' then c ∷ s else rest

-- `url.find("?") == npos`, and the separator that is then added.
abbrev pub separator : Text → ℕ
separator url = if one_of url b'?' then b'&' else b'?'

abbrev pub replaced : Text → Text → Text → Option (Text × Text) → Text
replaced url query new_value none = url ++ (separator url ∷ (query ++ new_value))
replaced url query new_value (some (before, rest)) =
    before ++ (query ++ (new_value ++ from_amp rest))

-- `replace_url_param_value(url, param, new_value)`: the new URL.
unfoldable pub replace_url_param_value : Text → Text → Text → Text
unfolding find_text from_amp
replace_url_param_value url param new_value =
    let query = param ++ b'=' ∷ [] in replaced url query new_value (find_text query url)
