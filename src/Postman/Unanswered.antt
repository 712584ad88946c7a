-- ===== src/Postman/Unanswered.antt =====
-- A partition that does not answer.
use tgproxy.Common.{ℕ, ◌+◌, ◌≡◌, ◌⊎◌, List, [], ◌∷◌, some, Text, codes, get_elem?}
use tgproxy.Json.{Rapidjson}
use tgproxy.Postman.{Postman, encode_slice}
use tgproxy.Postman.Callback.{Answers}
use tgproxy.Postman.Matching.{nth_slice}

abbrev pub no_response : Text
no_response = codes "tgp proxy fail, ms response timout or no response"

module _ (j : Rapidjson) (reply : Text → Text) (score : ℕ → j.Double) where
  -- Every reply is either not there or the one that is expected, from position i on.
  abbrev Partial : List Text → ℕ → List (List ℕ) → Type 0
  Partial w i [] = Unit
  Partial w i (s ∷ ss) =
      ((get_elem? w i ≡ some []) ⊎ (get_elem? w i ≡ some (reply (encode_slice j s))))
      × Partial w (i + 1) ss

  -- Some slice with keys, from position i on, has no reply.
  data Gap (w : List Text) : ℕ → List (List ℕ) → Type 0 where
    gap_here :
        (i k : ℕ) (ks : List ℕ) (ss : List (List ℕ))
        → get_elem? w i ≡ some []
        → Gap w i ((k ∷ ks) ∷ ss)
    gap_later : (i : ℕ) (s : List ℕ) (ss : List (List ℕ)) → Gap w (i + 1) ss → Gap w i (s ∷ ss)

  abbrev pub expected_reply : List (List ℕ) → ℕ → Text
  expected_reply ss i = reply (encode_slice j (nth_slice ss i))
