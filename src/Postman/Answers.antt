-- ===== src/Postman/Answers.antt =====
-- `answerRequest` against servers that answer every slice with one weight a key.
use tgproxy.Common.{
  ℕ, ◌+◌, ◌≡◌, ◌≢◌, refl, sym, ap, ◌∙◌, List, [], ◌∷◌, ◌++◌, map, append_assoc, append-nil, some,
  Text, get_elem?, concat, done, All,
}
use mathlib.Core.List.{cons-ne-nil, map-append}
use tgproxy.Json.{Rapidjson}
use tgproxy.Postman.{Postman, ok, encode_slice, decode_ms_weights}
use tgproxy.Postman.Transfer.{answer_loop}

module _ (j : Rapidjson) (reply : Text → Text) (score : ℕ → j.Double) where
  -- What a server of the model promises of the request for a slice: a text that decodes to the score of each
  -- key, behind the weights that are there.
  pub record IsScored (s : List ℕ) : Type 0 where
    pub text_there : reply (encode_slice j s) ≢ []
    pub decodes :
        (ws : List j.Double)
        → decode_ms_weights j (reply (encode_slice j s)) ws ≡ done (ws ++ map score s, ok)

  -- The vector holds the reply to each slice with keys, from position i on.
  abbrev pub Holds : List Text → ℕ → List (List ℕ) → Type 0
  Holds w i [] = Unit
  Holds w i (s ∷ ss) =
      (s ≢ [] → get_elem? w i ≡ some (reply (encode_slice j s))) × Holds w (i + 1) ss

  pub answer_loop-cons :
      (p : Postman) (i k : ℕ) (ks : List ℕ) (ss : List (List ℕ)) (ws ws' : List j.Double) (t : Text)
      → get_elem? p.weights i ≡ some t
      → t ≢ []
      → decode_ms_weights j t ws ≡ done (ws', ok)
      → answer_loop j p i ((k ∷ ks) ∷ ss) ws ≡ answer_loop j p (i + 1) ss ws'
  unfolding answer_loop
  answer_loop-cons p i k ks ss ws ws' [] e h d = absurd (h refl)
  answer_loop-cons p i k ks ss ws ws' (c ∷ t) e h d = rw (e, d, answer_loop)

  -- The weights of the slices are appended in the order of the slices.
  pub answer_loop-Holds :
      (ss : List (List ℕ)) (p : Postman) (i : ℕ) (ws : List j.Double)
      → All (λ s. s ≢ [] → IsScored s) ss
      → Holds p.weights i ss
      → answer_loop j p i ss ws ≡ done (ws ++ map score (concat ss), ok)
  unfolding answer_loop
  answer_loop-Holds [] p i ws a h = rw append-nil refl
  answer_loop-Holds ([] ∷ ss) p i ws a h = answer_loop-Holds ss p (i + 1) ws a.1 h.1
  answer_loop-Holds ((k ∷ ks) ∷ ss) p i ws a h =
      let here = a.0 (cons-ne-nil k ks) in
      let s = k ∷ ks in
      answer_loop-cons p i k ks ss ws (ws ++ map score s) _ (h.0 (cons-ne-nil k ks)) here.text_there
        (here.decodes ws)
      ∙ answer_loop-Holds ss p (i + 1) (ws ++ map score s) a.1 h.1
      ∙ ap (λ w. done (w, ok))
          (append_assoc ws (map score s) (map score (concat ss))
            ∙ ap (λ r. ws ++ r) (sym (map-append score s (concat ss))))
