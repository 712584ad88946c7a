-- ===== src/Proxy/Routes.antt =====
-- Which URLs the factory gives to a handler of a model.
use tgproxy.Common.{
  ◌<◌, ◌≡◌, ◌≢◌, ◌↔◌, inl, inr, refl, ap, ◌∙◌, sym, subst, List, [], ◌∷◌, Text, codes, same_text,
  same_text→eq, length, done, All, Bool-cases,
}
use tgproxy.Utils.{npos}
use tgproxy.Utils.Split.{pieces, split-pieces}
use tgproxy.Utils.Join.{join, Lacks, join-pieces, pieces-join, pieces-Lacks}
use tgproxy.Proxy.{model, routed, route_terms, route}

-- The test for the root path answers as the pieces do.
route-pieces :
    (url : Text) → length url < npos → route url ≡ done (routed url (pieces (b'/' ∷ []) url))
unfolding route route_terms
route-pieces url h = elim (Bool-cases (same_text url (codes "/"))) [
  | inl e ↦
      let root : url ≡ codes "/" = same_text→eq url (codes "/") e in
      subst (λ u. route u ≡ done (routed u (pieces (b'/' ∷ []) u))) (sym root)
        (unfold route route_terms routed pieces in refl)
  | inr e ↦ rw (e, split-pieces url (b'/' ∷ []) [] h) refl
]

routed-model :
    (url : Text) (ps : List Text) (name ver : Text)
    → routed url ps ≡ model name ver
    → (first : Text) × (ps ≡ first ∷ name ∷ ver ∷ []) × (name ≢ []) × (ver ≢ [])
unfolding routed
routed-model url [] name ver e = absurd cc
routed-model url (a ∷ []) name ver e = absurd cc
routed-model url (a ∷ b ∷ []) name ver e = absurd cc
routed-model url (a ∷ [] ∷ [] ∷ []) name ver e = absurd cc
routed-model url (a ∷ [] ∷ (d ∷ c) ∷ []) name ver e = absurd cc
routed-model url (a ∷ (d ∷ b) ∷ [] ∷ []) name ver e = absurd cc
routed-model url (a ∷ (d ∷ b) ∷ (f ∷ c) ∷ []) name ver e = (a, cc, λ g. cc, λ g. cc)
routed-model url (a ∷ b ∷ c ∷ d ∷ ps) name ver e = absurd cc

model-routed :
    (url first name ver : Text)
    → name ≢ []
    → ver ≢ []
    → routed url (first ∷ name ∷ ver ∷ []) ≡ model name ver
unfolding routed
model-routed url first [] ver h k = absurd (h refl)
model-routed url first (c ∷ name) [] h k = absurd (k refl)
model-routed url first (c ∷ name) (d ∷ ver) h k = refl

-- A URL of a model: anything without a slash, then the name and the version behind a slash each.
abbrev pub Addresses : Text → Text → Text → Type 0
Addresses url name ver =
    (first : Text) × (url ≡ join b'/' (first ∷ name ∷ ver ∷ []))
    × (name ≢ [])
    × (ver ≢ [])
    × All (Lacks b'/') (first ∷ name ∷ ver ∷ [])

-- For a URL shorter than `npos`, the factory makes a handler of a model exactly if the URL is some
-- text without a slash, empty or not, followed by a slash, the name, a slash and the version, neither
-- of them empty or with a slash in it.
pub route-model :
    (url name ver : Text)
    → length url < npos
    → (route url ≡ done (model name ver)) ↔ Addresses url name ver
route-model url name ver h = (forth, back)
  where
    forth : route url ≡ done (model name ver) → Addresses url name ver
    forth e =
        let (first, f, n, v) =
          routed-model url (pieces (b'/' ∷ []) url) name ver (cc (route-pieces url h, e)) in
        (
          first,
          sym (join-pieces b'/' url) ∙ ap (join b'/') f,
          n,
          v,
          subst (All (Lacks b'/')) f (pieces-Lacks b'/' url),
        )

    back : Addresses url name ver → route url ≡ done (model name ver)
    back (first, e, n, v, lacks) =
        let cut : pieces (b'/' ∷ []) url ≡ first ∷ name ∷ ver ∷ [] =
          ap (pieces (b'/' ∷ [])) e ∙ pieces-join b'/' (first ∷ name ∷ ver ∷ []) (λ g. cc) lacks in
        route-pieces url h
        ∙ ap (λ ps. done (routed url ps)) cut
        ∙ ap done (model-routed url first name ver n v)
