-- ===== src/Postman/Delivery.antt =====
-- A whole request: cut, sent, answered and put together.
use mathlib.Core.List.{Permᴰ}
use tgproxy.Common.{
  ℕ, ◌^◌, ◌≤◌, ◌<◌, ◌≡◌, ◌≢◌, refl, ap, ◌∙◌, List, [], ◌∷◌, map, Text, length, length-replicate,
  select, true, replicate, done, All, All-map, All-mono, select-All, length-map, arith,
}
use mathlib.Core.List.{cons-ne-nil}
use tgproxy.Common.Int.{pos}
use tgproxy.Slicer.{new_slicer, slice}
use tgproxy.Slicer.Search.{IsSorted}
use tgproxy.Slicer.Ranges.{cutoff, cutoff-le, length-new_slicer}
use tgproxy.Slicer.Slices.{in_range, slice-new_slicer}
use tgproxy.Slicer.Cover.{concat-slice-All}
use tgproxy.Json.{Rapidjson, Laws}
use tgproxy.Postman.{Event, Postman, ok, encode_ranking_weights}
use tgproxy.Postman.Transfer.{
  Shared, Completion, transfer_request, answer_request, features_there, replied, replied_with,
}
use tgproxy.Postman.Send.{IsReady, IsKept, Sent, transfer_loop-Sent}
use tgproxy.Postman.Answers.{IsScored}
use tgproxy.Postman.Matching.{served_by, answer_request-Sent}

-- The postman of `new_postman`, with the features of a request.
abbrev pub requested : ℕ → Text → Text → List ℕ → Postman
requested n name ver features = record {
  range = pos n;
  model_name = name;
  model_ver = ver;
  slicer = new_slicer (pos n);
  weights = replicate n [];
  hub = [];
  features = features;
  slices = [];
}

slices_small :
    (n : ℕ) (features : List ℕ)
    → 0 < n
    → IsSorted features
    → All (λ k. k < cutoff n) features
    → All (All (λ k. k < 2 ^ 64)) (slice (new_slicer (pos n)) features [])
slices_small n features h s a = rw (slice-new_slicer n features h s) (
    All-map (All (λ k. k < 2 ^ 64)) (λ r. select (in_range r) features) (new_slicer (pos n))
      (λ r.
        select-All (λ k. k < 2 ^ 64) (in_range r) features
          (All-mono (λ k. k < cutoff n) (λ k. k < 2 ^ 64) features
            (λ k l. omega (arith, cutoff-le n h)) a)))

length-slice :
    (n : ℕ) (features : List ℕ)
    → 0 < n
    → IsSorted features
    → length (slice (new_slicer (pos n)) features []) ≡ n
length-slice n features h s =
    rw (slice-new_slicer n features h s)
      (length-map (λ r. select (in_range r) features) (new_slicer (pos n)) ∙ length-new_slicer n)

features_there-true : (features : List ℕ) → features ≢ [] → features_there features ≡ true
features_there-true [] h = absurd (h refl)
features_there-true (k ∷ ks) h = refl

module _ (j : Rapidjson) (laws : Laws j) where
  -- The slices are sent.
  transfer_request-Sent :
      (p : Postman) (out : Text) (s : Shared)
      → p.features ≢ []
      → p.hub ≡ []
      → All (All (λ k. k < 2 ^ 64)) (slice p.slicer p.features p.slices)
      → IsReady s
      → (es : List Event) × (s' : Shared) × (transfer_request j p out s
          ≡ done (record p { slices = slice p.slicer p.features p.slices; hub = es }, out, s'))
        × Sent j laws p 0 (slice p.slicer p.features p.slices) es
        × IsKept s s'
  unfolding transfer_request
  transfer_request-Sent p out s h e a r =
      let (es, s', loop, sent, r') =
        transfer_loop-Sent j laws p (slice p.slicer p.features p.slices) 0 p.hub out s a r in
      (es, s', rw (features_there-true p.features h, loop, e) refl, sent, r')

  encoded :
      (ws : List j.Double)
      → ws ≢ []
      → replied_with j (ws, ok) ≡ replied (encode_ranking_weights j ws)
  unfolding replied_with
  encoded [] h = absurd (h refl)
  encoded (w ∷ ws) h = refl

  map-there : (score : ℕ → j.Double) (ks : List ℕ) → ks ≢ [] → map score ks ≢ []
  map-there score [] h = absurd (h refl)
  map-there score (k ∷ ks) h = cons-ne-nil (score k) (map score ks)

  -- For a range n between 1 and 2^31, a sorted, nonempty list of features below the cutoff of n and
  -- a list of named servers: `tranferRequest` returns, and if every server answers the request for a
  -- slice with a response 200 whose text decodes to the score of each of its keys, then
  -- `answerRequest` replies, for every order in which the responses complete, with the scores of the
  -- features in the order of the features. The JSON library is taken to keep its laws.
  pub answer_request-delivers :
      (reply : Text → Text) (score : ℕ → j.Double) (n : ℕ) (name ver : Text) (features : List ℕ)
      (out : Text) (s : Shared)
      → 0 < n
      → n ≤ 2 ^ 31
      → IsSorted features
      → All (λ k. k < cutoff n) features
      → features ≢ []
      → IsReady s
      → ((sl : List ℕ) → All (λ k. k < 2 ^ 64) sl → sl ≢ [] → IsScored j reply score sl)
      → (p : Postman) × (s' : Shared) × (transfer_request j (requested n name ver features) out s
          ≡ done (p, out, s'))
        × IsKept s s'
        × ((cs : List Completion)
            → Permᴰ (map (served_by reply) p.hub) cs
            → (q : Postman) × (answer_request j p cs
                ≡ done (q, replied (encode_ranking_weights j (map score features)))))
  answer_request-delivers reply score n name ver features out s h m sorted low there ready scored =
      let p0 = requested n name ver features in
      let ss = slice (new_slicer (pos n)) features [] in
      let small = slices_small n features h sorted low in
      let (es, s', e, sent, r') = transfer_request-Sent p0 out s there refl small ready in
      let p : Postman = record p0 { slices = ss; hub = es } in
      let whole = concat-slice-All n features h sorted low in
      (
        p,
        s',
        e,
        r',
        λ cs perm.
            let (q, run) =
              answer_request-Sent j laws reply score p p0 n es cs refl m (length-replicate n [])
                (length-slice n features h sorted) sent
                (All-mono (All (λ k. k < 2 ^ 64)) (λ sl. sl ≢ [] → IsScored j reply score sl) ss
                  scored small)
                perm in
            (
              q,
              run
                  ∙ ap (λ ks. done (q, replied_with j (map score ks, ok))) whole
                  ∙ ap (λ r. done (q, r))
                      (encoded (map score features) (map-there score features there)),
            ),
      )
