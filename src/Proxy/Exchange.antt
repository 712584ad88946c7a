-- ===== src/Proxy/Exchange.antt =====
-- A request from its URL to its response.
use mathlib.Core.List.{Permᴰ}
use tgproxy.Common.{
  ℕ, ◌^◌, ◌≤◌, ◌<◌, ◌≡◌, ◌≢◌, refl, sym, ap, ◌∙◌, List, [], ◌∷◌, ◌++◌, map, append_assoc,
  append-nil, none, some, Text, concat, Run, done, bind-ext, All,
}
use tgproxy.Common.Int.{pos}
use tgproxy.Slicer.Search.{IsSorted}
use tgproxy.Slicer.Ranges.{cutoff}
use tgproxy.Json.{Rapidjson, Laws}
use tgproxy.MsConf.{get_ms_parts}
use tgproxy.MsConf.Parts.{get_ms_parts_twice}
use tgproxy.Postman.{Event, Postman, new_postman, ok, encode_ranking_weights}
use tgproxy.Postman.Transfer.{Shared, Completion, Reply, replied, transfer_request}
use tgproxy.Postman.Answers.{IsScored}
use tgproxy.Postman.Send.{IsReady}
use tgproxy.Postman.Matching.{served_by}
use tgproxy.Postman.Delivery.{requested, answer_request-delivers}
use tgproxy.Postman.Requests.{IsRequest, check_request-IsRequest}
use tgproxy.Proxy.{
  Route, wrong, model, route, record_request, on_body, all_bodies, reply_text, after_check,
  with_ranges, tgp_express, on_eom, handled, exchange, answered_by,
}

all_bodies-some :
    (body : Text) (chunks : List Text)
    → all_bodies (some body) chunks ≡ some (body ++ concat chunks)
unfolding all_bodies on_body
all_bodies-some body [] = ap some (sym (append-nil body))
all_bodies-some body (chunk ∷ chunks) =
    all_bodies-some (body ++ chunk) chunks ∙ ap some (append_assoc body chunk (concat chunks))

module _ (j : Rapidjson) (answering : Postman → Run (Postman × Reply)) where
  -- No chunk and an empty body are answered alike.
  pub express-concat :
      (name ver : Text) (chunks : List Text) (s : Shared)
      → tgp_express j answering name ver (all_bodies none chunks) s
        ≡ tgp_express j answering name ver (some (concat chunks)) s
  unfolding tgp_express all_bodies on_body
  express-concat name ver [] s = refl
  express-concat name ver (chunk ∷ chunks) s =
      ap (λ b. tgp_express j answering name ver b s) (all_bodies-some chunk chunks)

  handled-concat :
      (r : Route) (cs ds : List Text) (s : Shared) (req_count : ℕ)
      → concat cs ≡ concat ds
      → handled j answering r cs s req_count ≡ handled j answering r ds s req_count
  unfolding handled on_eom
  handled-concat (wrong url) cs ds s req_count e = refl
  handled-concat (model name ver) cs ds s req_count e =
      let same =
        express-concat name ver cs s
        ∙ ap (λ b. tgp_express j answering name ver (some b) s) e
        ∙ sym (express-concat name ver ds s) in
      rw same refl

  -- The response, what is shared and the statistics do not depend on how the bytes of the body are cut
  -- into chunks.
  pub exchange-concat :
      (url : Text) (cs ds : List Text) (s : Shared) (req_count : ℕ)
      → concat cs ≡ concat ds
      → exchange j answering url cs s req_count ≡ exchange j answering url ds s req_count
  unfolding exchange
  exchange-concat url cs ds s req_count e =
      bind-ext (route url) _ _ (λ r. handled-concat r cs ds s req_count e)

  pub new_postman-requested :
      (n : ℕ) (name ver : Text) → new_postman (pos n) name ver ≡ done (requested n name ver [])
  unfolding new_postman
  new_postman-requested n name ver = refl

  pub tgp_express-ranges :
      (name ver body : Text) (n : ℕ) (s : Shared)
      → body ≢ []
      → (get_ms_parts s.ms_conf []).0 ≡ pos n
      → tgp_express j answering name ver (some body) s
        ≡ with_ranges j answering name ver body
            (pos n)
            (record s { ms_conf = (get_ms_parts s.ms_conf []).1 })
  unfolding tgp_express
  tgp_express-ranges name ver [] n s h e = absurd (h refl)
  tgp_express-ranges name ver (c ∷ body) n s h e = rw e refl

  with_ranges-accepted :
      (name ver body : Text) (n : ℕ) (features : List ℕ) (s : Shared)
      → IsRequest j body features
      → with_ranges j answering name ver body (pos n) s
        ≡ after_check j answering (requested n name ver features, ok) s
  unfolding with_ranges
  with_ranges-accepted name ver body n features s r =
      let accepted =
        (check_request-IsRequest j (requested n name ver []) (requested n name ver features) body
            refl).1
          (r, refl) in
      rw (new_postman-requested n name ver, accepted) refl

  after_check-replied :
      (p p' q : Postman) (s s' : Shared) (reply : Text)
      → transfer_request j p [] s ≡ done (p', [], s')
      → answering p' ≡ done (q, replied reply)
      → after_check j answering (p, ok) s ≡ done (replied reply, s')
  unfolding after_check
  after_check-replied p p' q s s' reply e f = rw (e, f) refl

  handled-replied :
      (name ver reply : Text) (chunks : List Text) (s s' : Shared) (req_count : ℕ)
      → tgp_express j answering name ver (some (concat chunks)) s ≡ done (replied reply, s')
      → handled j answering (model name ver) chunks s req_count
        ≡ done (record { status = 200; body = some reply }, s', record_request req_count)
  unfolding handled on_eom reply_text
  handled-replied name ver reply chunks s s' req_count e =
      rw (express-concat name ver chunks s ∙ e) refl

  pub exchange-route :
      (url : Text) (r : Route) (chunks : List Text) (s : Shared) (req_count : ℕ)
      → route url ≡ done r
      → exchange j answering url chunks s req_count ≡ handled j answering r chunks s req_count
  unfolding exchange
  exchange-route url r chunks s req_count e = rw e refl

  -- What the postman replies is what the request is answered with.
  pub exchange-replied :
      (n : ℕ) (url name ver reply : Text) (chunks : List Text) (features : List ℕ) (s s' : Shared)
      (req_count : ℕ) (p q : Postman)
      → route url ≡ done (model name ver)
      → concat chunks ≢ []
      → IsRequest j (concat chunks) features
      → (get_ms_parts s.ms_conf []).0 ≡ pos n
      → transfer_request j
          (requested n name ver features)
          []
          (record s { ms_conf = (get_ms_parts s.ms_conf []).1 })
        ≡ done (p, [], s')
      → answering p ≡ done (q, replied reply)
      → exchange j answering url chunks s req_count
        ≡ done (record { status = 200; body = some reply }, s', record_request req_count)
  exchange-replied n url name ver reply chunks features s s' req_count p q to_model there request
        parts sent run =
      let s1 : Shared = record s { ms_conf = (get_ms_parts s.ms_conf []).1 } in
      exchange-route url (model name ver) chunks s req_count to_model
      ∙ handled-replied name ver reply chunks s s' req_count (
          tgp_express-ranges name ver (concat chunks) n s there parts
          ∙ with_ranges-accepted name ver (concat chunks) n features s1 request
          ∙ after_check-replied (requested n name ver features) p q s1 s' reply sent run)

module _ (j : Rapidjson) (net : List Event → List Completion) where
  -- A request whose URL the factory gives to a model, and whose body, in whatever chunks it comes, is
  -- accepted with sorted features below the cutoff of the range n, is answered with a response 200
  -- that holds the weights of the features in their order, and is counted; what is shared stays such that
  -- the next request finds it as this one did. The conditions are: the
  -- number of partitions of the file is n, between 1 and 2^31; the cluster has servers, all of them
  -- named; each answers the request for a slice with a response 200 whose text decodes to the score
  -- of every key; the event loop delivers these responses, in any order; the JSON library keeps its
  -- laws.
  pub exchange-delivers :
      (laws : Laws j) (reply : Text → Text) (score : ℕ → j.Double) (n : ℕ) (url name ver : Text)
      (chunks : List Text) (features : List ℕ) (s : Shared) (req_count : ℕ)
      → route url ≡ done (model name ver)
      → concat chunks ≢ []
      → IsRequest j (concat chunks) features
      → (get_ms_parts s.ms_conf []).0 ≡ pos n
      → 0 < n
      → n ≤ 2 ^ 31
      → IsSorted features
      → All (λ k. k < cutoff n) features
      → IsReady s
      → ((sl : List ℕ) → All (λ k. k < 2 ^ 64) sl → sl ≢ [] → IsScored j reply score sl)
      → ((es : List Event) → Permᴰ (map (served_by reply) es) (net es))
      → (s' : Shared) × (exchange j (answered_by j net) url chunks s req_count
          ≡ done (
            record { status = 200; body = some (encode_ranking_weights j (map score features)) },
            s',
            record_request req_count,
          ))
        × IsReady s'
        × ((get_ms_parts s'.ms_conf []).0 ≡ pos n)
  exchange-delivers laws reply score n url name ver chunks features s req_count to_model there
        request parts h m sorted low ready scored delivers =
      let s1 : Shared = record s { ms_conf = (get_ms_parts s.ms_conf []).1 } in
      let (p, s', sent, kept, answered) =
        answer_request-delivers j laws reply score n name ver features [] s1 h m sorted low
          request.there (record { servers = ready.servers; named = ready.named }) scored in
      let (q, run) = answered (net p.hub) (delivers p.hub) in
      (
        s',
        exchange-replied j (answered_by j net) n url name ver
            (encode_ranking_weights j (map score features)) chunks features s s' req_count p q
            to_model there request parts sent run,
        kept.0,
        ap (λ f. (get_ms_parts f []).0) kept.1 ∙ get_ms_parts_twice s.ms_conf ∙ parts,
      )
