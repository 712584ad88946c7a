-- ===== src/Postman/Wired/Answered.antt =====
-- A whole request on the hub of libcurl.
use mathlib.Core.List.{Permᴰ}
use tgproxy.Common.{
  ℕ, ◌^◌, ◌≤◌, ◌<◌, ◌≡◌, ◌≢◌, refl, sym, ap, ◌∙◌, subst, List, [], map, Text, Run, done, abort,
  ◌>>=◌, OnEnd, All,
}
use tgproxy.Slicer.Search.{IsSorted}
use tgproxy.Slicer.Ranges.{cutoff}
use tgproxy.Json.{Rapidjson, Laws}
use tgproxy.Hub.{Dispatch}
use tgproxy.Hub.Loops.{ObeysLoop}
use tgproxy.Postman.{Event, Postman, encode_ranking_weights}
use tgproxy.Postman.Transfer.{
  Shared, Reply, replied, replied_with, transfer_request, answer_loop, answer_request,
}
use tgproxy.Postman.Send.{IsReady}
use tgproxy.Postman.Answers.{IsScored}
use tgproxy.Postman.Matching.{served_by}
use tgproxy.Postman.Delivery.{requested, answer_request-delivers}
use tgproxy.Postman.Wired.{Adding, register_slices, ObeysSlices, completions, hub_of, run_slices}
use tgproxy.Postman.Wired.Refines.{run_slices-start_hub}

abbrev pub slice_events : List (Event × Adding) → List Event
slice_events es = map (λ eg. eg.0) es

module _ (j : Rapidjson) where
  -- `answerRequest(reply, out)` where `hub_->start()` is the loop on the hub of `p`.
  unfoldable pub answer_on_hub :
      List (Event × Adding) → List Dispatch → Postman → Run (Postman × Reply)
  unfolding run_slices
  answer_on_hub es ds p = do
    hub ← run_slices es ds p
    r ← answer_loop j hub.multi.client 0 hub.multi.client.slices []
    done (hub.multi.client, replied_with j r)

  client_first :
      {A B C : Type 0} (r : Run A) (f : A → B) (k : B → Run C)
      → (r >>= λ a. k (f a)) ≡ ((r >>= λ a. done (f a)) >>= k)
  client_first (done a) f k = refl
  client_first abort f k = refl

  -- On the hub, `answerRequest` is what it is on the completions of the trace.
  answer_on_hub-answer_request :
      (p : Postman) (es : List (Event × Adding)) (ds : List Dispatch)
      → ObeysSlices es (hub_of p)
      → OnEnd (λ hub. ObeysLoop ds hub.multi) (register_slices es (hub_of p))
      → answer_on_hub es ds p ≡ answer_request j p (completions es ds)
  unfolding answer_on_hub answer_request
  answer_on_hub-answer_request p es ds o q =
      let k : Postman → Run (Postman × Reply) =
        λ p'. answer_loop j p' 0 p'.slices [] >>= λ r. done (p', replied_with j r) in
      client_first (run_slices es ds p) (λ hub. hub.multi.client) k
      ∙ ap (λ r. r >>= k) (run_slices-start_hub p es ds o q)

module _ (j : Rapidjson) (laws : Laws j) where
  -- A sorted, nonempty list of features below the cutoff of n, where n is between 1 and 2^31, is sent to
  -- named servers, and the slices are registered with libcurl. If libcurl keeps its promises, every
  -- slice is answered with a response 200 whose chunks make up a text that decodes to the score of each
  -- of its keys, and each answer is reported once, in any order and among any other calls, then
  -- `answerRequest` replies with the scores of the features in the order of the features. The JSON library
  -- is taken to keep its laws.
  pub answer_on_hub-delivers :
      (reply : Text → Text) (score : ℕ → j.Double) (n : ℕ) (name ver : Text) (features : List ℕ)
      (out : Text) (s s' : Shared) (p : Postman) (es : List (Event × Adding)) (ds : List Dispatch)
      → 0 < n
      → n ≤ 2 ^ 31
      → IsSorted features
      → All (λ k. k < cutoff n) features
      → features ≢ []
      → IsReady s
      → ((sl : List ℕ) → All (λ k. k < 2 ^ 64) sl → sl ≢ [] → IsScored j reply score sl)
      → transfer_request j (requested n name ver features) out s ≡ done (p, out, s')
      → slice_events es ≡ p.hub
      → ObeysSlices es (hub_of p)
      → OnEnd (λ hub. ObeysLoop ds hub.multi) (register_slices es (hub_of p))
      → Permᴰ (map (served_by reply) (slice_events es)) (completions es ds)
      → (q : Postman) × (answer_on_hub j es ds p
          ≡ done (q, replied (encode_ranking_weights j (map score features))))
  answer_on_hub-delivers reply score n name ver features out s s' p es ds h m sorted low there ready
        scored sent same o l perm =
      let (p1, s1, e, kept, answers) =
        answer_request-delivers j laws reply score n name ver features out s h m sorted low there
          ready scored in
      let is_p : p1 ≡ p = cc (sent, e) in
      let hubs : p1.hub ≡ slice_events es = ap (λ (p : Postman). p.hub) is_p ∙ sym same in
      let (q, run) =
        answers (completions es ds)
          (subst (λ hs. Permᴰ (map (served_by reply) hs) (completions es ds)) (sym hubs) perm) in
      (
        q,
        answer_on_hub-answer_request j p es ds o l
            ∙ ap (λ p. answer_request j p (completions es ds)) (sym is_p)
            ∙ run,
      )
