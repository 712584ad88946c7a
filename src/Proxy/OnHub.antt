-- ===== src/Proxy/OnHub.antt =====
-- A request from its URL to its response, where the postman's hub is the one of libcurl.
use mathlib.Core.List.{Permᴰ}
use tgproxy.Common.{ℕ, ◌^◌, ◌≤◌, ◌<◌, ◌≡◌, ◌≢◌, List, [], map, some, Text, concat, done, OnEnd, All}
use tgproxy.Common.Int.{pos}
use tgproxy.Slicer.Search.{IsSorted}
use tgproxy.Slicer.Ranges.{cutoff}
use tgproxy.Json.{Rapidjson, Laws}
use tgproxy.MsConf.{get_ms_parts}
use tgproxy.Hub.{Dispatch}
use tgproxy.Hub.Loops.{ObeysLoop}
use tgproxy.Postman.{Event, Postman, encode_ranking_weights}
use tgproxy.Postman.Transfer.{Shared, transfer_request}
use tgproxy.Postman.Answers.{IsScored}
use tgproxy.Postman.Send.{IsReady}
use tgproxy.Postman.Matching.{served_by}
use tgproxy.Postman.Delivery.{requested}
use tgproxy.Postman.Requests.{IsRequest}
use tgproxy.Postman.Wired.{Adding, register_slices, ObeysSlices, completions, hub_of}
use tgproxy.Postman.Wired.Answered.{slice_events, answer_on_hub, answer_on_hub-delivers}
use tgproxy.Proxy.{model, route, record_request, exchange}
use tgproxy.Proxy.Exchange.{exchange-replied}

module _ (j : Rapidjson) (laws : Laws j) where
  -- A request whose URL the factory gives to a model, and whose body, in whatever chunks it comes, is
  -- accepted with sorted features below the cutoff of the range n, leaves the postman p behind
  -- `tranferRequest`. If p's slices are registered with libcurl in their order, libcurl keeps its
  -- promises, and the trace of its calls answers every slice once, with a response 200 whose chunks make
  -- up a text that decodes to the score of each key, in any order and among any other calls, then the
  -- response is a 200 that holds the weights of the features in their order, and is counted. The other
  -- conditions are: the number of partitions of the file is n, between 1 and 2^31; the cluster has
  -- servers, all of them named; the JSON library keeps its laws.
  pub exchange_on_hub :
      (reply : Text → Text) (score : ℕ → j.Double) (n : ℕ) (url name ver : Text)
      (chunks : List Text) (features : List ℕ) (s s' : Shared) (req_count : ℕ) (p : Postman)
      (es : List (Event × Adding)) (ds : List Dispatch)
      → route url ≡ done (model name ver)
      → concat chunks ≢ []
      → IsRequest j (concat chunks) features
      → (get_ms_parts s.ms_conf []).0 ≡ pos n
      → 0 < n
      → n ≤ 2 ^ 31
      → IsSorted features
      → All (λ k. k < cutoff n) features
      → IsReady s
      → ((sl : List ℕ) → All (λ k. k < 2 ^ 64) sl → sl ≢ [] → IsScored j reply score sl)
      → transfer_request j
          (requested n name ver features)
          []
          (record s { ms_conf = (get_ms_parts s.ms_conf []).1 })
        ≡ done (p, [], s')
      → slice_events es ≡ p.hub
      → ObeysSlices es (hub_of p)
      → OnEnd (λ hub. ObeysLoop ds hub.multi) (register_slices es (hub_of p))
      → Permᴰ (map (served_by reply) (slice_events es)) (completions es ds)
      → exchange j (answer_on_hub j es ds) url chunks s req_count
        ≡ done (
          record { status = 200; body = some (encode_ranking_weights j (map score features)) },
          s',
          record_request req_count,
        )
  exchange_on_hub reply score n url name ver chunks features s s' req_count p es ds to_model there
        request parts h m sorted low ready scored sent same o l perm =
      let s1 : Shared = record s { ms_conf = (get_ms_parts s.ms_conf []).1 } in
      let (q, run) =
        answer_on_hub-delivers j laws reply score n name ver features [] s1 s' p es ds h m sorted
          low request.there (record { servers = ready.servers; named = ready.named }) scored sent
          same o l perm in
      exchange-replied j (answer_on_hub j es ds) n url name ver
        (encode_ranking_weights j (map score features)) chunks features s s' req_count p q to_model
        there request parts sent run
