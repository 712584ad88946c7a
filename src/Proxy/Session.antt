-- ===== src/Proxy/Session.antt =====
-- Requests one after the other, with what they share and the statistics.
use mathlib.Core.List.{Permᴰ}
use tgproxy.Common.{
  ℕ, suc, ◌+◌, ◌%◌, ◌^◌, ◌≤◌, ◌<◌, ◌≡◌, ◌≢◌, ap, List, [], ◌∷◌, map, length, some, Text, concat,
  Run, done, ◌>>=◌, All, arith,
}
use tgproxy.Common.Int.{pos}
use tgproxy.Slicer.Search.{IsSorted}
use tgproxy.Slicer.Ranges.{cutoff}
use tgproxy.Json.{Rapidjson, Laws}
use tgproxy.MsConf.{get_ms_parts}
use tgproxy.Postman.{Event, Postman, encode_ranking_weights}
use tgproxy.Postman.Transfer.{Shared, Completion, Reply}
use tgproxy.Postman.Answers.{IsScored}
use tgproxy.Postman.Send.{IsReady}
use tgproxy.Postman.Matching.{served_by}
use tgproxy.Postman.Requests.{IsRequest}
use tgproxy.Proxy.{Response, model, route, record_request, answered_by, exchange}
use tgproxy.Proxy.Exchange.{exchange-delivers}

-- A request: its URL, the model and the version in it, the chunks of its body, and its features.
pub record Asked : Type 0 where
  pub url : Text
  pub name : Text
  pub ver : Text
  pub chunks : List Text
  pub features : List ℕ

module _ (j : Rapidjson) where
  -- A request that is accepted, with sorted features below the cutoff of the range n.
  pub record IsAsked (n : ℕ) (a : Asked) : Type 0 where
    pub to_model : route a.url ≡ done (model a.name a.ver)
    pub there : concat a.chunks ≢ []
    pub request : IsRequest j (concat a.chunks) a.features
    pub sorted : IsSorted a.features
    pub low : All (λ k. k < cutoff n) a.features

  -- The response with the weights of the features.
  abbrev pub weighed : (ℕ → j.Double) → Asked → Response
  weighed score a = record {
    status = 200;
    body = some (encode_ranking_weights j (map score a.features));
  }

  -- The exchanges of the requests, each behind the one before it.
  abbrev pub exchanges :
      (Postman → Run (Postman × Reply)) → List Asked → Shared → ℕ → Run (List Response × Shared × ℕ)
  exchanges answering [] s req_count = done ([], s, req_count)
  exchanges answering (a ∷ rs) s req_count =
      exchange j answering a.url a.chunks s req_count >>= λ r.
      exchanges answering rs r.1 r.2 >>= λ q. done (r.0 ∷ q.0, q.1, q.2)

counted_on : (c k : ℕ) → (record_request c + k) % 2 ^ 64 ≡ (c + suc k) % 2 ^ 64
counted_on c k = omega arith

module _ (j : Rapidjson) (laws : Laws j) (net : List Event → List Completion) where
  -- However many requests come one after the other, each for a model and accepted with sorted features
  -- below the cutoff of the range n, all are answered: the responses are the weights of the features of
  -- each, in their order, and the statistics have counted all of them, modulo 2^64. The conditions are:
  -- the number of partitions of the file is n, between 1 and 2^31; the cluster has servers, all of them
  -- named, and its list does not change; each server answers the request for a slice with a response 200
  -- whose text decodes to the score of every key; the event loop delivers these responses, in any order;
  -- the JSON library keeps its laws.
  pub exchanges-deliver :
      (reply : Text → Text) (score : ℕ → j.Double) (n : ℕ) (rs : List Asked) (s : Shared)
      (req_count : ℕ)
      → All (IsAsked j n) rs
      → (get_ms_parts s.ms_conf []).0 ≡ pos n
      → 0 < n
      → n ≤ 2 ^ 31
      → IsReady s
      → req_count < 2 ^ 64
      → ((sl : List ℕ) → All (λ k. k < 2 ^ 64) sl → sl ≢ [] → IsScored j reply score sl)
      → ((es : List Event) → Permᴰ (map (served_by reply) es) (net es))
      → (s' : Shared) × (exchanges j (answered_by j net) rs s req_count
          ≡ done (map (weighed j score) rs, s', (req_count + length rs) % 2 ^ 64))
  exchanges-deliver reply score n [] s c asked parts h m ready low scored delivers =
      (s, ap (λ k. done ([], s, k)) (omega (arith, low)))
  exchanges-deliver reply score n (a ∷ rs) s c (q, asked) parts h m ready low scored delivers =
      let (s1, first, ready1, parts1) =
        exchange-delivers j net laws reply score n a.url a.name a.ver a.chunks a.features s c
          q.to_model q.there q.request parts h m q.sorted q.low ready scored delivers in
      let small : record_request c < 2 ^ 64 = omega arith in
      let (s', rest) =
        exchanges-deliver reply score n rs s1 (record_request c) asked parts1 h m ready1 small
          scored delivers in
      (
        s',
        rw (first, rest)
            (ap (λ k. done (weighed j score a ∷ map (weighed j score) rs, s', k))
              (counted_on c (length rs))),
      )
