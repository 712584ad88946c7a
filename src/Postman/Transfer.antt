-- ===== src/Postman/Transfer.antt =====
-- postman/tgp_postman.cc: sending the slices to the model servers and collecting the answers.
use tgproxy.Common.{
  ℕ, zero, ◌+◌, ◌%◌, ◌^◌, Bool, true, false, List, [], ◌∷◌, ◌++◌, Option, none, some, Text, codes,
  empty, length, get_elem?, get_or, set, ltb, ◌==◌, if◌then◌else◌, Run, done, abort, assert, ◌>>=◌,
  ◌>>◌,
}
use tgproxy.Common.Int.{ℤ, pos, negsuc}
use tgproxy.Common.Decimal.{to_string, stoi}
use tgproxy.Slicer.{slice}
use tgproxy.Json.{Rapidjson}
use tgproxy.MsConf.{MsConfFile, get_ms_list}
use tgproxy.Cluster.Admin.{Admin, get_one_ms_addr}
use tgproxy.Postman.{
  Event, Postman, Answer, ok, refused, encode_slice, encode_ranking_weights, decode_ms_weights,
}

-- What a request shares with the others: the cluster's admin, the servers' file and the static
-- `count` of `get_ms_url`.
pub record Shared : Type 0 where
  pub admin : Admin
  pub ms_conf : MsConfFile
  pub url_count : ℕ

-- What `url` is made of.
abbrev pub url_of : Postman → Text → ℕ → Text
url_of p hostname partition =
    hostname
    ++ codes "/1/"
    ++ p.model_name
    ++ codes "/"
    ++ p.model_ver
    ++ codes "/"
    ++ to_string (pos partition)

-- `msHost[count % msHost.size()]`: no division by zero.
unfoldable pub pick : List Text → ℕ → Run Text
pick [] count = abort
pick (h ∷ hs) count = done (get_or (h ∷ hs) (count % length (h ∷ hs)) [])

-- The fallback to the file: `++count` of an `int` must not overflow.
unfoldable pub fallback_host : Shared → ℕ → Run (Text × Shared)
unfolding pick
fallback_host s partition = do
  assert (ltb (s.url_count + 1) (2 ^ 31))
  (hosts, f) ← get_ms_list s.ms_conf partition []
  host ← pick hosts (s.url_count + 1)
  done (host, record s { ms_conf = f; url_count = s.url_count + 1 })

unfoldable pub hostname_of : Text × Admin → Shared → ℕ → Run (Text × Shared)
unfolding fallback_host
hostname_of ([], a) s partition = fallback_host (record s { admin = a }) partition
hostname_of (c ∷ host, a) s partition = done (c ∷ host, record s { admin = a })

-- `get_ms_url(partition)`.
unfoldable pub get_ms_url : Postman → Shared → ℕ → Run (Text × Shared)
unfolding hostname_of
get_ms_url p s partition = do
  (host, s') ← hostname_of (get_one_ms_addr s.admin) s partition
  done (url_of p host partition, s')

-- What a completed request brings to the callback.
pub record Completion : Type 0 where
  pub url : Text
  -- 0 where no response came.
  pub http_code : ℕ
  pub recv_data : Text

-- `rfind("/")` and the `substr` behind it.
unfoldable pub after_slash : Text → Option Text
after_slash [] = none
after_slash (c ∷ s) = elim (after_slash s) [
  | some rest ↦ some rest
  | none ↦ if c == b'/' then some s else none
]

-- `partition < range_`.
abbrev pub below_range : ℕ → ℤ → Bool
below_range i (pos n) = ltb i n
below_range i (negsuc n) = false

-- `saveMCurlResult(partition, response)` and its assertion.
unfoldable pub save_result : Postman → ℤ → Text → Run Postman
save_result p (negsuc n) response = abort
save_result p (pos i) response = do
  assert (below_range i p.range)
  done (record p { weights = set p.weights i response })

unfoldable pub save_at : Postman → Text → Option ℤ → Run Postman
unfolding save_result
save_at p response none = abort
save_at p response (some (negsuc zero)) = done p
save_at p response (some partition) = save_result p partition response

unfoldable pub partition_save : Postman → Text → Option Text → Run Postman
unfolding save_at
partition_save p response none = done p
partition_save p response (some digits) = save_at p response (stoi digits)

-- `MSReplyCallback` for a handle of this postman: only a response 200 is kept, under the number at
-- the end of its URL; an exception of `stoi` leaves the callback of the C library.
unfoldable pub ms_reply_callback : Postman → Completion → Run Postman
unfolding partition_save after_slash
ms_reply_callback p c =
    if c.http_code == 200 then partition_save p c.recv_data (after_slash c.url) else done p

-- `hub_->start()`: the completions, one callback after the other.
unfoldable pub start_hub : Postman → List Completion → Run Postman
unfolding ms_reply_callback
start_hub p [] = done p
start_hub p (c ∷ cs) = elim (ms_reply_callback p c) [ done p' ↦ start_hub p' cs | abort ↦ abort ]

-- A reply to the client, or false with a text in `out`.
pub data Reply : Type 0 where
  replied : Text → Reply
  no_reply : Text → Reply

-- `!features_.empty()`.
abbrev pub features_there : List ℕ → Bool
features_there [] = false
features_there (k ∷ ks) = true

module _ (j : Rapidjson) where
  open j use {Double}

  -- The loop of `tranferRequest` from the i-th slice on: the hub, `out` and what is shared.
  unfoldable pub transfer_loop :
      Postman → ℕ → List (List ℕ) → List Event → Text → Shared → Run (List Event × Text × Shared)
  transfer_loop p i [] hub out s = done (hub, out, s)
  transfer_loop p i ([] ∷ slices) hub out s = transfer_loop p (i + 1) slices hub out s
  transfer_loop p i ((k ∷ ks) ∷ slices) hub out s = elim (empty (encode_slice j (k ∷ ks))) [
    | true ↦ done (hub, codes "tgp proxy fail, encode slice features fail", s)
    | false ↦ elim (get_ms_url p s i) [
      | abort ↦ abort
      | done (url, s') ↦
          transfer_loop p (i + 1) slices
            (hub ++ record { url = url; body = encode_slice j (k ∷ ks); timeout_ms = 2000 } ∷ [])
            out s'
    ]
  ]

  -- `tranferRequest(out)`, which answers true whenever it returns.
  unfoldable pub transfer_request : Postman → Text → Shared → Run (Postman × Text × Shared)
  unfolding transfer_loop
  transfer_request p out s = do
    assert (features_there p.features)
    let slices = slice p.slicer p.features p.slices
    (hub, out', s') ← transfer_loop p 0 slices p.hub out s
    done (record p { slices = slices; hub = hub }, out', s')

  -- The loop of `answerRequest` from the i-th slice on.
  unfoldable pub answer_loop :
      Postman → ℕ → List (List ℕ) → List Double → Run (List Double × Answer)
  answer_loop p i [] weights = done (weights, ok)
  answer_loop p i ([] ∷ slices) weights = answer_loop p (i + 1) slices weights
  answer_loop p i ((k ∷ ks) ∷ slices) weights = elim (get_elem? p.weights i) [
    | none ↦ abort
    | some [] ↦ done (weights, refused (codes "tgp proxy fail, ms response timout or no response"))
    | some (c ∷ reply) ↦ elim (decode_ms_weights j (c ∷ reply) weights) [
      | abort ↦ abort
      | done (weights', ok) ↦ answer_loop p (i + 1) slices weights'
      | done (weights', refused out) ↦ done (weights', refused out)
    ]
  ]

  unfoldable pub replied_with : List Double × Answer → Reply
  replied_with (weights, refused out) = no_reply out
  replied_with ([], ok) = no_reply (codes "tgp proxy fail, empty weights")
  replied_with (w ∷ ws, ok) = replied (encode_ranking_weights j (w ∷ ws))

  -- `answerRequest(reply, out)`, where `hub_->start()` delivers these completions.
  unfoldable pub answer_request : Postman → List Completion → Run (Postman × Reply)
  unfolding start_hub answer_loop replied_with
  answer_request p completions = do
    p' ← start_hub p completions
    r ← answer_loop p' 0 p'.slices []
    done (p', replied_with r)
