-- ===== src/Proxy.antt =====
-- proxy/: from the URL of a request to the response. The HTTP server calls the factory with the
-- request's URL, and then the handler: `onRequest`, `onBody` for every chunk, and `onEOM`. A throw
-- in one of them, all `noexcept`, ends the process. Logging and clocks are left out.
pub mod Server
pub mod Routes
pub mod Exchange
pub mod Refused
pub mod Lifetime
pub mod OnHub
pub mod Session
use tgproxy.Common.{
  ℕ, ◌+◌, ◌%◌, ◌^◌, Bool, true, false, ◌||◌, List, [], ◌∷◌, ◌++◌, Option, none, some, Text, codes,
  empty, same_text, if◌then◌else◌, Run, done, abort, ◌>>=◌,
}
use tgproxy.Common.Int.{ℤ}
use tgproxy.Utils.{split}
use tgproxy.Json.{Rapidjson}
use tgproxy.MsConf.{get_ms_parts}
use tgproxy.Postman.{Event, Postman, new_postman, Answer, ok, refused, check_request}
use tgproxy.Postman.Transfer.{
  Shared, Completion, Reply, replied, no_reply, transfer_request, answer_request,
}

-- What the factory's `onRequest` makes: a wrong handler with the URL, or a handler of a model.
pub data Route : Type 0 where
  wrong : Text → Route
  model : Text → Text → Route

unfoldable pub routed : Text → List Text → Route
routed url (first ∷ model_name ∷ model_ver ∷ []) =
    if empty model_name || empty model_ver then wrong url else model model_name model_ver
routed url url_terms = wrong url

unfoldable pub route_terms : Text → Option (List Text) → Run Route
unfolding routed
route_terms url none = abort
route_terms url (some url_terms) = done (routed url url_terms)

-- The factory's `onRequest`.
unfoldable pub route : Text → Run Route
unfolding route_terms
route url =
    if same_text url (codes "/")
    then done (wrong url)
    else route_terms url (split url (codes "/") [])

-- `recoredRequest()` of the statistics, a `uint64_t`.
abbrev pub record_request : ℕ → ℕ
record_request req_count = (req_count + 1) % 2 ^ 64

-- `onBody` of the handler: the bytes of the chain `body_`, to whose end the chunk is linked.
unfoldable pub on_body : Option Text → Text → Option Text
on_body none chunk = some chunk
on_body (some body) chunk = some (body ++ chunk)

unfoldable pub all_bodies : Option Text → List Text → Option Text
all_bodies body [] = body
all_bodies body (chunk ∷ chunks) = all_bodies (on_body body chunk) chunks

pub record Response : Type 0 where
  pub status : ℕ
  pub body : Option Text

-- What `onEOM` sends: the reply, or the reason of a failure, as it is, in the text of an object.
unfoldable pub reply_text : Reply → Text
reply_text (replied reply) = reply
reply_text (no_reply out) = codes "{\"weights\":[], \"reason\":\"" ++ out ++ codes "\"}"

-- `answerRequest`, where `net` is what completes of what was registered.
abbrev pub answered_by :
    Rapidjson → (List Event → List Completion) → Postman → Run (Postman × Reply)
answered_by j net p = answer_request j p (net p.hub)

-- `answering` is `answerRequest`, with what the event loop does for what was registered: `answered_by` takes
-- what completes, and `answer_on_hub` of Postman/Wired/Answered the hub of libcurl.
module _ (j : Rapidjson) (answering : Postman → Run (Postman × Reply)) where
  -- `tgpExpress` behind `checkRequest`.
  unfoldable pub after_check : Postman × Answer → Shared → Run (Reply × Shared)
  after_check (p, refused out) s = done (no_reply out, s)
  after_check (p, ok) s = do
    (p', out, s') ← transfer_request j p [] s
    (q, reply) ← answering p'
    done (reply, s')

  -- `tgpExpress` behind its tests for an empty body.
  unfoldable pub with_ranges : Text → Text → Text → ℤ → Shared → Run (Reply × Shared)
  unfolding after_check
  with_ranges model_name model_ver request ranges s = do
    p ← new_postman ranges model_name model_ver
    checked ← check_request j p request
    after_check checked s

  -- `tgpExpress(body, reply, out)`.
  unfoldable pub tgp_express : Text → Text → Option Text → Shared → Run (Reply × Shared)
  unfolding with_ranges
  tgp_express model_name model_ver none s =
      done (no_reply (codes "please check, request body is empty"), s)
  tgp_express model_name model_ver (some []) s =
      done (no_reply (codes "please check, request body is empty"), s)
  tgp_express model_name model_ver (some (c ∷ request)) s =
      let (ranges, f) = get_ms_parts s.ms_conf [] in
      with_ranges model_name model_ver (c ∷ request) ranges (record s { ms_conf = f })

  -- `onEOM` of the handler.
  unfoldable pub on_eom : Text → Text → Option Text → Shared → Run (Response × Shared)
  unfolding reply_text
  on_eom model_name model_ver body s = do
    (reply, s') ← tgp_express model_name model_ver body s
    done (record { status = 200; body = some (reply_text reply) }, s')

  unfoldable pub handled : Route → List Text → Shared → ℕ → Run (Response × Shared × ℕ)
  unfolding on_eom all_bodies on_body
  handled (wrong url) chunks s req_count = done (record { status = 200; body = none }, s, req_count)
  handled (model model_name model_ver) chunks s req_count = do
    (response, s') ← on_eom model_name model_ver (all_bodies none chunks) s
    done (response, s', record_request req_count)

  -- One request: its URL, the chunks of its body, what is shared and the statistics.
  unfoldable pub exchange : Text → List Text → Shared → ℕ → Run (Response × Shared × ℕ)
  unfolding handled
  exchange url chunks s req_count = do r ← route url; handled r chunks s req_count
