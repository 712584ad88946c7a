-- ===== src/Proxy/Lifetime.antt =====
-- proxy/tgp_proxy_handler.cc and tgp_wrong_handler.cc: a handler under the calls of the HTTP library, up
-- to the one that deletes it. A call of a deleted handler is `abort`.
use tgproxy.Common.{
  ℕ, ◌≡◌, refl, ap, ◌∙◌, Bool, true, false, List, [], ◌∷◌, ◌++◌, map, Option, none, Text, Run, done,
  abort, assert, ◌>>=◌,
}
use tgproxy.Json.{Rapidjson}
use tgproxy.Postman.{Postman}
use tgproxy.Postman.Transfer.{Shared, Reply}
use tgproxy.Proxy.{
  Route, wrong, model, Response, record_request, on_body, all_bodies, on_eom, handled,
}

-- The calls: `onRequest`, `onBody`, `onEOM`, `onUpgrade`, `requestComplete` and `onError`.
pub data HandlerCall : Type 0 where
  on_request : HandlerCall
  on_chunk : Text → HandlerCall
  on_end : HandlerCall
  on_upgrade : HandlerCall
  request_complete : HandlerCall
  on_error : HandlerCall

-- A handler, with what it sent, and what it shares with the others.
pub record Handler : Type 0 where
  pub is_alive : Bool
  pub body : Option Text
  pub sent : List Response
  pub shared : Shared
  pub req_count : ℕ

module _ (j : Rapidjson) (answering : Postman → Run (Postman × Reply)) where
  -- `onEOM`: `body_` is moved away.
  abbrev pub ended : Route → Handler → Run Handler
  ended (wrong url) h =
      done (record h { sent = h.sent ++ record { status = 200; body = none } ∷ [] })
  ended (model model_name model_ver) h =
      on_eom j answering model_name model_ver h.body h.shared >>= λ r.
      done (record h { body = none; sent = h.sent ++ r.0 ∷ []; shared = r.1 })

  abbrev pub counted : Route → Handler → Handler
  counted (wrong url) h = h
  counted (model model_name model_ver) h = record h { req_count = record_request h.req_count }

  abbrev pub kept : Route → Text → Handler → Handler
  kept (wrong url) chunk h = h
  kept (model model_name model_ver) chunk h = record h { body = on_body h.body chunk }

  abbrev pub acts : Route → HandlerCall → Handler → Run Handler
  acts k on_request h = done (counted k h)
  acts k (on_chunk chunk) h = done (kept k chunk h)
  acts k on_end h = ended k h
  acts k on_upgrade h = done h
  acts k request_complete h = done (record h { is_alive = false })
  acts k on_error h = done (record h { is_alive = false })

  unfoldable pub called : Route → List HandlerCall → Handler → Run Handler
  called k [] h = done h
  called k (c ∷ cs) h = assert h.is_alive >>= λ _. acts k c h >>= λ h'. called k cs h'

  -- A handler that the factory just made.
  abbrev pub new_handler : Shared → ℕ → Handler
  new_handler s n = record { is_alive = true; body = none; sent = []; shared = s; req_count = n }

  -- The calls of a request that comes in chunks, is answered and completes.
  abbrev pub served_calls : List Text → List HandlerCall
  served_calls chunks = on_request ∷ (map on_chunk chunks ++ (on_end ∷ request_complete ∷ []))

  -- What is left of a handler behind such a request.
  abbrev pub gone : Response × Shared × ℕ → Handler
  gone r = record { is_alive = false; body = none; sent = r.0 ∷ []; shared = r.1; req_count = r.2 }

  called-cons :
      (k : Route) (c : HandlerCall) (cs : List HandlerCall) (h : Handler)
      → h.is_alive ≡ true
      → called k (c ∷ cs) h ≡ (acts k c h >>= λ h'. called k cs h')
  unfolding called
  called-cons k c cs h a = ap (λ b. assert b >>= λ _. acts k c h >>= λ h'. called k cs h') a

  called_chunks_model :
      (name ver : Text) (chunks : List Text) (cs : List HandlerCall) (h : Handler)
      → h.is_alive ≡ true
      → called (model name ver) (map on_chunk chunks ++ cs) h
        ≡ called (model name ver) cs (record h { body = all_bodies h.body chunks })
  unfolding called all_bodies
  called_chunks_model name ver [] cs h a = refl
  called_chunks_model name ver (chunk ∷ chunks) cs h a =
      called-cons (model name ver) (on_chunk chunk) (map on_chunk chunks ++ cs) h a
      ∙ called_chunks_model name ver chunks cs (kept (model name ver) chunk h) a

  called_chunks_wrong :
      (url : Text) (chunks : List Text) (cs : List HandlerCall) (h : Handler)
      → h.is_alive ≡ true
      → called (wrong url) (map on_chunk chunks ++ cs) h ≡ called (wrong url) cs h
  unfolding called
  called_chunks_wrong url [] cs h a = refl
  called_chunks_wrong url (chunk ∷ chunks) cs h a =
      called-cons (wrong url) (on_chunk chunk) (map on_chunk chunks ++ cs) h a
      ∙ called_chunks_wrong url chunks cs h a

  -- The end of a request, behind the run of `on_eom`.
  sent_and_gone :
      (k : Route) (h : Handler) (r : Run (Response × Shared))
      → h.is_alive ≡ true
      → h.sent ≡ []
      → ((r >>= λ x. done (record h { body = none; sent = h.sent ++ x.0 ∷ []; shared = x.1 }))
          >>= λ h'. called k (request_complete ∷ []) h')
        ≡ ((r >>= λ x. done (x.0, x.1, h.req_count)) >>= λ x. done (gone x))
  unfolding called
  sent_and_gone k h abort a e = refl
  sent_and_gone k h (done x) a e =
      called-cons k request_complete []
        (record h { body = none; sent = h.sent ++ x.0 ∷ []; shared = x.1 }) a
      ∙ rw e refl

  -- A handler that is called as the HTTP library calls it, for a request that comes in any chunks and
  -- completes, does what `handled` says: it sends one response, and the last call deletes it.
  pub called-handled :
      (k : Route) (chunks : List Text) (s : Shared) (n : ℕ)
      → called k (served_calls chunks) (new_handler s n)
        ≡ (handled j answering k chunks s n >>= λ r. done (gone r))
  unfolding called handled
  called-handled (wrong url) chunks s n =
      called_chunks_wrong url chunks (on_end ∷ request_complete ∷ []) (new_handler s n) refl
  called-handled (model name ver) chunks s n =
      let h : Handler = record {
        is_alive = true;
        body = all_bodies none chunks;
        sent = [];
        shared = s;
        req_count = record_request n;
      } in
      called_chunks_model name ver chunks (on_end ∷ request_complete ∷ [])
        (counted (model name ver) (new_handler s n)) refl
      ∙ called-cons (model name ver) on_end (request_complete ∷ []) h refl
      ∙ sent_and_gone (model name ver) h (on_eom j answering name ver (all_bodies none chunks) s)
          refl refl
