-- ===== src/Postman/Wired.antt =====
-- postman/tgp_postman.cc on its event hub: the slices are registered with libcurl, and the loop runs the
-- callback. What becomes of the postman is what `start_hub` gives for the completions.
pub mod Slices
pub mod Registers
pub mod Upto
pub mod Refines
pub mod Once
pub mod Answered
pub mod Leaked
use tgproxy.Common.{
  ℕ, zero, suc, ◌+◌, ◌≡◌, ◌≢◌, refl, sym, ap, ◌∙◌, subst, Bool, true, false, List, [], ◌∷◌, ◌++◌,
  map, Option, none, some, Text, c_str, one_of, length, length-append, length-set, get_elem?, take,
  leb, Run, done, abort, ◌>>=◌, OnEnd, OnEnd-bind, Run-cases, inl, inr, arith,
}
use tgproxy.Common.Int.{ℤ, pos}
use tgproxy.Curl.{CurlHandle, MultiCurl, Calls, copied}
use tgproxy.Curl.Handles.{handle_at, clear, create}
use tgproxy.Curl.Handlers.{add, taken}
use tgproxy.Curl.Obeys.{ObeysCalls}
use tgproxy.Curl.Seen.{Bodies, cleared, callback_of, deliver, seen_calls}
use tgproxy.Curl.Linked.{Matches, Linked, Ends}
use tgproxy.Hub.{
  EventHub, Dispatch, free_events, new_multi, new_event_hub, register_event, loop, start_loop,
}
use tgproxy.Hub.Registered.{Linked-made, add-Ends, present-append_end}
use tgproxy.Hub.Loops.{ObeysLoop, seen_loop, Reaches, Ends-Reaches, Reaches-bind, loop-Reaches}
use tgproxy.Postman.{Event, Postman}
use tgproxy.Postman.Transfer.{Completion, ms_reply_callback, start_hub}

-- What libcurl does when a slice is added: whether it is `CURLM_OK`, and its calls.
pub record Adding : Type 0 where
  pub is_added : Bool
  pub calls : Calls

-- `hub_->register_event(url, MSReplyCallback, this, 2000, json_slice.c_str(), json_slice.size())`, slice by slice.
unfoldable pub register_slices : List (Event × Adding) → EventHub Postman → Run (EventHub Postman)
unfolding register_event
register_slices [] hub = done hub
register_slices ((e, g) ∷ es) hub =
    register_event e.url (callback_of ms_reply_callback) (pos e.timeout_ms) (some e.body)
      (pos (length e.body)) [] g.is_added g.calls hub
    >>= λ r. register_slices es r.1

-- What libcurl promises of the slices: each is added, and its calls keep to the rules.
unfoldable pub ObeysSlices : List (Event × Adding) → EventHub Postman → Type 0
ObeysSlices [] hub = Unit
ObeysSlices ((e, g) ∷ es) hub =
    (g.is_added ≡ true)
    × OnEnd
        (λ r.
          (x : CurlHandle Postman)
          → handle_at r.1 r.0 ≡ some x
          → ObeysCalls g.calls (taken r.0 true x r.1))
        (create e.url (callback_of ms_reply_callback) false (pos e.timeout_ms) (some e.body)
          (pos (length e.body)) [] hub.multi)
    × OnEnd (λ r. ObeysSlices es r.1)
        (register_event e.url (callback_of ms_reply_callback) (pos e.timeout_ms) (some e.body)
          (pos (length e.body)) [] g.is_added g.calls hub)

-- The URL of the slice with a number.
abbrev pub url_at : List (Event × Adding) → ℕ → Text
url_at [] h = []
url_at (eg ∷ es) zero = eg.0.url
url_at (eg ∷ es) (suc h) = url_at es h

-- What the slices deliver while they are registered, from the handle `n` on.
unfoldable pub seen_slices :
    (ℕ → Text) → ℕ → List (Event × Adding) → Bodies → Bodies × List Completion
seen_slices url n [] b = (b, [])
seen_slices url n (eg ∷ es) b =
    let t = seen_calls url eg.1.calls (cleared b n) in
    let r = seen_slices url (suc n) es t.0 in (r.0, t.1 ++ r.1)

-- All that is delivered, from the first slice to the end of the loop.
unfoldable pub completions : List (Event × Adding) → List Dispatch → List Completion
unfolding seen_slices
completions es ds =
    let t = seen_slices (url_at es) 0 es (λ h. []) in t.1 ++ (seen_loop (url_at es) ds t.0).1

-- The hub of a postman, its slices and its loop.
abbrev pub hub_of : Postman → EventHub Postman
hub_of p = record { multi = new_multi p; events = [] }

unfoldable pub run_slices : List (Event × Adding) → List Dispatch → Postman → Run (EventHub Postman)
unfolding register_slices start_loop
run_slices es ds p = do
  hub0 ← new_event_hub true p
  hub ← register_slices es hub0
  start_loop ds hub
