-- ===== src/Postman/Wired/Refines.antt =====
-- What a run of the hub makes of its postman.
use tgproxy.Common.{
  ℕ, ◌≡◌, refl, sym, ap, ◌∙◌, subst, true, List, [], ◌∷◌, ◌++◌, some, Text, one_of, length, Run,
  done, abort, ◌>>=◌, OnEnd, OnEnd-both, OnEnd-bind, Run-cases, inl, inr, arith,
}
use tgproxy.Curl.{CurlHandle, MultiCurl}
use tgproxy.Curl.Handles.{handle_at}
use tgproxy.Curl.Handlers.{add}
use tgproxy.Curl.Seen.{Bodies, deliver}
use tgproxy.Curl.Linked.{Linked}
use tgproxy.Hub.{EventHub, Dispatch, free_events, new_multi, new_event_hub, loop, start_loop}
use tgproxy.Hub.Loops.{ObeysLoop, seen_loop, Reaches, Reaches-bind, loop-Reaches}
use tgproxy.Postman.{Event, Postman}
use tgproxy.Postman.Transfer.{Completion, ms_reply_callback, start_hub}
use tgproxy.Postman.Wired.{
  Adding, register_slices, ObeysSlices, url_at, seen_slices, completions, hub_of, run_slices,
}
use tgproxy.Postman.Wired.Registers.{register_slices-Reaches}
use tgproxy.Postman.Wired.Slices.{url_at-Urls, made, register_slice, multi_of}

start_hub-deliver :
    (p : Postman) (cs : List Completion) → start_hub p cs ≡ deliver ms_reply_callback p cs
unfolding start_hub deliver
start_hub-deliver p [] = refl
start_hub-deliver p (c ∷ cs) = elim (Run-cases (ms_reply_callback p c)) [
  | inl (p', e) ↦ rw (e, start_hub, deliver) (start_hub-deliver p' cs)
  | inr e ↦ rw (e, start_hub, deliver) refl
]

-- Every handle that was not deleted is libcurl's, and libcurl has no other.
abbrev pub IsClean : EventHub Postman → Type 0
IsClean hub =
    ((h : ℕ) (x : CurlHandle Postman)
      → handle_at hub.multi h ≡ some x
      → one_of hub.multi.added h ≡ true)
    × ((h : ℕ)
        → one_of hub.multi.added h ≡ true
        → (x : CurlHandle Postman) × (handle_at hub.multi h ≡ some x))

abbrev KeepsEvents : EventHub Postman → ℕ × EventHub Postman → Type 0
KeepsEvents hub r = r.1.events ≡ hub.events

with_multi_events :
    (r : Run (MultiCurl Postman)) (h : ℕ) (hub : EventHub Postman)
    → OnEnd (KeepsEvents hub) (r >>= λ m. done (h, record hub { multi = m }))
with_multi_events (done m) h hub = refl
with_multi_events abort h hub = tt

keeps_events :
    (es : List (Event × Adding)) (hub : EventHub Postman)
    → hub.events ≡ []
    → OnEnd (λ hub'. hub'.events ≡ []) (register_slices es hub)
unfolding register_slices
keeps_events [] hub e = e
keeps_events ((v, g) ∷ es) hub e = rw (register_slice v g.is_added g.calls hub) (
    OnEnd-bind (λ hub'. hub'.events ≡ [])
      (add (length hub.multi.handles) g.is_added g.calls (made v hub.multi) >>= λ m.
        done (length hub.multi.handles, record hub { multi = m }))
      (λ r. register_slices es r.1)
      (λ a d. keeps_events es a.1 (
        subst (λ r. OnEnd (KeepsEvents hub) r) d
          (with_multi_events (add (length hub.multi.handles) g.is_added g.calls (made v hub.multi))
            (length hub.multi.handles) hub)
        ∙ e)))

start_loop_empty :
    (ds : List Dispatch) (hub : EventHub Postman)
    → hub.events ≡ []
    → start_loop ds hub ≡ (loop ds hub.multi >>= λ m. done (record { multi = m; events = [] }))
unfolding start_loop free_events
start_loop_empty ds hub e = rw e refl

pub new_multi-Linked :
    (p : Postman) (url : ℕ → Text) → Linked ms_reply_callback url [] (new_multi p) (λ h. [])
new_multi-Linked p url = record {
  live = λ h a. cc a;
  matches = λ h x e. cc e;
  owned = λ h x e. cc e;
}

looped-Reaches :
    (url : ℕ → Text) (s : Postman) (n : ℕ) (r : Run (MultiCurl Postman))
    (t : Bodies × List Completion)
    → Reaches ms_reply_callback url (λ m. m) s n r t
    → Reaches ms_reply_callback url multi_of s n
        (r >>= λ m. done (record { multi = m; events = [] }))
        t
looped-Reaches url s n abort t e = e
looped-Reaches url s n (done m) t e = e

-- The whole run, from the new hub.
run_slices-Reaches :
    (p : Postman) (es : List (Event × Adding)) (ds : List Dispatch)
    → ObeysSlices es (hub_of p)
    → OnEnd (λ hub. ObeysLoop ds hub.multi) (register_slices es (hub_of p))
    → (t : Bodies × List Completion) × (t.1 ≡ completions es ds)
      × Reaches ms_reply_callback (url_at es) multi_of p (length es) (run_slices es ds p) t
unfolding run_slices new_event_hub completions
run_slices-Reaches p es ds o q =
    let url = url_at es in
    let n = length es in
    let t = seen_slices url 0 es (λ h. []) in
    let u = seen_loop url ds t.0 in
    let slices =
      register_slices-Reaches url es (hub_of p) (λ h. []) 0 n refl (omega arith) (url_at-Urls es)
        (new_multi-Linked p url) o in
    (
      (u.0, t.1 ++ u.1),
      refl,
      Reaches-bind ms_reply_callback url multi_of multi_of p n n (register_slices es (hub_of p))
          (λ hub. start_loop ds hub) t u (λ hub. ObeysLoop ds hub.multi × (hub.events ≡ []))
          (OnEnd-both (λ hub. ObeysLoop ds hub.multi) (λ hub. hub.events ≡ [])
            (register_slices es (hub_of p)) q (keeps_events es (hub_of p) refl))
          slices
          (λ hub q' l e. rw (start_loop_empty ds hub q'.1) (
            looped-Reaches url hub.multi.client n (loop ds hub.multi) u
              (loop-Reaches ms_reply_callback url ds hub.multi n t.0 l q'.0 e))),
    )

-- If libcurl keeps its promises, then whatever it does, in whatever order, the postman of a run of the
-- hub is what `start_hub` gives for the completions of the trace, and a run that aborts is a callback
-- that does.
pub run_slices-start_hub :
    (p : Postman) (es : List (Event × Adding)) (ds : List Dispatch)
    → ObeysSlices es (hub_of p)
    → OnEnd (λ hub. ObeysLoop ds hub.multi) (register_slices es (hub_of p))
    → (run_slices es ds p >>= λ hub. done hub.multi.client) ≡ start_hub p (completions es ds)
run_slices-start_hub p es ds o q =
    let (t, e, r) = run_slices-Reaches p es ds o q in
    client_of (run_slices es ds p) t r
    ∙ ap (deliver ms_reply_callback p) e
    ∙ sym (start_hub-deliver p (completions es ds))
  where
    client_of :
        (r : Run (EventHub Postman)) (t : Bodies × List Completion)
        → Reaches ms_reply_callback (url_at es) multi_of p (length es) r t
        → (r >>= λ hub. done hub.multi.client) ≡ deliver ms_reply_callback p t.1
    client_of (done hub) t r = sym r.0
    client_of abort t r = sym r

-- If libcurl keeps its promises and the callbacks of the trace go through, then the run of the hub ends:
-- no deleted handle is used and none is deleted twice. Behind it every handle that was not deleted is
-- still libcurl's, and libcurl has no handle that was deleted.
pub run_slices-IsClean :
    (p q : Postman) (es : List (Event × Adding)) (ds : List Dispatch)
    → ObeysSlices es (hub_of p)
    → OnEnd (λ hub. ObeysLoop ds hub.multi) (register_slices es (hub_of p))
    → start_hub p (completions es ds) ≡ done q
    → (hub : EventHub Postman) × (run_slices es ds p ≡ done hub) × IsClean hub
run_slices-IsClean p q es ds o l d =
    let (t, e, r) = run_slices-Reaches p es ds o l in
    let ends : deliver ms_reply_callback p t.1 ≡ done q =
      ap (deliver ms_reply_callback p) e ∙ sym (start_hub-deliver p (completions es ds)) ∙ d in
    clean (run_slices es ds p) t ends r
  where
    clean :
        (r : Run (EventHub Postman)) (t : Bodies × List Completion)
        → deliver ms_reply_callback p t.1 ≡ done q
        → Reaches ms_reply_callback (url_at es) multi_of p (length es) r t
        → (hub : EventHub Postman) × (r ≡ done hub) × IsClean hub
    clean (done hub) t d r = (
      hub,
      refl,
      (λ h x e. elim (r.1.owned h x e) [ inl a ↦ a | inr a ↦ cc a ], λ h a. r.1.live h a),
    )
    clean abort t d r = cc (d, r)
