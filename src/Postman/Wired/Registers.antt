-- ===== src/Postman/Wired/Registers.antt =====
-- The slices of a postman are registered, one after the other.
use tgproxy.Common.{
  ℕ, suc, ◌+◌, ◌≡◌, refl, sym, ap, ◌∙◌, subst, Bool, true, false, List, [], ◌∷◌, some, Text, length,
  Run, done, abort, ◌>>=◌, OnEnd, arith,
}
use tgproxy.Common.Int.{pos}
use tgproxy.Curl.{CurlHandle, MultiCurl, Calls}
use tgproxy.Curl.Handles.{handle_at, create}
use tgproxy.Curl.Handlers.{add, taken}
use tgproxy.Curl.Obeys.{ObeysCalls}
use tgproxy.Curl.Seen.{Bodies, cleared, callback_of, deliver, seen_calls}
use tgproxy.Curl.Linked.{Matches, Linked, Ends}
use tgproxy.Hub.{EventHub, register_event}
use tgproxy.Hub.Registered.{Linked-made, add-Ends, present-append_end}
use tgproxy.Hub.Loops.{Reaches, Reaches-bind}
use tgproxy.Postman.{Event, Postman}
use tgproxy.Postman.Transfer.{Completion, ms_reply_callback}
use tgproxy.Postman.Wired.{Adding, register_slices, ObeysSlices, seen_slices}
use tgproxy.Postman.Wired.Slices.{
  Urls, handle_of, create_slice, made, register_slice, length-taken, second, multi_of,
}

module _ (url : ℕ → Text) where
  pub handle_of-Matches :
      (e : Event) (b : Bodies) (n : ℕ)
      → url n ≡ e.url
      → Matches ms_reply_callback url (cleared b n) n (handle_of e)
  handle_of-Matches e b n u = record {
    same_url = sym u;
    same_body = ground arith;
    same_cb = refl;
    once = refl;
  }

  with_hub-Reaches :
      (hs : List ℕ) (m : MultiCurl Postman) (r : Run (MultiCurl Postman)) (h n : ℕ)
      (hub : EventHub Postman) (t : Bodies × List Completion)
      → length m.handles ≡ n
      → Ends ms_reply_callback url [] hs m r t
      → Reaches ms_reply_callback url second m.client n
          (r >>= λ m'. done (h, record hub { multi = m' }))
          t
  with_hub-Reaches hs m abort h n hub t l e = e
  with_hub-Reaches hs m (done m') h n hub t l e = (e.0, e.1, e.2.made ∙ l)

  registered_slice :
      (e : Event) (calls : Calls) (hub : EventHub Postman) (b : Bodies)
      → url (length hub.multi.handles) ≡ e.url
      → Linked ms_reply_callback url [] hub.multi b
      → OnEnd
          (λ r.
            (x : CurlHandle Postman)
            → handle_at r.1 r.0 ≡ some x
            → ObeysCalls calls (taken r.0 true x r.1))
          (create e.url
            (callback_of ms_reply_callback)
            false
            (pos e.timeout_ms)
            (some e.body)
            (pos (length e.body))
            []
            hub.multi)
      → Reaches ms_reply_callback url second hub.multi.client
          (suc (length hub.multi.handles))
          (register_event e.url
            (callback_of ms_reply_callback)
            (pos e.timeout_ms)
            (some e.body)
            (pos (length e.body))
            []
            true
            calls
            hub)
          (seen_calls url calls (cleared b (length hub.multi.handles)))
  registered_slice e calls hub b u l o =
      let n = length hub.multi.handles in
      let m1 = made e hub.multi in
      let x = handle_of e in
      let there = present-append_end hub.multi.handles x in
      let obeys =
        subst
          (λ r.
            OnEnd
              (λ r.
                (x : CurlHandle Postman)
                → handle_at r.1 r.0 ≡ some x
                → ObeysCalls calls (taken r.0 true x r.1))
              r)
          (create_slice e hub.multi) o in
      let fresh =
        Linked-made ms_reply_callback url [] hub.multi b x l (handle_of-Matches e b n u) in
      rw (register_slice e true calls hub) (
        with_hub-Reaches (n ∷ m1.added) (taken n true x m1) (add n true calls m1) n (suc n) hub
          (seen_calls url calls (cleared b n)) (length-taken e hub.multi n x)
          (add-Ends ms_reply_callback url [] m1 b n x calls fresh there (obeys x there)))

  -- A slice is registered.
  register_event-Reaches :
      (e : Event) (ok : Bool) (calls : Calls) (hub : EventHub Postman) (b : Bodies) (k : ℕ)
      → length hub.multi.handles ≡ k
      → ok ≡ true
      → url k ≡ e.url
      → Linked ms_reply_callback url [] hub.multi b
      → OnEnd
          (λ r.
            (x : CurlHandle Postman)
            → handle_at r.1 r.0 ≡ some x
            → ObeysCalls calls (taken r.0 true x r.1))
          (create e.url
            (callback_of ms_reply_callback)
            false
            (pos e.timeout_ms)
            (some e.body)
            (pos (length e.body))
            []
            hub.multi)
      → Reaches ms_reply_callback url second hub.multi.client
          (suc k)
          (register_event e.url
            (callback_of ms_reply_callback)
            (pos e.timeout_ms)
            (some e.body)
            (pos (length e.body))
            []
            ok
            calls
            hub)
          (seen_calls url calls (cleared b k))
  register_event-Reaches e ok calls hub b k p q u l o = rw (q) (
      subst
        (λ k.
          Reaches ms_reply_callback url second hub.multi.client (suc k)
            (register_event e.url (callback_of ms_reply_callback) (pos e.timeout_ms) (some e.body)
              (pos (length e.body)) [] true calls hub)
            (seen_calls url calls (cleared b k)))
        p (registered_slice e calls hub b (ap url p ∙ u) l o))

  pub register_slices-Reaches :
      (es : List (Event × Adding)) (hub : EventHub Postman) (b : Bodies) (k n : ℕ)
      → length hub.multi.handles ≡ k
      → k + length es ≡ n
      → Urls url k es
      → Linked ms_reply_callback url [] hub.multi b
      → ObeysSlices es hub
      → Reaches ms_reply_callback url multi_of hub.multi.client n
          (register_slices es hub)
          (seen_slices url k es b)
  unfolding register_slices ObeysSlices seen_slices deliver
  register_slices-Reaches [] hub b k n e s u l o = (refl, l, omega arith)
  register_slices-Reaches ((v, g) ∷ es) hub b k n e s u l o =
      let t = seen_calls url g.calls (cleared b k) in
      let head = register_event-Reaches v g.is_added g.calls hub b k e o.0 u.0 l o.1 in
      Reaches-bind ms_reply_callback url second multi_of hub.multi.client (suc k) n
        (register_event v.url (callback_of ms_reply_callback) (pos v.timeout_ms) (some v.body)
          (pos (length v.body)) [] g.is_added g.calls hub)
        (λ r. register_slices es r.1) t (seen_slices url (suc k) es t.0) (λ r. ObeysSlices es r.1)
        o.2 head
        (λ r q l' e'. register_slices-Reaches es r.1 t.0 (suc k) n e' (omega arith) u.1 l' q)
