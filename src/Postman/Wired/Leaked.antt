-- ===== src/Postman/Wired/Leaked.antt =====
-- A slice whose handle libcurl refuses to add: `add` only logs it.
use tgproxy.Common.{
  ℕ, suc, ◌+◌, ◌≡◌, refl, sym, ap, ◌∙◌, subst, false, List, [], ◌∷◌, ◌++◌, Option, none, some, Text,
  length, get_elem?, one_of, Run, done, abort, ◌>>=◌, OnEnd, OnEnd-both, OnEnd-imp, Bool-cases, inl,
  inr, arith,
}
use tgproxy.Common.Int.{pos}
use tgproxy.Curl.{CurlHandle, MultiCurl, silent}
use tgproxy.Curl.Handles.{present, handle_at, clear}
use tgproxy.Curl.Handlers.{taken, run_calls}
use tgproxy.Postman.Transfer.{Completion, ms_reply_callback}
use tgproxy.Curl.Seen.{Bodies, cleared, callback_of}
use tgproxy.Curl.Linked.{Linked, Ends, present-set_self}
use tgproxy.Curl.Once.{count}
use tgproxy.Curl.Once.Counted.{Counted, Single}
use tgproxy.Hub.{EventHub, Dispatch, register_event, loop}
use tgproxy.Hub.Loops.{ObeysLoop, seen_loop, Reaches, loop-Ends}
use tgproxy.Hub.Once.{reported_loop, loop-Counted}
use tgproxy.Hub.Registered.{add-taken, present-append_end, Linked-made, Linked-cleared}
use tgproxy.Postman.{Event, Postman}
use tgproxy.Postman.Wired.{Adding, register_slices, ObeysSlices, url_at, seen_slices, hub_of}
use tgproxy.Postman.Wired.Slices.{Urls, url_at-Urls, handle_of, made, register_slice, multi_of}
use tgproxy.Postman.Wired.Registers.{handle_of-Matches, register_slices-Reaches}
use tgproxy.Postman.Wired.Refines.{new_multi-Linked}
use tgproxy.Postman.Wired.Upto.{Upto, reported_slices, one_below_self, one_below-le, slices-Upto}

-- The registration of a slice that libcurl refuses.
abbrev pub refused_slice : Event → EventHub Postman → Run (ℕ × EventHub Postman)
refused_slice e hub =
    register_event e.url (callback_of ms_reply_callback) (pos e.timeout_ms) (some e.body)
      (pos (length e.body)) [] false silent hub

-- What it leaves: the handle is there, and libcurl does not have it.
abbrev pub after_refusal : Event → EventHub Postman → EventHub Postman
after_refusal e hub = record hub {
  multi = taken (length hub.multi.handles) false (handle_of e) (made e hub.multi);
}

refused_slice_run :
    (e : Event) (hub : EventHub Postman)
    → refused_slice e hub ≡ done (length hub.multi.handles, after_refusal e hub)
unfolding run_calls
refused_slice_run e hub =
    register_slice e false silent hub
    ∙ ap (λ r. r >>= λ m. done (length hub.multi.handles, record hub { multi = m }))
        (add-taken (made e hub.multi) (length hub.multi.handles) false (handle_of e) silent
          (present-append_end hub.multi.handles (handle_of e)))

abbrev with_refused : List (Event × Adding) → Event → List (Event × Adding)
with_refused es e = es ++ (e, record { is_added = false; calls = silent }) ∷ []

Urls-with_refused :
    (url : ℕ → Text) (k : ℕ) (es : List (Event × Adding)) (e : Event)
    → Urls url k (with_refused es e)
    → Urls url k es × (url (k + length es) ≡ e.url)
Urls-with_refused url k [] e u = let z : k + 0 ≡ k = omega arith in (tt, rw z u.0)
Urls-with_refused url k (eg ∷ es) e u =
    let (us, e') = Urls-with_refused url (suc k) es e u.1 in
    let n : suc k + length es ≡ k + suc (length es) = omega arith in
    ((u.0, us), subst (λ j. url j ≡ e.url) n e')

present-out : (xs : List (Option (CurlHandle Postman))) → present (get_elem? xs (length xs)) ≡ none
present-out [] = refl
present-out (x ∷ xs) = present-out xs

module _ (url : ℕ → Text) where
  refusal-Linked :
      (e : Event) (hub : EventHub Postman) (b : Bodies)
      → Linked ms_reply_callback url [] hub.multi b
      → url (length hub.multi.handles) ≡ e.url
      → Linked ms_reply_callback url
          (length hub.multi.handles ∷ [])
          (after_refusal e hub).multi
          (cleared b (length hub.multi.handles))
  refusal-Linked e hub b l u =
      let n = length hub.multi.handles in
      Linked-cleared ms_reply_callback url [] (made e hub.multi) b n (handle_of e)
        (Linked-made ms_reply_callback url [] hub.multi b (handle_of e) l
          (handle_of-Matches url e b n u))
        (present-append_end hub.multi.handles (handle_of e))

  never_added :
      (hub : EventHub Postman) (b : Bodies)
      → Linked ms_reply_callback url [] hub.multi b
      → one_of hub.multi.added (length hub.multi.handles) ≡ false
  never_added hub b l = elim (Bool-cases (one_of hub.multi.added (length hub.multi.handles))) [
    | inl a ↦
        let (z, e) = l.live (length hub.multi.handles) a in cc (e, present-out hub.multi.handles)
    | inr a ↦ a
  ]

  Ends-OnEnd :
      (busy : List ℕ) (m : MultiCurl Postman) (r : Run (MultiCurl Postman))
      (t : Bodies × List Completion) (h : ℕ) (x : CurlHandle Postman)
      → handle_at m h ≡ some x
      → one_of m.added h ≡ false
      → Ends ms_reply_callback url busy m.added m r t
      → OnEnd (λ m'. handle_at m' h ≡ some x) r
  Ends-OnEnd busy m abort t h x e a k = tt
  Ends-OnEnd busy m (done m') t h x e a k = k.2.same h a ∙ e

  -- A loop behind the refusal keeps the handle.
  refused-kept :
      (e : Event) (hub : EventHub Postman) (b : Bodies) (ds : List Dispatch)
      → Linked ms_reply_callback url [] hub.multi b
      → url (length hub.multi.handles) ≡ e.url
      → ObeysLoop ds (after_refusal e hub).multi
      → OnEnd
          (λ m. handle_at m (length hub.multi.handles) ≡ some (clear (handle_of e)))
          (loop ds (after_refusal e hub).multi)
  refused-kept e hub b ds l u o =
      let n = length hub.multi.handles in
      let m1 = (after_refusal e hub).multi in
      let there =
        present-set_self (hub.multi.handles ++ some (handle_of e) ∷ []) n (handle_of e)
          (some (clear (handle_of e))) (present-append_end hub.multi.handles (handle_of e)) in
      Ends-OnEnd (n ∷ []) m1 (loop ds m1) (seen_loop url ds (cleared b n)) n (clear (handle_of e))
        there (never_added hub b l)
        (loop-Ends ms_reply_callback url ds (n ∷ []) m1.added m1 (cleared b n)
          (refusal-Linked e hub b l u) (λ k a. a) o)

-- A loop behind the refusal does not report it.
refused-unreported :
    (e : Event) (hub : EventHub Postman) (pre : List ℕ) (n : ℕ) (ds : List Dispatch)
    → Upto n pre hub.multi
    → ObeysLoop ds (after_refusal e hub).multi
    → OnEnd (λ m. count n (reported_loop ds) ≡ 0) (loop ds (after_refusal e hub).multi)
refused-unreported e hub pre n ds u o =
    let m1 = (after_refusal e hub).multi in
    let single : Single m1 = λ h. omega (arith, u.0 h, one_below-le n h) in
    OnEnd-imp (Counted m1 (reported_loop ds)) (λ m. count n (reported_loop ds) ≡ 0) (loop ds m1)
      (λ m c. omega (arith, u.0 n, c.0 n, one_below_self n)) (loop-Counted ds m1 single o)

-- The slices `es` are registered with libcurl's consent, and libcurl refuses the next one. Registering it
-- ends as if nothing had happened: its number is returned, and its handle is made. If libcurl keeps its
-- promises, then behind every loop that ends the handle is still there, cleared but not deleted, and the
-- loop has not reported it: its callback is never called.
pub refused_slice-leaks :
    (p : Postman) (es : List (Event × Adding)) (e : Event) (hub : EventHub Postman)
    (ds : List Dispatch)
    → ObeysSlices es (hub_of p)
    → register_slices es (hub_of p) ≡ done hub
    → ObeysLoop ds (after_refusal e hub).multi
    → (refused_slice e hub ≡ done (length es, after_refusal e hub))
      × OnEnd
          (λ m.
            (handle_at m (length es) ≡ some (clear (handle_of e)))
            × (count (length es) (reported_loop ds) ≡ 0))
          (loop ds (after_refusal e hub).multi)
refused_slice-leaks p es e hub ds o r q =
    let n = length es in
    let m1 = (after_refusal e hub).multi in
    let url = url_at (with_refused es e) in
    let us = Urls-with_refused url 0 es e (url_at-Urls (with_refused es e)) in
    let u =
      subst (OnEnd (λ hub'. Upto n (reported_slices es) hub'.multi)) r
        (slices-Upto es (hub_of p) 0 n [] (omega arith) ((λ h. ground arith), refl) o) in
    let l =
      subst (λ r. Reaches ms_reply_callback url multi_of p n r (seen_slices url 0 es (λ h. []))) r
        (register_slices-Reaches url es (hub_of p) (λ h. []) 0 n refl (omega arith) us.0
          (new_multi-Linked p url) o) in
    let z : 0 + n ≡ n = omega arith in
    let same : url (length hub.multi.handles) ≡ e.url =
      subst (λ j. url j ≡ e.url) (z ∙ sym u.1) us.1 in
    let kept =
      subst (λ h. OnEnd (λ m. handle_at m h ≡ some (clear (handle_of e))) (loop ds m1)) u.1
        (refused-kept url e hub (seen_slices url 0 es (λ h. [])).0 ds l.1 same q) in
    (
      subst (λ h. refused_slice e hub ≡ done (h, after_refusal e hub)) u.1
          (refused_slice_run e hub),
      OnEnd-both (λ m. handle_at m n ≡ some (clear (handle_of e)))
          (λ m. count n (reported_loop ds) ≡ 0) (loop ds m1) kept
          (refused-unreported e hub (reported_slices es) n ds u q),
    )
