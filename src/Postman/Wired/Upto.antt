-- ===== src/Postman/Wired/Upto.antt =====
-- Of the handles that were made, those that were not reported are still libcurl's.
use tgproxy.Common.{
  ℕ, suc, ◌+◌, ◌≤◌, ◌≡◌, sym, ap, ◌∙◌, subst, Bool, true, false, List, [], ◌∷◌, ◌++◌, some, length,
  ltb, ◌==◌, if◌then◌else◌, Run, done, abort, ◌>>=◌, OnEnd, OnEnd-imp, OnEnd-bind, append_assoc,
  append-nil, arith,
}
use tgproxy.Common.Int.{pos}
use tgproxy.Curl.{CurlHandle, MultiCurl, Calls}
use tgproxy.Curl.Handles.{handle_at, create}
use tgproxy.Curl.Handlers.{run_calls, add, taken}
use tgproxy.Curl.Obeys.{ObeysCalls}
use tgproxy.Curl.Seen.{callback_of}
use tgproxy.Curl.Once.{count, count-append, reported_calls}
use tgproxy.Curl.Once.Counted.{Counted, Single, run_calls-Counted}
use tgproxy.Hub.{EventHub, Dispatch, register_event}
use tgproxy.Hub.Once.{reported_loop}
use tgproxy.Hub.Registered.{add-taken, present-append_end}
use tgproxy.Postman.{Event, Postman}
use tgproxy.Postman.Transfer.{ms_reply_callback}
use tgproxy.Postman.Wired.{Adding, register_slices, ObeysSlices}
use tgproxy.Postman.Wired.Slices.{
  handle_of, made, register_slice, create_slice, length-taken, second,
}

unfoldable pub reported_slices : List (Event × Adding) → List ℕ
unfolding reported_calls
reported_slices [] = []
reported_slices (eg ∷ es) = reported_calls eg.1.calls ++ reported_slices es

-- The handles whose callbacks a run makes, in order.
unfoldable pub reported_in : List (Event × Adding) → List Dispatch → List ℕ
unfolding reported_slices reported_loop
reported_in es ds = reported_slices es ++ reported_loop ds

abbrev pub one_below : ℕ → ℕ → ℕ
one_below n h = if ltb h n then 1 else 0

-- Of the handles below `k`, those that were not reported in `pre` are still libcurl's.
abbrev pub Upto : ℕ → List ℕ → MultiCurl Postman → Type 0
Upto k pre m = ((h : ℕ) → count h pre + count h m.added ≡ one_below k h) × (length m.handles ≡ k)

one_below-suc : (k h : ℕ) → one_below (suc k) h ≡ one_below k h + (if k == h then 1 else 0)
one_below-suc k h = ground arith

pub one_below_self : (k : ℕ) → one_below k k ≡ 0
one_below_self k = ground arith

pub one_below-le : (k h : ℕ) → one_below k h ≤ 1
one_below-le k h = ground arith

-- A slice is registered.
added-Upto :
    (e : Event) (calls : Calls) (hub : EventHub Postman) (k : ℕ) (pre : List ℕ)
    → Upto k pre hub.multi
    → ObeysCalls calls (taken k true (handle_of e) (made e hub.multi))
    → OnEnd (Upto (suc k) (pre ++ reported_calls calls)) (add k true calls (made e hub.multi))
added-Upto e calls hub k pre u o =
    let m1 = made e hub.multi in
    let x = handle_of e in
    let there : handle_at m1 k ≡ some x =
      subst (λ h. handle_at m1 h ≡ some x) u.1 (present-append_end hub.multi.handles x) in
    let single : Single (taken k true x m1) = λ h. grind (arith, u.0 h, u.0 k) in
    rw (add-taken m1 k true x calls there) (
      OnEnd-imp (Counted (taken k true x m1) (reported_calls calls))
        (Upto (suc k) (pre ++ reported_calls calls)) (run_calls calls (taken k true x m1))
        (λ m2 c. (
          (λ h.
              grind (
                arith,
                u.0 h,
                c.0 h,
                one_below-suc k h,
                count-append h pre (reported_calls calls),
              )),
          c.1 ∙ length-taken e hub.multi k x ∙ ap suc u.1,
        ))
        (run_calls-Counted calls (taken k true x m1) single o))

with_hub-OnEnd :
    (P : MultiCurl Postman → Type 0) (r : Run (MultiCurl Postman)) (h : ℕ) (hub : EventHub Postman)
    → OnEnd P r
    → OnEnd (λ a. P (second a)) (r >>= λ m. done (h, record hub { multi = m }))
with_hub-OnEnd P (done m) h hub p = p
with_hub-OnEnd P abort h hub p = tt

registered-Upto :
    (e : Event) (ok : Bool) (calls : Calls) (hub : EventHub Postman) (k : ℕ) (pre : List ℕ)
    → Upto k pre hub.multi
    → ok ≡ true
    → OnEnd
        (λ r.
          (x : CurlHandle Postman)
          → handle_at r.1 r.0 ≡ some x
          → ObeysCalls calls (taken r.0 true x r.1))
        (create e.url
          (callback_of ms_reply_callback)
          false
          (pos e.timeout_ms)
          (some e.body)
          (pos (length e.body))
          []
          hub.multi)
    → OnEnd
        (λ r. Upto (suc k) (pre ++ reported_calls calls) (second r))
        (register_event e.url
          (callback_of ms_reply_callback)
          (pos e.timeout_ms)
          (some e.body)
          (pos (length e.body))
          []
          ok
          calls
          hub)
registered-Upto e ok calls hub k pre u p o =
    let x = handle_of e in
    let m1 = made e hub.multi in
    let obeys =
      subst
        (λ r.
          OnEnd
            (λ r.
              (x : CurlHandle Postman)
              → handle_at r.1 r.0 ≡ some x
              → ObeysCalls calls (taken r.0 true x r.1))
            r)
        (create_slice e hub.multi) o in
    let obeyed : ObeysCalls calls (taken k true x m1) =
      subst (λ h. ObeysCalls calls (taken h true x m1)) u.1
        (obeys x (present-append_end hub.multi.handles x)) in
    rw (p, register_slice e true calls hub)
      (with_hub-OnEnd (Upto (suc k) (pre ++ reported_calls calls))
        (add (length hub.multi.handles) true calls m1) (length hub.multi.handles) hub
        (subst (λ h. OnEnd (Upto (suc k) (pre ++ reported_calls calls)) (add h true calls m1))
          (sym u.1) (added-Upto e calls hub k pre u obeyed)))

pub slices-Upto :
    (es : List (Event × Adding)) (hub : EventHub Postman) (k n : ℕ) (pre : List ℕ)
    → k + length es ≡ n
    → Upto k pre hub.multi
    → ObeysSlices es hub
    → OnEnd (λ hub'. Upto n (pre ++ reported_slices es) hub'.multi) (register_slices es hub)
unfolding register_slices ObeysSlices reported_slices
slices-Upto [] hub k n pre e u o = let e' : k ≡ n = omega arith in rw (append-nil pre, ← e') u
slices-Upto ((v, g) ∷ es) hub k n pre e u o =
    let r =
      register_event v.url (callback_of ms_reply_callback) (pos v.timeout_ms) (some v.body)
        (pos (length v.body)) [] g.is_added g.calls hub in
    let mid = pre ++ reported_calls g.calls in
    let step = registered-Upto v g.is_added g.calls hub k pre u o.0 o.1 in
    OnEnd-bind (λ hub'. Upto n (pre ++ (reported_calls g.calls ++ reported_slices es)) hub'.multi) r
      (λ a. register_slices es a.1)
      (λ a d.
        subst (λ l. OnEnd (λ hub'. Upto n l hub'.multi) (register_slices es a.1))
          (append_assoc pre (reported_calls g.calls) (reported_slices es))
          (slices-Upto es a.1 (suc k) n mid (omega arith)
            (subst (λ r. OnEnd (λ a. Upto (suc k) mid (second a)) r) d step)
            (subst (λ r. OnEnd (λ a. ObeysSlices es a.1) r) d o.2)))
