-- ===== src/Curl/Recycled.antt =====
-- tiangan/curl_helper.h: what becomes of a handle, and of one that is recycled.
use native.Mathlib.Decide.{ℕ_discrete}
use tgproxy.Common.{
  Text, if◌then◌else◌, ℕ, zero, suc, ◌≡◌, ◌⊎◌, inl, inr, refl, sym, ap, ◌∙◌, subst, Bool-cases,
  Bool, true, false, Option, none, some, set, Run, done, abort, ◌>>=◌, OnEnd, OnEnd-imp,
  Option-cases, arith,
}
use tgproxy.Common.Int.{ℤ}
use tgproxy.Curl.{
  Calls, silent, wrote, headed, polled, timed, Activity, acted, Messages, no_more, finished, noted,
  without, CurlHandle, MultiCurl,
}
use tgproxy.Curl.Handles.{
  handle_at, with_handle, curl_write_cb, header_cb, curl_sock_handler, call_back, complete,
}
use tgproxy.Curl.Handlers.{
  if_alive, behind, run_calls, curl_timer_handler, check_multi_info, ev_timer_handler,
}
use tgproxy.Curl.Linked.{present-set_self, handle_at-with_handle_ne}

module _ {S : Type 0} where
  -- Only what the response brought may differ.
  abbrev pub Same : CurlHandle S → CurlHandle S → Type 0
  Same x y = y ≡ record x {
    fields = record x.fields { recv_data = y.fields.recv_data; rheaders = y.fields.rheaders };
  }

  -- A handle stays, or is deleted unless it is recycled; one that is deleted stays so.
  abbrev pub Lives : Option (CurlHandle S) → Option (CurlHandle S) → Type 0
  Lives none y = y ≡ none
  Lives (some x) y =
      ((x' : CurlHandle S) × (y ≡ some x') × Same x x') ⊎ ((x.fields.recycled ≡ false) × (y ≡ none))

  abbrev pub Persists : MultiCurl S → MultiCurl S → Type 0
  Persists m m' = (h : ℕ) → Lives (handle_at m h) (handle_at m' h)

  pub Lives-refl : (o : Option (CurlHandle S)) → Lives o o
  Lives-refl none = refl
  Lives-refl (some x) = inl (x, refl, refl)

  Same-trans : (x y z : CurlHandle S) → Same x y → Same y z → Same x z
  Same-trans x y z p q =
      q
      ∙ ap
          (λ (y : CurlHandle S). record y {
            fields = record y.fields {
              recv_data = z.fields.recv_data;
              rheaders = z.fields.rheaders;
            };
          })
          p

  Lives-trans : (a b c : Option (CurlHandle S)) → Lives a b → Lives b c → Lives a c
  Lives-trans none b c e l = subst (λ b. Lives b c) e l
  Lives-trans (some x) b c (inr (r, e)) l = inr (r, subst (λ b. Lives b c) e l)
  Lives-trans (some x) b c (inl (y, e, s)) l = elim (subst (λ b. Lives b c) e l) [
    | inl (z, f, t) ↦ inl (z, f, Same-trans x y z s t)
    | inr (r, f) ↦ inr (sym (ap (λ (y : CurlHandle S). y.fields.recycled) s) ∙ r, f)
  ]

  pub Persists-bind :
      (m : MultiCurl S) (r : Run (MultiCurl S)) (k : MultiCurl S → Run (MultiCurl S))
      → OnEnd (Persists m) r
      → ((m1 : MultiCurl S) → OnEnd (Persists m1) (k m1))
      → OnEnd (Persists m) (r >>= k)
  Persists-bind m abort k p n = tt
  Persists-bind m (done m1) k p n =
      OnEnd-imp (Persists m1) (Persists m) (k m1)
        (λ m2 q h. Lives-trans (handle_at m h) (handle_at m1 h) (handle_at m2 h) (p h) (q h)) (n m1)

  changed-Persists :
      (m : MultiCurl S) (h : ℕ) (x : CurlHandle S) (y : Option (CurlHandle S))
      → handle_at m h ≡ some x
      → Lives (some x) y
      → Persists m (with_handle m h y)
  changed-Persists m h x y e l k = elim (ℕ_discrete h k) [
    | yes p ↦
        let now = present-set_self m.handles h x y e in
        subst (λ k. Lives (handle_at m k) (handle_at (with_handle m h y) k)) p (rw (e, now) l)
    | no d ↦ rw (handle_at-with_handle_ne m h k y d) (Lives-refl (handle_at m k))
  ]

  curl_write_cb-Persists :
      (h : ℕ) (chunk : Text) (m : MultiCurl S) → OnEnd (Persists m) (curl_write_cb h chunk m)
  unfolding curl_write_cb
  curl_write_cb-Persists h chunk m = elim (Option-cases (handle_at m h)) [
    | inr (x, e) ↦ rw (e, curl_write_cb) (changed-Persists m h x _ e (inl (_, refl, refl)))
    | inl e ↦ rw (e, curl_write_cb) tt
  ]

  header_cb-Persists :
      (h : ℕ) (line : Text) (m : MultiCurl S) → OnEnd (Persists m) (header_cb h line m)
  unfolding header_cb
  header_cb-Persists h line m = elim (Option-cases (handle_at m h)) [
    | inr (x, e) ↦ rw (e, header_cb) (changed-Persists m h x _ e (inl (_, refl, refl)))
    | inl e ↦ rw (e, header_cb) tt
  ]

  Unchanged-Persists :
      (m : MultiCurl S) (r : Run (MultiCurl S))
      → OnEnd (λ m'. m'.handles ≡ m.handles) r
      → OnEnd (Persists m) r
  Unchanged-Persists m r =
      OnEnd-imp (λ (m' : MultiCurl S). m'.handles ≡ m.handles) (Persists m) r
        (λ m' e h. rw e (Lives-refl (handle_at m h)))

  curl_sock_handler-handles :
      (e s what : ℕ) (m : MultiCurl S)
      → OnEnd (λ m'. m'.handles ≡ m.handles) (curl_sock_handler e s what m)
  unfolding curl_sock_handler
  curl_sock_handler-handles e s what m = ground arith

  completed-Persists :
      (h : ℕ) (x : CurlHandle S) (m : MultiCurl S) (r : Run S)
      → handle_at m h ≡ some x
      → OnEnd (Persists m) (
          r >>= λ s. done (record m {
            client = s;
            handles = if x.fields.recycled then m.handles else set m.handles h none;
          }))
  completed-Persists h x m abort e = tt
  completed-Persists h x m (done s) e = elim (Bool-cases x.fields.recycled) [
    | inl t ↦ rw t (λ k. Lives-refl (handle_at m k))
    | inr t ↦ rw t (changed-Persists m h x none e (inr (t, refl)))
  ]

  complete-Persists :
      (h res code : ℕ) (m : MultiCurl S) → OnEnd (Persists m) (complete h res code m)
  unfolding complete
  complete-Persists h res code m = elim (Option-cases (handle_at m h)) [
    | inr (x, e) ↦
        rw (e, complete) (completed-Persists h x m (call_back x.cb res code x.fields m.client) e)
    | inl e ↦ rw (e, complete) tt
  ]

  behind-Persists :
      (ok : Bool) (running : ℤ) (check : MultiCurl S → Run (MultiCurl S)) (m : MultiCurl S)
      → ((m1 : MultiCurl S) → OnEnd (Persists m1) (check m1))
      → OnEnd (Persists m) (behind ok running check m)
  behind-Persists true running check m p = p (record m { still_running = running })
  behind-Persists false running check m p = λ h. Lives-refl (handle_at m h)

  if_alive-Persists :
      (m : MultiCurl S) (o : Option (CurlHandle S)) (r : Run (MultiCurl S))
      → OnEnd (Persists m) r
      → OnEnd (Persists m) (if_alive o r)
  if_alive-Persists m none r p = tt
  if_alive-Persists m (some x) r p = p

  mutual
    unfolding run_calls

    run_calls-Persists : (c : Calls) (m : MultiCurl S) → OnEnd (Persists m) (run_calls c m)
    run_calls-Persists silent m = λ h. Lives-refl (handle_at m h)
    run_calls-Persists (wrote h chunk k) m =
        Persists-bind m (curl_write_cb h chunk m) (λ m'. run_calls k m')
          (curl_write_cb-Persists h chunk m) (λ m1. run_calls-Persists k m1)
    run_calls-Persists (headed h line k) m =
        Persists-bind m (header_cb h line m) (λ m'. run_calls k m') (header_cb-Persists h line m)
          (λ m1. run_calls-Persists k m1)
    run_calls-Persists (polled e t what k) m =
        Persists-bind m (curl_sock_handler e t what m) (λ m'. run_calls k m')
          (Unchanged-Persists m (curl_sock_handler e t what m)
            (curl_sock_handler-handles e t what m))
          (λ m1. run_calls-Persists k m1)
    run_calls-Persists (timed timeout_ms a k) m =
        Persists-bind m (curl_timer_handler timeout_ms a m) (λ m'. run_calls k m')
          (curl_timer_handler-Persists timeout_ms a m) (λ m1. run_calls-Persists k m1)

    curl_timer_handler-Persists :
        (timeout_ms : Option ℕ) (a : Activity) (m : MultiCurl S)
        → OnEnd (Persists m) (curl_timer_handler timeout_ms a m)
    curl_timer_handler-Persists none (acted c ok r msgs) m = λ h. Lives-refl (handle_at m h)
    curl_timer_handler-Persists (some (suc n)) (acted c ok r msgs) m =
        λ h. Lives-refl (handle_at m h)
    curl_timer_handler-Persists (some zero) (acted c ok r msgs) m =
        Persists-bind m (run_calls c m) (behind ok r (λ m'. check_multi_info msgs m'))
          (run_calls-Persists c m)
          (λ m1.
            behind-Persists ok r (λ m'. check_multi_info msgs m') m1
              (λ m2. check_multi_info-Persists msgs m2))

    check_multi_info-Persists :
        (msgs : Messages) (m : MultiCurl S) → OnEnd (Persists m) (check_multi_info msgs m)
    check_multi_info-Persists no_more m = λ h. Lives-refl (handle_at m h)
    check_multi_info-Persists (noted msgs) m = check_multi_info-Persists msgs m
    check_multi_info-Persists (finished h res code c msgs) m =
        let m0 : MultiCurl S = record m { added = without h m.added } in
        let r =
          run_calls c m0 >>= λ m1. complete h res code m1 >>= λ m2. check_multi_info msgs m2 in
        if_alive-Persists m (handle_at m h) r (
          Persists-bind m0 (run_calls c m0)
            (λ m1. complete h res code m1 >>= λ m2. check_multi_info msgs m2)
            (run_calls-Persists c m0)
            (λ m1.
              Persists-bind m1 (complete h res code m1) (λ m2. check_multi_info msgs m2)
                (complete-Persists h res code m1) (λ m2. check_multi_info-Persists msgs m2)))

  pub ev_timer_handler-Persists :
      (a : Activity) (m : MultiCurl S) → OnEnd (Persists m) (ev_timer_handler a m)
  unfolding ev_timer_handler
  ev_timer_handler-Persists (acted c ok r msgs) m =
      curl_timer_handler-Persists (some 0) (acted c ok r msgs) m
