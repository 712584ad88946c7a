-- ===== src/Curl/Once/Counted.antt =====
-- The handles that were added are those that still are and those that were reported, each once.
use tgproxy.Common.{
  ℕ, zero, suc, ◌+◌, ◌≤◌, ◌≡◌, refl, sym, ap, ◌∙◌, true, false, List, [], ◌∷◌, ◌++◌, Option, none,
  some, Text, one_of, length, length-set, ◌==◌, Run, done, abort, ◌>>=◌, OnEnd, OnEnd-imp,
  Bool-cases, inl, inr, arith,
}
use tgproxy.Curl.{
  Calls, silent, wrote, headed, polled, timed, Activity, acted, Messages, no_more, finished, noted,
  CurlHandle, MultiCurl, without,
}
use tgproxy.Curl.Handles.{handle_at, curl_write_cb, header_cb, curl_sock_handler, complete}
use tgproxy.Curl.Handlers.{
  run_calls, curl_timer_handler, check_multi_info, if_alive, ev_timer_handler,
}
use tgproxy.Curl.Obeys.{ObeysCalls, ObeysTimer, ObeysMessages, Obeys}
use tgproxy.Curl.Once.{
  count, count-append, count-without_self, count-without_ne, count-one_of, count_moved,
  reported_calls, reported_timer, reported_messages, reported,
}

module _ {S : Type 0} where
  abbrev Same : MultiCurl S → MultiCurl S → Type 0
  Same m m' = (m'.added ≡ m.added) × (length m'.handles ≡ length m.handles)

  curl_write_cb-Same :
      (h : ℕ) (chunk : Text) (m : MultiCurl S) → OnEnd (Same m) (curl_write_cb h chunk m)
  unfolding curl_write_cb
  curl_write_cb-Same h chunk m = grind (arith, length-set)

  header_cb-Same : (h : ℕ) (line : Text) (m : MultiCurl S) → OnEnd (Same m) (header_cb h line m)
  unfolding header_cb
  header_cb-Same h line m = grind (arith, length-set)

  curl_sock_handler-Same :
      (e s what : ℕ) (m : MultiCurl S) → OnEnd (Same m) (curl_sock_handler e s what m)
  unfolding curl_sock_handler
  curl_sock_handler-Same e s what m = ground arith

  complete-Same : (h res code : ℕ) (m : MultiCurl S) → OnEnd (Same m) (complete h res code m)
  unfolding complete
  complete-Same h res code m = grind (arith, length-set)

  abbrev pub Counted : MultiCurl S → List ℕ → MultiCurl S → Type 0
  Counted m ks m' =
      ((h : ℕ) → count h ks + count h m'.added ≡ count h m.added)
      × (length m'.handles ≡ length m.handles)

  abbrev pub Single : MultiCurl S → Type 0
  Single m = (h : ℕ) → count h m.added ≤ 1

  Counted-Single : (m m' : MultiCurl S) (ks : List ℕ) → Counted m ks m' → Single m → Single m'
  Counted-Single m m' ks c s h = omega (arith, c.0 h, s h)

  Same-Counted :
      (m : MultiCurl S) (r : Run (MultiCurl S)) → OnEnd (Same m) r → OnEnd (Counted m []) r
  Same-Counted m r =
      OnEnd-imp (Same m) (Counted m []) r (λ m' e. ((λ h. omega (arith, ap (count h) e.0)), e.1))

  pub Counted-bind :
      (m : MultiCurl S) (r : Run (MultiCurl S)) (k : MultiCurl S → Run (MultiCurl S))
      (xs ys : List ℕ) (Q : MultiCurl S → Type 0)
      → Single m
      → OnEnd Q r
      → OnEnd (Counted m xs) r
      → ((m1 : MultiCurl S) → Q m1 → Single m1 → OnEnd (Counted m1 ys) (k m1))
      → OnEnd (Counted m (xs ++ ys)) (r >>= k)
  Counted-bind m abort k xs ys Q s q c n = tt
  Counted-bind m (done m1) k xs ys Q s q c n =
      OnEnd-imp (Counted m1 ys) (Counted m (xs ++ ys)) (k m1)
        (λ m2 d. ((λ h. omega (arith, c.0 h, d.0 h, count-append h xs ys)), d.1 ∙ c.1))
        (n m1 q (Counted-Single m m1 xs c s))

  -- A handle of a round is counted once.
  Counted-finished :
      (m : MultiCurl S) (h : ℕ) (ks : List ℕ) (r : Run (MultiCurl S))
      → Single m
      → one_of m.added h ≡ true
      → OnEnd (Counted (record m { added = without h m.added }) ks) r
      → (us : List ℕ) → ((k : ℕ) → count k us ≡ count k (h ∷ ks))
      → OnEnd (Counted m us) r
  Counted-finished m h ks r s a c us e =
      OnEnd-imp (Counted (record m { added = without h m.added }) ks) (Counted m us) r
        (λ m' d. ((λ k. finished_count m' d k), d.1)) c
    where
      finished_count :
          (m' : MultiCurl S)
          → Counted (record m { added = without h m.added }) ks m'
          → (k : ℕ) → count k us + count k m'.added ≡ count k m.added
      finished_count m' d k = elim (Bool-cases (h == k)) [
        | inl t ↦
            let same : h ≡ k = ground (arith, t) in
            ground (
              arith,
              d.0 k,
              e k,
              t,
              s h,
              count-one_of h m.added a,
              count-without_self h m.added,
              same,
            )
        | inr t ↦ ground (arith, d.0 k, e k, t, count-without_ne k h m.added t)
      ]

  OnEnd-unit : (r : Run (MultiCurl S)) → OnEnd (λ m. Unit) r
  OnEnd-unit (done m) = tt
  OnEnd-unit abort = tt

  Single-without :
      (m : MultiCurl S) (h : ℕ) → Single m → Single (record m { added = without h m.added })
  Single-without m h s k = elim (Bool-cases (h == k)) [
    | inl t ↦
        let same : h ≡ k = ground (arith, t) in
        let none_left : count k (without h m.added) ≡ 0 =
          ap (λ j. count j (without h m.added)) (sym same) ∙ count-without_self h m.added in
        omega (arith, none_left)
    | inr t ↦ omega (arith, count-without_ne k h m.added t, s k)
  ]

  if_alive-OnEnd :
      (P : MultiCurl S → Type 0) (o : Option (CurlHandle S)) (r : Run (MultiCurl S))
      → OnEnd P r
      → OnEnd P (if_alive o r)
  if_alive-OnEnd P none r p = tt
  if_alive-OnEnd P (some x) r p = p

  mutual
    unfolding run_calls reported_calls ObeysCalls

    pub run_calls-Counted :
        (c : Calls) (m : MultiCurl S)
        → Single m
        → ObeysCalls c m
        → OnEnd (Counted m (reported_calls c)) (run_calls c m)
    run_calls-Counted silent m s o = ((λ h. omega arith), refl)
    run_calls-Counted (wrote h chunk k) m s o =
        Counted-bind m (curl_write_cb h chunk m) (λ m'. run_calls k m') [] (reported_calls k)
          (λ m'. ObeysCalls k m') s o.1
          (Same-Counted m (curl_write_cb h chunk m) (curl_write_cb-Same h chunk m))
          (λ m1 q s1. run_calls-Counted k m1 s1 q)
    run_calls-Counted (headed h line k) m s o =
        Counted-bind m (header_cb h line m) (λ m'. run_calls k m') [] (reported_calls k)
          (λ m'. ObeysCalls k m') s o.1
          (Same-Counted m (header_cb h line m) (header_cb-Same h line m))
          (λ m1 q s1. run_calls-Counted k m1 s1 q)
    run_calls-Counted (polled e t what k) m s o =
        Counted-bind m (curl_sock_handler e t what m) (λ m'. run_calls k m') [] (reported_calls k)
          (λ m'. ObeysCalls k m') s o.1
          (Same-Counted m (curl_sock_handler e t what m) (curl_sock_handler-Same e t what m))
          (λ m1 q s1. run_calls-Counted k m1 s1 q)
    run_calls-Counted (timed timeout_ms a k) m s o =
        Counted-bind m (curl_timer_handler timeout_ms a m) (λ m'. run_calls k m')
          (reported_timer timeout_ms a) (reported_calls k) (λ m'. ObeysCalls k m') s o.1
          (curl_timer_handler-Counted timeout_ms a m s o.0) (λ m1 q s1. run_calls-Counted k m1 s1 q)

    curl_timer_handler-Counted :
        (timeout_ms : Option ℕ) (a : Activity) (m : MultiCurl S)
        → Single m
        → ObeysTimer timeout_ms a m
        → OnEnd (Counted m (reported_timer timeout_ms a)) (curl_timer_handler timeout_ms a m)
    curl_timer_handler-Counted none (acted c ok r msgs) m s o = ((λ h. omega arith), refl)
    curl_timer_handler-Counted (some (suc n)) (acted c ok r msgs) m s o = ((λ h. omega arith), refl)
    curl_timer_handler-Counted (some zero) (acted c true r msgs) m s o =
        Counted-bind m (run_calls c m)
          (λ m'. check_multi_info msgs (record m' { still_running = r })) (reported_calls c)
          (reported_messages msgs)
          (λ m'. true ≡ true → ObeysMessages msgs (record m' { still_running = r })) s o.1
          (run_calls-Counted c m s o.0)
          (λ m1 q s1. check_multi_info-Counted msgs (record m1 { still_running = r }) s1 (q refl))
    curl_timer_handler-Counted (some zero) (acted c false r msgs) m s o =
        Counted-bind m (run_calls c m) (λ m'. done (record m' { still_running = r }))
          (reported_calls c) [] (λ m'. Unit) s (OnEnd-unit (run_calls c m))
          (run_calls-Counted c m s o.0) (λ m1 q s1. ((λ h. omega arith), refl))

    check_multi_info-Counted :
        (msgs : Messages) (m : MultiCurl S)
        → Single m
        → ObeysMessages msgs m
        → OnEnd (Counted m (reported_messages msgs)) (check_multi_info msgs m)
    check_multi_info-Counted no_more m s o = ((λ h. omega arith), refl)
    check_multi_info-Counted (noted msgs) m s o = check_multi_info-Counted msgs m s o
    check_multi_info-Counted (finished h res code c msgs) m s o =
        let m0 : MultiCurl S = record m { added = without h m.added } in
        let s0 = Single-without m h s in
        let us = reported_calls c ++ h ∷ reported_messages msgs in
        let r =
          run_calls c m0 >>= λ m1. complete h res code m1 >>= λ m2. check_multi_info msgs m2 in
        if_alive-OnEnd (Counted m us) (handle_at m h) r (
          Counted-finished m h (reported_calls c ++ reported_messages msgs) r s o.0
            (Counted-bind m0 (run_calls c m0)
              (λ m1. complete h res code m1 >>= λ m2. check_multi_info msgs m2) (reported_calls c)
              (reported_messages msgs)
              (λ m1. OnEnd (λ m2. ObeysMessages msgs m2) (complete h res code m1)) s0 o.2
              (run_calls-Counted c m0 s0 o.1)
              (λ m1 q s1.
                Counted-bind m1 (complete h res code m1) (λ m2. check_multi_info msgs m2) []
                  (reported_messages msgs) (λ m2. ObeysMessages msgs m2) s1 q
                  (Same-Counted m1 (complete h res code m1) (complete-Same h res code m1))
                  (λ m2 q2 s2. check_multi_info-Counted msgs m2 s2 q2)))
            us (λ k. count_moved k h (reported_calls c) (reported_messages msgs)))

  pub ev_timer_handler-Counted :
      (a : Activity) (m : MultiCurl S)
      → Single m
      → Obeys a m
      → OnEnd (Counted m (reported a)) (ev_timer_handler a m)
  unfolding ev_timer_handler Obeys reported
  ev_timer_handler-Counted (acted c ok r msgs) m s o =
      curl_timer_handler-Counted (some 0) (acted c ok r msgs) m s o
