-- ===== src/Curl/Delivers.antt =====
-- A trace of libcurl's calls is what it delivers: the client's callbacks, one after the other.
use tgproxy.Common.{
  ap, ◌∙◌, ℕ, zero, suc, ◌≡◌, refl, true, false, List, [], ◌∷◌, ◌++◌, Option, none, some, Text,
  one_of, Run, ◌>>=◌, OnEnd, arith,
}
use tgproxy.Tiangan.{get_timeval}
use tgproxy.Curl.{
  Calls, silent, wrote, headed, polled, timed, Activity, acted, Messages, no_more, finished, noted,
  without, CurlHandle, MultiCurl,
}
use tgproxy.Curl.Handles.{handle_at, curl_write_cb, header_cb, curl_sock_handler, complete}
use tgproxy.Curl.Handlers.{if_alive, run_calls, curl_timer_handler, check_multi_info}
use tgproxy.Curl.Obeys.{ObeysCalls, ObeysTimer, ObeysMessages}
use tgproxy.Curl.Seen.{Bodies, appended, seen_calls, seen_timer, seen_messages}
use tgproxy.Curl.Linked.{Linked, Ends, Ends-bind}
use tgproxy.Curl.Rounds.{
  one_of-without, one_of-without_self, Ends-from, Ends-running, Within, curl_write_cb-Ends,
  header_cb-Ends, curl_sock_handler-Ends, Ends-aside,
}
use tgproxy.Curl.Complete.{Linked-without, completion, complete-Ends}
use tgproxy.Postman.Transfer.{Completion}

module _ {S : Type 0} where
  check_multi_info_at :
      (h res code : ℕ) (c : Calls) (msgs : Messages) (m : MultiCurl S) (x : CurlHandle S)
      → handle_at m h ≡ some x
      → check_multi_info (finished h res code c msgs) m ≡ (
          run_calls c (record m { added = without h m.added }) >>= λ m1.
          complete h res code m1 >>= λ m2. check_multi_info msgs m2)
  unfolding run_calls
  check_multi_info_at h res code c msgs m x e =
      ap
        (λ o. if_alive o (
          run_calls c (record m { added = without h m.added }) >>= λ m1.
          complete h res code m1 >>= λ m2. check_multi_info msgs m2))
        e

module _ {S : Type 0} (f : S → Completion → Run S) (url : ℕ → Text) where
  mutual
    unfolding run_calls seen_calls ObeysCalls

    pub run_calls-Ends :
        (c : Calls) (busy hs : List ℕ) (m : MultiCurl S) (b : Bodies)
        → Linked f url busy m b
        → Within hs m
        → ObeysCalls c m
        → Ends f url busy hs m (run_calls c m) (seen_calls url c b)
    run_calls-Ends silent busy hs m b l w o = Ends-aside f url busy hs m m b l w refl refl refl
    run_calls-Ends (wrote h chunk k) busy hs m b l w o =
        Ends-bind f url busy busy hs hs m (curl_write_cb h chunk m) (λ m'. run_calls k m')
          (appended b h chunk, []) (seen_calls url k (appended b h chunk)) (λ m'. ObeysCalls k m')
          (λ j e. e) o.1 (curl_write_cb-Ends f url busy hs m b h chunk l w o.0)
          (λ m1 q l' s. run_calls-Ends k busy hs m1 (appended b h chunk) l' s.fewer q)
    run_calls-Ends (headed h line k) busy hs m b l w o =
        Ends-bind f url busy busy hs hs m (header_cb h line m) (λ m'. run_calls k m') (b, [])
          (seen_calls url k b) (λ m'. ObeysCalls k m') (λ j e. e) o.1
          (header_cb-Ends f url busy hs m b h line l w o.0)
          (λ m1 q l' s. run_calls-Ends k busy hs m1 b l' s.fewer q)
    run_calls-Ends (polled e s what k) busy hs m b l w o =
        Ends-bind f url busy busy hs hs m (curl_sock_handler e s what m) (λ m'. run_calls k m')
          (b, []) (seen_calls url k b) (λ m'. ObeysCalls k m') (λ j e. e) o.1
          (curl_sock_handler-Ends f url busy hs m b e s what l w o.0)
          (λ m1 q l' s. run_calls-Ends k busy hs m1 b l' s.fewer q)
    run_calls-Ends (timed timeout_ms a k) busy hs m b l w o =
        let t = seen_timer url timeout_ms a b in
        Ends-bind f url busy busy hs hs m (curl_timer_handler timeout_ms a m) (λ m'. run_calls k m')
          t (seen_calls url k t.0) (λ m'. ObeysCalls k m') (λ j e. e) o.1
          (curl_timer_handler-Ends timeout_ms a busy hs m b l w o.0)
          (λ m1 q l' s. run_calls-Ends k busy hs m1 t.0 l' s.fewer q)

    pub curl_timer_handler-Ends :
        (timeout_ms : Option ℕ) (a : Activity) (busy hs : List ℕ) (m : MultiCurl S) (b : Bodies)
        → Linked f url busy m b
        → Within hs m
        → ObeysTimer timeout_ms a m
        → Ends f url busy hs m (curl_timer_handler timeout_ms a m) (seen_timer url timeout_ms a b)
    curl_timer_handler-Ends none (acted c ok r msgs) busy hs m b l w o =
        Ends-aside f url busy hs m (record m { ev_timer = none }) b l w refl refl refl
    curl_timer_handler-Ends (some (suc n)) (acted c ok r msgs) busy hs m b l w o =
        Ends-aside f url busy hs m (record m { ev_timer = some (get_timeval (suc n)) }) b l w refl
          refl refl
    curl_timer_handler-Ends (some zero) (acted c true r msgs) busy hs m b l w o =
        let t = seen_calls url c b in
        Ends-bind f url busy busy hs hs m (run_calls c m)
          (λ m'. check_multi_info msgs (record m' { still_running = r })) t
          (seen_messages url msgs t.0)
          (λ m'. true ≡ true → ObeysMessages msgs (record m' { still_running = r })) (λ j e. e) o.1
          (run_calls-Ends c busy hs m b l w o.0)
          (λ m1 q l' s.
            let m' : MultiCurl S = record m1 { still_running = r } in
            let aside = Ends-aside f url busy hs m1 m' t.0 l' s.fewer refl refl refl in
            Ends-from f url busy hs m1 m' (check_multi_info msgs m') (seen_messages url msgs t.0)
              refl refl (check_multi_info-Ends msgs busy hs m' t.0 aside.1 s.fewer (q refl)))
    curl_timer_handler-Ends (some zero) (acted c false r msgs) busy hs m b l w o =
        Ends-running f url busy hs m (run_calls c m) r (seen_calls url c b)
          (run_calls-Ends c busy hs m b l w o.0)

    check_multi_info-Ends :
        (msgs : Messages) (busy hs : List ℕ) (m : MultiCurl S) (b : Bodies)
        → Linked f url busy m b
        → Within hs m
        → ObeysMessages msgs m
        → Ends f url busy hs m (check_multi_info msgs m) (seen_messages url msgs b)
    check_multi_info-Ends no_more busy hs m b l w o =
        Ends-aside f url busy hs m m b l w refl refl refl
    check_multi_info-Ends (noted msgs) busy hs m b l w o =
        check_multi_info-Ends msgs busy hs m b l w o
    check_multi_info-Ends (finished h res code c msgs) busy hs m b l w o =
        let (x, e) = l.live h o.0 in
        let m0 : MultiCurl S = record m { added = without h m.added } in
        let t = seen_calls url c b in
        let r = seen_messages url msgs t.0 in
        rw (check_multi_info_at h res code c msgs m x e) (
          Ends-from f url busy hs m m0
            (run_calls c m0 >>= λ m1. complete h res code m1 >>= λ m2. check_multi_info msgs m2)
            (r.0, t.1 ++ completion f url h code t.0 ∷ r.1) refl refl
            (Ends-bind f url (h ∷ busy) busy m0.added hs m0 (run_calls c m0)
              (λ m1. complete h res code m1 >>= λ m2. check_multi_info msgs m2) t
              (r.0, completion f url h code t.0 ∷ r.1)
              (λ m1. OnEnd (λ m2. ObeysMessages msgs m2) (complete h res code m1))
              (λ k a. w k (one_of-without h k m.added a)) o.2
              (run_calls-Ends c (h ∷ busy) m0.added m0 b (Linked-without f url busy m b h l)
                (λ k a. a) o.1)
              (λ m1 q l1 s.
                let out = one_of-without_self h m.added in
                let stays : handle_at m1 h ≡ some x = s.same h out ∙ e in
                let gone : one_of m1.added h ≡ false = ground (arith, s.fewer h, out) in
                let inside : Within hs m1 = λ k a. w k (one_of-without h k m.added (s.fewer k a)) in
                Ends-bind f url busy busy hs hs m1 (complete h res code m1)
                  (λ m2. check_multi_info msgs m2) (t.0, completion f url h code t.0 ∷ []) r
                  (λ m2. ObeysMessages msgs m2) (λ k a. a) q
                  (complete-Ends f url busy hs m1 t.0 h res code x l1 inside stays gone (w h o.0))
                  (λ m2 q2 l2 s2. check_multi_info-Ends msgs busy hs m2 t.0 l2 s2.fewer q2))))
