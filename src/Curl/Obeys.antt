-- ===== src/Curl/Obeys.antt =====
-- What libcurl promises of its calls: it writes to handles that were added, reports those as done, and
-- removes sockets that it announced. It says nothing of what happens behind an exception.
use tgproxy.Common.{
  ℕ, zero, suc, ◌≡◌, Bool, true, false, Option, none, some, one_of, ◌==◌, if◌then◌else◌, OnEnd,
}
use tgproxy.Curl.{
  CurlSocket, curl_poll_remove, socket_at, Calls, silent, wrote, headed, polled, timed, Activity,
  acted, Messages, no_more, finished, noted, without, MultiCurl,
}
use tgproxy.Curl.Handles.{curl_write_cb, header_cb, curl_sock_handler, complete}
use tgproxy.Curl.Handlers.{run_calls, curl_timer_handler}

abbrev pub is_known : Option CurlSocket → Bool
is_known none = false
is_known (some sk) = true

module _ {S : Type 0} where
  abbrev pub polls : ℕ → ℕ → ℕ → MultiCurl S → Bool
  polls e s what m =
      if what == curl_poll_remove then is_known (socket_at s m.sockets) else one_of m.added e

  unfoldable mutual
    pub ObeysCalls : Calls → MultiCurl S → Type 0
    ObeysCalls silent m = Unit
    ObeysCalls (wrote h chunk k) m =
        (one_of m.added h ≡ true) × OnEnd (λ m'. ObeysCalls k m') (curl_write_cb h chunk m)
    ObeysCalls (headed h line k) m =
        (one_of m.added h ≡ true) × OnEnd (λ m'. ObeysCalls k m') (header_cb h line m)
    ObeysCalls (polled e s what k) m =
        (polls e s what m ≡ true) × OnEnd (λ m'. ObeysCalls k m') (curl_sock_handler e s what m)
    ObeysCalls (timed timeout_ms a k) m =
        ObeysTimer timeout_ms a m
        × OnEnd (λ m'. ObeysCalls k m') (curl_timer_handler timeout_ms a m)

    pub ObeysTimer : Option ℕ → Activity → MultiCurl S → Type 0
    ObeysTimer none (acted c ok r msgs) m = Unit
    ObeysTimer (some zero) (acted c ok r msgs) m =
        ObeysCalls c m
        × OnEnd (λ m'. ok ≡ true → ObeysMessages msgs (record m' { still_running = r }))
            (run_calls c m)
    ObeysTimer (some (suc n)) (acted c ok r msgs) m = Unit

    pub ObeysMessages : Messages → MultiCurl S → Type 0
    ObeysMessages no_more m = Unit
    ObeysMessages (noted msgs) m = ObeysMessages msgs m
    ObeysMessages (finished h res code c msgs) m =
        let m0 : MultiCurl S = record m { added = without h m.added } in
        (one_of m.added h ≡ true)
        × ObeysCalls c m0
        × OnEnd (λ m1. OnEnd (λ m2. ObeysMessages msgs m2) (complete h res code m1))
            (run_calls c m0)

  -- What it promises of a call of `curl_multi_socket_action`.
  unfoldable pub Obeys : Activity → MultiCurl S → Type 0
  unfolding ObeysCalls
  Obeys a m = ObeysTimer (some 0) a m
