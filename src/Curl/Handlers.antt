-- ===== src/Curl/Handlers.antt =====
-- tiangan/curl_helper.h: the handlers of `MultiCURL` that call libcurl, and what libcurl calls meanwhile.
use tgproxy.Common.{
  ℕ, zero, suc, set, Bool, true, false, ◌∷◌, Option, none, some, if◌then◌else◌, Run, done, abort,
  ◌>>=◌,
}
use tgproxy.Common.Int.{ℤ}
use tgproxy.Tiangan.{get_timeval}
use tgproxy.Curl.{
  action_of, Calls, silent, wrote, headed, polled, timed, Activity, acted, Messages, no_more,
  finished, noted, without, CurlHandle, MultiCurl,
}
use tgproxy.Curl.Handles.{handle_at, clear, curl_write_cb, header_cb, curl_sock_handler, complete}

module _ {S : Type 0} where
  -- The private pointer of a handle must not be one that was deleted.
  abbrev pub if_alive : Option (CurlHandle S) → Run (MultiCurl S) → Run (MultiCurl S)
  if_alive none r = abort
  if_alive (some x) r = r

  -- What follows a call of `curl_multi_socket_action`: `check_multi_info`, unless the call failed.
  abbrev pub behind : Bool → ℤ → (MultiCurl S → Run (MultiCurl S)) → MultiCurl S → Run (MultiCurl S)
  behind true running check m = check (record m { still_running = running })
  behind false running check m = done (record m { still_running = running })

  unfoldable mutual
    pub run_calls : Calls → MultiCurl S → Run (MultiCurl S)
    run_calls silent m = done m
    run_calls (wrote h chunk k) m = curl_write_cb h chunk m >>= λ m'. run_calls k m'
    run_calls (headed h line k) m = header_cb h line m >>= λ m'. run_calls k m'
    run_calls (polled e s what k) m = curl_sock_handler e s what m >>= λ m'. run_calls k m'
    run_calls (timed timeout_ms a k) m = curl_timer_handler timeout_ms a m >>= λ m'. run_calls k m'

    -- `curl_timer_handler(multi, timeout_ms, userp)`.
    pub curl_timer_handler : Option ℕ → Activity → MultiCurl S → Run (MultiCurl S)
    curl_timer_handler none (acted c ok r msgs) m = done (record m { ev_timer = none })
    curl_timer_handler (some zero) (acted c ok r msgs) m =
        run_calls c m >>= behind ok r (λ m'. check_multi_info msgs m')
    curl_timer_handler (some (suc n)) (acted c ok r msgs) m =
        done (record m { ev_timer = some (get_timeval (suc n)) })

    pub check_multi_info : Messages → MultiCurl S → Run (MultiCurl S)
    check_multi_info no_more m = done m
    check_multi_info (noted msgs) m = check_multi_info msgs m
    check_multi_info (finished h res code calls msgs) m = if_alive (handle_at m h) (
        run_calls calls (record m { added = without h m.added }) >>= λ m1.
        complete h res code m1 >>= λ m2. check_multi_info msgs m2)

  -- `ev_timer_handler(fd, kind, userp)`.
  unfoldable pub ev_timer_handler : Activity → MultiCurl S → Run (MultiCurl S)
  unfolding run_calls
  ev_timer_handler (acted calls ok running msgs) m =
      run_calls calls m >>= behind ok running (λ m'. check_multi_info msgs m')

  -- `ev_event_handler(fd, kind, userp)`, where libcurl does what `answer` says for a socket and an action.
  unfoldable pub ev_event_handler : (ℕ → ℕ → Activity) → ℕ → ℕ → MultiCurl S → Run (MultiCurl S)
  unfolding ev_timer_handler
  ev_event_handler answer fd kind m = ev_timer_handler (answer fd (action_of kind)) m

  -- The state of `add` behind `clear` and `curl_multi_add_handle`.
  abbrev pub taken : ℕ → Bool → CurlHandle S → MultiCurl S → MultiCurl S
  taken h ok x m = record m {
    handles = set m.handles h (some (clear x));
    added = if ok then h ∷ m.added else m.added;
  }

  -- `add(handle)`: whether `curl_multi_add_handle` is `CURLM_OK`, and the calls that it makes.
  unfoldable pub add : ℕ → Bool → Calls → MultiCurl S → Run (MultiCurl S)
  unfolding run_calls
  add h ok calls m = elim (handle_at m h) [
    | none ↦ abort
    | some x ↦ run_calls calls (taken h ok x m)
  ]
