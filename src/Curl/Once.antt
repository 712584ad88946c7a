-- ===== src/Curl/Once.antt =====
-- How often a trace reports a handle as done.
pub mod Counted
use tgproxy.Common.{
  ℕ, zero, suc, ◌+◌, ◌≤◌, ◌≡◌, refl, sym, ap, ◌∙◌, true, false, List, [], ◌∷◌, ◌++◌, Option, none,
  some, Text, one_of, length, length-set, ◌==◌, if◌then◌else◌, Run, done, abort, ◌>>=◌, OnEnd,
  OnEnd-imp, Bool-cases, inl, inr, arith,
}
use tgproxy.Curl.{
  Calls, silent, wrote, headed, polled, timed, Activity, acted, Messages, no_more, finished, noted,
  CurlHandle, MultiCurl, without,
}
use tgproxy.Curl.Handles.{handle_at, curl_write_cb, header_cb, curl_sock_handler, complete}
use tgproxy.Curl.Handlers.{
  run_calls, curl_timer_handler, check_multi_info, if_alive, ev_timer_handler,
}
use tgproxy.Curl.Obeys.{ObeysCalls, ObeysTimer, ObeysMessages, Obeys}

abbrev pub count : ℕ → List ℕ → ℕ
count h [] = 0
count h (k ∷ ks) = (if k == h then 1 else 0) + count h ks

pub count-append : (h : ℕ) (xs ys : List ℕ) → count h (xs ++ ys) ≡ count h xs + count h ys
count-append h [] ys = omega arith
count-append h (x ∷ xs) ys = omega (arith, count-append h xs ys)

pub count-without_self : (h : ℕ) (ks : List ℕ) → count h (without h ks) ≡ 0
count-without_self h [] = refl
count-without_self h (k ∷ ks) = ground (arith, count-without_self h ks)

pub count-without_ne :
    (h k : ℕ) (ks : List ℕ) → (k == h) ≡ false → count h (without k ks) ≡ count h ks
count-without_ne h k [] d = refl
count-without_ne h k (j ∷ ks) d = ground (arith, count-without_ne h k ks d)

pub count-one_of : (h : ℕ) (ks : List ℕ) → one_of ks h ≡ true → 1 ≤ count h ks
count-one_of h [] e = ground arith
count-one_of h (k ∷ ks) e = ground (arith, count-one_of h ks)

pub count_moved : (k h : ℕ) (xs ys : List ℕ) → count k (xs ++ h ∷ ys) ≡ count k (h ∷ (xs ++ ys))
count_moved k h xs ys = ground (arith, count-append k xs (h ∷ ys), count-append k xs ys)

-- The handles that a trace reports as done, in order.
unfoldable mutual
  pub reported_calls : Calls → List ℕ
  reported_calls silent = []
  reported_calls (wrote h chunk k) = reported_calls k
  reported_calls (headed h line k) = reported_calls k
  reported_calls (polled e s what k) = reported_calls k
  reported_calls (timed timeout_ms a k) = reported_timer timeout_ms a ++ reported_calls k

  pub reported_timer : Option ℕ → Activity → List ℕ
  reported_timer none (acted c ok r msgs) = []
  reported_timer (some zero) (acted c ok r msgs) =
      reported_calls c ++ elim ok [ true ↦ reported_messages msgs | false ↦ [] ]
  reported_timer (some (suc n)) (acted c ok r msgs) = []

  pub reported_messages : Messages → List ℕ
  reported_messages no_more = []
  reported_messages (noted msgs) = reported_messages msgs
  reported_messages (finished h res code c msgs) = reported_calls c ++ h ∷ reported_messages msgs

-- Of a call of `curl_multi_socket_action`.
unfoldable pub reported : Activity → List ℕ
unfolding reported_calls
reported a = reported_timer (some 0) a
