-- ===== src/Curl/Reported.antt =====
-- The completions of a trace are those of the handles that it reports.
use mathlib.Core.List.{map-append}
use tgproxy.Common.{
  ℕ, zero, suc, ◌≡◌, refl, ap, true, false, List, ◌∷◌, ◌++◌, append-nil, map, Option, none, some,
  Text,
}
use tgproxy.Curl.{
  Calls, silent, wrote, headed, polled, timed, Activity, acted, Messages, no_more, finished, noted,
}
use tgproxy.Curl.Seen.{Bodies, appended, seen_calls, seen_timer, seen_messages, seen}
use tgproxy.Curl.Once.{reported_calls, reported_timer, reported_messages, reported}
use tgproxy.Postman.Transfer.{Completion}

abbrev pub completed_url : Completion → Text
completed_url c = c.url

module _ (url : ℕ → Text) where
  abbrev pub Parallel : List Completion → List ℕ → Type 0
  Parallel cs hs = map completed_url cs ≡ map url hs

  pub Parallel-append :
      (cs ds : List Completion) (hs ks : List ℕ)
      → Parallel cs hs
      → Parallel ds ks
      → Parallel (cs ++ ds) (hs ++ ks)
  Parallel-append cs ds hs ks p q =
      rw (map-append completed_url cs ds, map-append url hs ks, p, q) refl

  mutual
    unfolding seen_calls reported_calls

    pub seen_calls-Parallel :
        (c : Calls) (b : Bodies) → Parallel (seen_calls url c b).1 (reported_calls c)
    seen_calls-Parallel silent b = refl
    seen_calls-Parallel (wrote h chunk k) b = seen_calls-Parallel k (appended b h chunk)
    seen_calls-Parallel (headed h line k) b = seen_calls-Parallel k b
    seen_calls-Parallel (polled e s what k) b = seen_calls-Parallel k b
    seen_calls-Parallel (timed timeout_ms a k) b =
        let t = seen_timer url timeout_ms a b in
        Parallel-append t.1 (seen_calls url k t.0).1 (reported_timer timeout_ms a)
          (reported_calls k) (seen_timer-Parallel timeout_ms a b) (seen_calls-Parallel k t.0)

    seen_timer-Parallel :
        (timeout_ms : Option ℕ) (a : Activity) (b : Bodies)
        → Parallel (seen_timer url timeout_ms a b).1 (reported_timer timeout_ms a)
    seen_timer-Parallel none (acted c ok r msgs) b = refl
    seen_timer-Parallel (some (suc n)) (acted c ok r msgs) b = refl
    seen_timer-Parallel (some zero) (acted c true r msgs) b =
        let t = seen_calls url c b in
        Parallel-append t.1 (seen_messages url msgs t.0).1 (reported_calls c)
          (reported_messages msgs) (seen_calls-Parallel c b) (seen_messages-Parallel msgs t.0)
    seen_timer-Parallel (some zero) (acted c false r msgs) b =
        rw append-nil (seen_calls-Parallel c b)

    seen_messages-Parallel :
        (msgs : Messages) (b : Bodies)
        → Parallel (seen_messages url msgs b).1 (reported_messages msgs)
    seen_messages-Parallel no_more b = refl
    seen_messages-Parallel (noted msgs) b = seen_messages-Parallel msgs b
    seen_messages-Parallel (finished h res code c msgs) b =
        let t = seen_calls url c b in
        let r = seen_messages url msgs t.0 in
        Parallel-append t.1 (record { url = url h; http_code = code; recv_data = t.0 h } ∷ r.1)
          (reported_calls c) (h ∷ reported_messages msgs) (seen_calls-Parallel c b)
          (ap (◌∷◌ (url h)) (seen_messages-Parallel msgs t.0))

  pub seen-Parallel : (a : Activity) (b : Bodies) → Parallel (seen url a b).1 (reported a)
  unfolding seen reported
  seen-Parallel a b = seen_timer-Parallel (some 0) a b
