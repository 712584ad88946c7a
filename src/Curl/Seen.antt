-- ===== src/Curl/Seen.antt =====
-- What a trace of libcurl's calls delivers, seen without the hub: the chunks that came for each handle,
-- and the completions in the order in which they are reported.
use tgproxy.Common.{
  ℕ, zero, suc, ◌≡◌, refl, true, false, List, [], ◌∷◌, ◌++◌, Option, none, some, Text, ◌==◌,
  if◌then◌else◌, Run, done, abort, ◌>>=◌, Run-cases, inl, inr,
}
use tgproxy.Curl.{
  Callback, Calls, silent, wrote, headed, polled, timed, Activity, acted, Messages, no_more,
  finished, noted,
}
use tgproxy.Postman.Transfer.{Completion}

-- The bodies so far, by handle.
abbrev pub Bodies : Type 0
Bodies = ℕ → Text

abbrev pub appended : Bodies → ℕ → Text → Bodies
appended b h chunk k = if k == h then b k ++ chunk else b k

-- A handle that is added has no body.
abbrev pub cleared : Bodies → ℕ → Bodies
cleared b h k = if k == h then [] else b k

-- The callback that hands a completion to the client.
abbrev pub callback_of : {S : Type 0} → (S → Completion → Run S) → Callback S
callback_of f res code d s = f s (record { url = d.url; http_code = code; recv_data = d.recv_data })

-- The completions in order, one client after the other.
unfoldable pub deliver : {S : Type 0} → (S → Completion → Run S) → S → List Completion → Run S
deliver f s [] = done s
deliver f s (c ∷ cs) = elim (f s c) [ done s' ↦ deliver f s' cs | abort ↦ abort ]

pub deliver-append :
    {S : Type 0} (f : S → Completion → Run S) (s : S) (cs ds : List Completion)
    → deliver f s (cs ++ ds) ≡ (deliver f s cs >>= λ s'. deliver f s' ds)
unfolding deliver
deliver-append f s [] ds = refl
deliver-append f s (c ∷ cs) ds = elim (Run-cases (f s c)) [
  | inl (s', e) ↦ rw (e, deliver) (deliver-append f s' cs ds)
  | inr e ↦ rw (e, deliver)
]

module _ (url : ℕ → Text) where
  unfoldable mutual
    pub seen_calls : Calls → Bodies → Bodies × List Completion
    seen_calls silent b = (b, [])
    seen_calls (wrote h chunk k) b = seen_calls k (appended b h chunk)
    seen_calls (headed h line k) b = seen_calls k b
    seen_calls (polled e s what k) b = seen_calls k b
    seen_calls (timed timeout_ms a k) b =
        let t = seen_timer timeout_ms a b in let r = seen_calls k t.0 in (r.0, t.1 ++ r.1)

    pub seen_timer : Option ℕ → Activity → Bodies → Bodies × List Completion
    seen_timer none (acted c ok r msgs) b = (b, [])
    seen_timer (some zero) (acted c ok r msgs) b =
        let t = seen_calls c b in
        elim ok [ true ↦ (let r = seen_messages msgs t.0 in (r.0, t.1 ++ r.1)) | false ↦ t ]
    seen_timer (some (suc n)) (acted c ok r msgs) b = (b, [])

    pub seen_messages : Messages → Bodies → Bodies × List Completion
    seen_messages no_more b = (b, [])
    seen_messages (noted msgs) b = seen_messages msgs b
    seen_messages (finished h res code c msgs) b =
        let t = seen_calls c b in
        let r = seen_messages msgs t.0 in
        (r.0, t.1 ++ record { url = url h; http_code = code; recv_data = t.0 h } ∷ r.1)

  -- Of a call of `curl_multi_socket_action`.
  unfoldable pub seen : Activity → Bodies → Bodies × List Completion
  unfolding seen_calls
  seen a b = seen_timer (some 0) a b
