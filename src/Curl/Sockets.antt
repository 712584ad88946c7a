-- ===== src/Curl/Sockets.antt =====
-- What `curl_sock_handler` watches.
use tgproxy.Common.{
  ℕ, zero, suc, ◌<◌, ◌≡◌, ◌≢◌, inl, inr, refl, true, List, [], ◌∷◌, Option, none, some, one_of,
  ◌==◌, done, Bool-cases, arith,
}
use tgproxy.Curl.{
  CurlHandle, CurlSocket, MultiCurl, curl_poll_remove, kind_of, action_of, socket_at,
  without_socket,
}
use tgproxy.Curl.Handles.{handle_at, armed, removed, curl_sock_handler}
use tgproxy.Curl.Obeys.{polls, is_known}

socket_at-without_socket :
    (s : ℕ) (sks : List CurlSocket) → socket_at s (without_socket s sks) ≡ none
unfolding socket_at without_socket
socket_at-without_socket s [] = refl
socket_at-without_socket s (sk ∷ sks) = ground (arith, socket_at-without_socket s sks)

socket_at-without_socket_ne :
    (s t : ℕ) (sks : List CurlSocket) → s ≢ t → socket_at t (without_socket s sks) ≡ socket_at t sks
unfolding socket_at without_socket
socket_at-without_socket_ne s t [] d = refl
socket_at-without_socket_ne s t (sk ∷ sks) d =
    ground (arith, socket_at-without_socket_ne s t sks d, d)

-- The event of a socket is for what libcurl asked of it.
action_of-kind_of : (what : ℕ) → what < 4 → action_of (kind_of what) ≡ what
unfolding action_of kind_of
action_of-kind_of zero h = refl
action_of-kind_of (suc zero) h = refl
action_of-kind_of (suc (suc zero)) h = refl
action_of-kind_of (suc (suc (suc zero))) h = refl
action_of-kind_of (suc (suc (suc (suc n)))) h = absurd (omega arith)

module _ {S : Type 0} where
  -- The sockets behind the handler.
  pub record Watches (e s what : ℕ) (m m' : MultiCurl S) : Type 0 where
    pub forgotten : what ≡ curl_poll_remove → socket_at s m'.sockets ≡ none
    pub watched :
        what ≢ curl_poll_remove
        → (x : CurlHandle S) × (handle_at m e ≡ some x)
          × (socket_at s m'.sockets ≡ some (armed e s what x.fields.timeout_ms))
    pub others : (t : ℕ) → s ≢ t → socket_at t m'.sockets ≡ socket_at t m.sockets
    pub untouched : (m'.handles ≡ m.handles) × (m'.added ≡ m.added) × (m'.client ≡ m.client)

  removed_done :
      (m : MultiCurl S) (s : ℕ) (sk : Option CurlSocket)
      → is_known sk ≡ true
      → removed s m sk ≡ done (record m { sockets = without_socket s m.sockets })
  removed_done m s none k = cc k
  removed_done m s (some sk) k = refl

  pub curl_sock_handler-Watches :
      (e s what : ℕ) (m : MultiCurl S)
      → ((h : ℕ) → one_of m.added h ≡ true → (x : CurlHandle S) × (handle_at m h ≡ some x))
      → polls e s what m ≡ true
      → (m' : MultiCurl S) × (curl_sock_handler e s what m ≡ done m')
        × Watches e s what m m'
        × (what < 4 → action_of (kind_of what) ≡ what)
  unfolding curl_sock_handler
  curl_sock_handler-Watches e s what m live p = elim (Bool-cases (what == curl_poll_remove)) [
    | inl z ↦
        let known : is_known (socket_at s m.sockets) ≡ true = rw (← p) (rw z refl) in
        (
          record m { sockets = without_socket s m.sockets },
          rw (z, curl_sock_handler) (removed_done m s (socket_at s m.sockets) known),
          record {
            forgotten = λ q. socket_at-without_socket s m.sockets;
            watched = λ d. ground (arith, d, z);
            others = λ t. socket_at-without_socket_ne s t m.sockets;
            untouched = (refl, refl, refl);
          },
          action_of-kind_of what,
        )
    | inr z ↦
        let a : one_of m.added e ≡ true = rw (← p) (rw z refl) in
        let (x, h) = live e a in
        (
          record m { sockets = armed e s what x.fields.timeout_ms ∷ without_socket s m.sockets },
          rw (z, h, curl_sock_handler) refl,
          record {
            forgotten = λ q. ground (arith, q, z);
            watched = λ d. (x, h, ground arith);
            others = λ t d. ground (arith, d, socket_at-without_socket_ne s t m.sockets d);
            untouched = (refl, refl, refl);
          },
          action_of-kind_of what,
        )
  ]
