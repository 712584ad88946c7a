-- ===== src/Curl/Rounds.antt =====
-- What one handler of `MultiCURL` does to a state that agrees with what was delivered.
use tgproxy.Common.{
  ℕ, ◌≡◌, ◌≢◌, refl, sym, ap, ◌∙◌, subst, true, false, List, [], ◌∷◌, ◌++◌, some, Text, length,
  length-set, one_of, Run, done, abort, ◌>>=◌, arith,
}
use tgproxy.Common.Int.{ℤ}
use tgproxy.Tiangan.{curl_header_cb}
use tgproxy.Curl.{CurlData, CurlHandle, MultiCurl, without}
use tgproxy.Curl.Handles.{
  handle_at, with_handle, with_fields, curl_write_cb, header_cb, curl_sock_handler,
}
use tgproxy.Curl.Obeys.{polls}
use tgproxy.Curl.Sockets.{curl_sock_handler-Watches}
use tgproxy.Curl.Seen.{Bodies, appended, deliver}
use tgproxy.Curl.Linked.{Matches, Linked, Linked-with_handle, Ends, handle_at-with_handle_ne}
use tgproxy.Postman.Transfer.{Completion}

pub one_of-without_self : (h : ℕ) (hs : List ℕ) → one_of (without h hs) h ≡ false
one_of-without_self h [] = refl
one_of-without_self h (k ∷ hs) = ground (arith, one_of-without_self h hs)

pub one_of-without : (h k : ℕ) (hs : List ℕ) → one_of (without h hs) k ≡ true → one_of hs k ≡ true
one_of-without h k [] e = e
one_of-without h k (j ∷ hs) e = ground (arith, one_of-without h k hs)

pub one_of-without_ne :
    (h k : ℕ) (hs : List ℕ) → h ≢ k → one_of hs k ≡ true → one_of (without h hs) k ≡ true
one_of-without_ne h k [] d e = e
one_of-without_ne h k (j ∷ hs) d e = ground (arith, one_of-without_ne h k hs d)

pub not-one_of : (hs : List ℕ) (h k : ℕ) → one_of hs h ≡ true → one_of hs k ≡ false → h ≢ k
not-one_of hs h k a e p = ground (arith, subst (λ q. one_of hs q ≡ true) p a)

module _ {S : Type 0} where
  -- Every handle that was added is one of `hs`.
  abbrev pub Within : List ℕ → MultiCurl S → Type 0
  Within hs m = (h : ℕ) → one_of m.added h ≡ true → one_of hs h ≡ true

module _ {S : Type 0} (f : S → Completion → Run S) (url : ℕ → Text) where
  -- A handle that was added gets other fields, and nothing is completed.
  Ends-with_fields :
      (busy hs : List ℕ) (m : MultiCurl S) (b b' : Bodies) (h : ℕ) (x : CurlHandle S) (d : CurlData)
      → Linked f url busy m b
      → Within hs m
      → one_of m.added h ≡ true
      → handle_at m h ≡ some x
      → d.url ≡ x.fields.url
      → d.recycled ≡ x.fields.recycled
      → d.recv_data ≡ b' h
      → ((k : ℕ) → h ≢ k → b' k ≡ b k)
      → Ends f url busy hs m (done (with_handle m h (some (with_fields x d)))) (b', [])
  unfolding deliver
  Ends-with_fields busy hs m b b' h x d l w a e u r v o =
      let was = l.matches h x e in
      let now : Matches f url b' h (with_fields x d) = record {
        same_url = u ∙ was.same_url;
        same_body = v;
        same_cb = was.same_cb;
        once = r ∙ was.once;
      } in
      (
        refl,
        Linked-with_handle f url busy m b b' h x (with_fields x d) l e now o,
        record {
          fewer = w;
          same = λ k g.
              handle_at-with_handle_ne m h k (some (with_fields x d)) (not-one_of hs h k (w h a) g);
          made = length-set m.handles h (some (with_fields x d));
        },
      )

  appended_self : (b : Bodies) (h : ℕ) (chunk : Text) → appended b h chunk h ≡ b h ++ chunk
  appended_self b h chunk = ground arith

  appended_ne : (b : Bodies) (h k : ℕ) (chunk : Text) → h ≢ k → appended b h chunk k ≡ b k
  appended_ne b h k chunk d = ground arith

  curl_write_cb_at :
      (m : MultiCurl S) (h : ℕ) (chunk : Text) (x : CurlHandle S)
      → handle_at m h ≡ some x
      → curl_write_cb h chunk m
        ≡ done (
            with_handle m h
              (some (with_fields x (record x.fields { recv_data = x.fields.recv_data ++ chunk }))))
  unfolding curl_write_cb
  curl_write_cb_at m h chunk x e = rw (e, curl_write_cb) refl

  header_cb_at :
      (m : MultiCurl S) (h : ℕ) (line : Text) (x : CurlHandle S)
      → handle_at m h ≡ some x
      → header_cb h line m
        ≡ done (
            with_handle m h (
              some (
                with_fields x
                  (record x.fields { rheaders = curl_header_cb x.fields.rheaders line }))))
  unfolding header_cb
  header_cb_at m h line x e = rw (e, header_cb) refl

  pub curl_write_cb-Ends :
      (busy hs : List ℕ) (m : MultiCurl S) (b : Bodies) (h : ℕ) (chunk : Text)
      → Linked f url busy m b
      → Within hs m
      → one_of m.added h ≡ true
      → Ends f url busy hs m (curl_write_cb h chunk m) (appended b h chunk, [])
  curl_write_cb-Ends busy hs m b h chunk l w a =
      let (x, e) = l.live h a in
      let was = l.matches h x e in
      rw (curl_write_cb_at m h chunk x e) (
        Ends-with_fields busy hs m b (appended b h chunk) h x
          (record x.fields { recv_data = x.fields.recv_data ++ chunk }) l w a e refl refl
          (ap (λ t. t ++ chunk) was.same_body ∙ sym (appended_self b h chunk))
          (λ k. appended_ne b h k chunk))

  pub header_cb-Ends :
      (busy hs : List ℕ) (m : MultiCurl S) (b : Bodies) (h : ℕ) (line : Text)
      → Linked f url busy m b
      → Within hs m
      → one_of m.added h ≡ true
      → Ends f url busy hs m (header_cb h line m) (b, [])
  header_cb-Ends busy hs m b h line l w a =
      let (x, e) = l.live h a in
      rw (header_cb_at m h line x e) (
        Ends-with_fields busy hs m b b h x
          (record x.fields { rheaders = curl_header_cb x.fields.rheaders line }) l w a e refl refl
          (l.matches h x e).same_body (λ k d. refl))

  -- Sockets, the timer and the count of running handles do not matter to the handles.
  pub Ends-aside :
      (busy hs : List ℕ) (m m' : MultiCurl S) (b : Bodies)
      → Linked f url busy m b
      → Within hs m
      → m'.client ≡ m.client
      → m'.handles ≡ m.handles
      → m'.added ≡ m.added
      → Ends f url busy hs m (done m') (b, [])
  unfolding deliver
  Ends-aside busy hs m m' b l w c h a = (
    ap done (sym c),
    record {
      live = λ k e. rw h (l.live k (rw (← a) e));
      matches = λ k x e. l.matches k x (rw (← h) e);
      owned = λ k x e. rw a (l.owned k x (rw (← h) e));
    },
    record { fewer = λ k e. w k (rw (← a) e); same = λ k e. rw h refl; made = ap length h },
  )

  -- A run is seen from a state with the same client and handles.
  pub Ends-from :
      (busy hs : List ℕ) (m m' : MultiCurl S) (r : Run (MultiCurl S)) (t : Bodies × List Completion)
      → m'.client ≡ m.client
      → m'.handles ≡ m.handles
      → Ends f url busy hs m' r t
      → Ends f url busy hs m r t
  Ends-from busy hs m m' abort t c h e = rw (← c) e
  Ends-from busy hs m m' (done m1) t c h e = (
    rw (← c) e.0,
    e.1,
    record {
      fewer = e.2.fewer;
      same = λ k z. rw (← h) (e.2.same k z);
      made = e.2.made ∙ ap length h;
    },
  )

  pub Ends-running :
      (busy hs : List ℕ) (m : MultiCurl S) (r : Run (MultiCurl S)) (n : ℤ)
      (t : Bodies × List Completion)
      → Ends f url busy hs m r t
      → Ends f url busy hs m (r >>= λ m'. done (record m' { still_running = n })) t
  Ends-running busy hs m abort n t e = e
  Ends-running busy hs m (done m1) n t e =
      let aside =
        Ends-aside busy hs m1 (record m1 { still_running = n }) t.0 e.1 e.2.fewer refl refl refl in
      (e.0, aside.1, record { fewer = e.2.fewer; same = e.2.same; made = e.2.made })

  pub curl_sock_handler-Ends :
      (busy hs : List ℕ) (m : MultiCurl S) (b : Bodies) (e s what : ℕ)
      → Linked f url busy m b
      → Within hs m
      → polls e s what m ≡ true
      → Ends f url busy hs m (curl_sock_handler e s what m) (b, [])
  curl_sock_handler-Ends busy hs m b e s what l w p =
      let (m', d, watches, _) = curl_sock_handler-Watches e s what m l.live p in
      let (h, a, c) = watches.untouched in rw d (Ends-aside busy hs m m' b l w c h a)
