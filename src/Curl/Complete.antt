-- ===== src/Curl/Complete.antt =====
-- The round of `check_multi_info` on one handle: it is taken from libcurl, completed and deleted.
use native.Mathlib.Decide.{ℕ_discrete}
use tgproxy.Common.{
  ℕ, ◌≡◌, ◌≢◌, inl, inr, refl, sym, ◌∙◌, subst, true, false, List, [], ◌∷◌, none, some, Text,
  length-set, set, get_elem?, one_of, Run, done, ◌>>=◌, Run-cases, arith,
}
use tgproxy.Curl.{CurlHandle, MultiCurl, without}
use tgproxy.Curl.Handles.{present, handle_at, call_back, complete}
use tgproxy.Curl.Seen.{Bodies, deliver}
use tgproxy.Curl.Linked.{Matches, Linked, Ends, present-set_self, handle_at-with_handle_ne}
use tgproxy.Postman.Transfer.{Completion}
use tgproxy.Curl.Rounds.{Within, one_of-without, one_of-without_ne, not-one_of}

module _ {S : Type 0} (f : S → Completion → Run S) (url : ℕ → Text) where
  -- What is reported of a handle.
  abbrev pub completion : ℕ → ℕ → Bodies → Completion
  completion h code b = record { url = url h; http_code = code; recv_data = b h }

  -- The handle of a round is taken from libcurl.
  pub Linked-without :
      (busy : List ℕ) (m : MultiCurl S) (b : Bodies) (h : ℕ)
      → Linked f url busy m b
      → Linked f url (h ∷ busy) (record m { added = without h m.added }) b
  Linked-without busy m b h l = record {
    live = λ k a. l.live k (one_of-without h k m.added a);
    matches = l.matches;
    owned = λ k x e. elim (l.owned k x e) [
      | inr a ↦ inr (ground (arith, a))
      | inl a ↦ elim (ℕ_discrete h k) [
        | yes p ↦ inr (ground (arith, p))
        | no d ↦ inl (one_of-without_ne h k m.added d a)
      ]
    ];
  }

  -- The handle of the round is deleted.
  Linked-deleted :
      (busy : List ℕ) (m : MultiCurl S) (b : Bodies) (h : ℕ) (x : CurlHandle S) (s : S)
      → Linked f url (h ∷ busy) m b
      → handle_at m h ≡ some x
      → one_of m.added h ≡ false
      → Linked f url busy (record m { client = s; handles = set m.handles h none }) b
  Linked-deleted busy m b h x s l e n = record {
    live = λ k a.
        let (y, g) = l.live k a in
        (y, handle_at-with_handle_ne m h k none (λ p. not-one_of m.added k h a n (sym p)) ∙ g);
    matches = λ k y g. l.matches k y (before k y g).1;
    owned = λ k y g.
        let (d, g') = before k y g in
        elim (l.owned k y g') [ inl a ↦ inl a | inr a ↦ inr (ground (arith, d)) ];
  }
    where
      before :
          (k : ℕ) (y : CurlHandle S)
          → present (get_elem? (set m.handles h none) k) ≡ some y
          → (h ≢ k) × (handle_at m k ≡ some y)
      before k y g = elim (ℕ_discrete h k) [
        | yes p ↦
            let gone : present (get_elem? (set m.handles h none) k) ≡ none =
              subst (λ q. present (get_elem? (set m.handles h none) q) ≡ none) p
                (present-set_self m.handles h x none e) in
            cc (gone, g)
        | no d ↦ (d, sym (handle_at-with_handle_ne m h k none d) ∙ g)
      ]

  call_back_url :
      (b : Bodies) (h res code : ℕ) (x : CurlHandle S) (s : S)
      → Matches f url b h x
      → call_back x.cb res code x.fields s ≡ f s (completion h code b)
  unfolding call_back
  call_back_url b h res code x s t = rw (t.same_cb, call_back) (rw (t.same_url, t.same_body) refl)

  complete_run :
      (m : MultiCurl S) (b : Bodies) (h res code : ℕ) (x : CurlHandle S)
      → handle_at m h ≡ some x
      → Matches f url b h x
      → complete h res code m ≡ (
          f m.client (completion h code b) >>= λ s.
          done (record m { client = s; handles = set m.handles h none }))
  unfolding complete
  complete_run m b h res code x e t =
      rw (e, complete) (rw (call_back_url b h res code x m.client t, t.once) refl)

  -- The end of a round is the client's turn, and the handle is gone.
  pub complete-Ends :
      (busy hs : List ℕ) (m : MultiCurl S) (b : Bodies) (h res code : ℕ) (x : CurlHandle S)
      → Linked f url (h ∷ busy) m b
      → Within hs m
      → handle_at m h ≡ some x
      → one_of m.added h ≡ false
      → one_of hs h ≡ true
      → Ends f url busy hs m (complete h res code m) (b, completion h code b ∷ [])
  unfolding deliver
  complete-Ends busy hs m b h res code x l w e n o =
      elim (Run-cases (f m.client (completion h code b))) [
        | inl (s, g) ↦
            rw (complete_run m b h res code x e (l.matches h x e), g)
              (
                rw (g, deliver) refl,
                Linked-deleted busy m b h x s l e n,
                record {
                  fewer = w;
                  same = λ k z. handle_at-with_handle_ne m h k none (not-one_of hs h k o z);
                  made = length-set m.handles h none;
                },
              )
        | inr g ↦ rw (complete_run m b h res code x e (l.matches h x e), g) (rw (g, deliver) refl)
      ]
