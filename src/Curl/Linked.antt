-- ===== src/Curl/Linked.antt =====
-- How the state of `MultiCURL` stands to what was delivered: every handle that was added is alive, holds
-- what came for it, and is owned by libcurl or by the round that deletes it.
use native.Mathlib.Decide.{ℕ_discrete}
use tgproxy.Common.{
  ℕ, zero, suc, ◌≡◌, ◌≢◌, ◌⊎◌, inl, inr, refl, sym, ap, ◌∙◌, subst, true, false, List, [], ◌∷◌,
  ◌++◌, Option, some, Text, length, get_elem?, get_elem?-set_ne, set, one_of, Run, done, abort,
  ◌>>=◌, OnEnd, Run-cases, arith,
}
use tgproxy.Curl.{CurlHandle, MultiCurl}
use tgproxy.Curl.Handles.{present, handle_at, with_handle}
use tgproxy.Curl.Seen.{Bodies, callback_of, deliver, deliver-append}
use tgproxy.Postman.Transfer.{Completion}

module _ {S : Type 0} where
  pub present-set_self :
      (xs : List (Option (CurlHandle S))) (h : ℕ) (x : CurlHandle S) (y : Option (CurlHandle S))
      → present (get_elem? xs h) ≡ some x
      → present (get_elem? (set xs h y) h) ≡ y
  present-set_self [] h x y e = cc
  present-set_self (z ∷ xs) zero x y e = refl
  present-set_self (z ∷ xs) (suc h) x y e = present-set_self xs h x y e

  pub handle_at-with_handle_ne :
      (m : MultiCurl S) (h k : ℕ) (y : Option (CurlHandle S))
      → h ≢ k
      → handle_at (with_handle m h y) k ≡ handle_at m k
  handle_at-with_handle_ne m h k y d = ap present (get_elem?-set_ne m.handles h k y d)

  -- Only handles of `hs` are added behind the run, no other handle changed, and none was made.
  pub record Keeps (hs : List ℕ) (m m' : MultiCurl S) : Type 0 where
    pub fewer : (h : ℕ) → one_of m'.added h ≡ true → one_of hs h ≡ true
    pub same : (h : ℕ) → one_of hs h ≡ false → handle_at m' h ≡ handle_at m h
    pub made : length m'.handles ≡ length m.handles

  Keeps-trans :
      (gs hs : List ℕ) (m m' m'' : MultiCurl S)
      → ((h : ℕ) → one_of gs h ≡ true → one_of hs h ≡ true)
      → Keeps gs m m'
      → Keeps hs m' m''
      → Keeps hs m m''
  Keeps-trans gs hs m m' m'' w k l = record {
    fewer = l.fewer;
    same = λ h e. l.same h e ∙ k.same h (ground (arith, w h));
    made = l.made ∙ k.made;
  }

module _ {S : Type 0} (f : S → Completion → Run S) (url : ℕ → Text) where
  pub record Matches (b : Bodies) (h : ℕ) (x : CurlHandle S) : Type 0 where
    pub same_url : x.fields.url ≡ url h
    pub same_body : x.fields.recv_data ≡ b h
    pub same_cb : x.cb ≡ some (callback_of f)
    pub once : x.fields.recycled ≡ false

  -- `busy` are the handles whose round of `check_multi_info` is going on.
  pub record Linked (busy : List ℕ) (m : MultiCurl S) (b : Bodies) : Type 0 where
    pub live : (h : ℕ) → one_of m.added h ≡ true → (x : CurlHandle S) × (handle_at m h ≡ some x)
    pub matches : (h : ℕ) (x : CurlHandle S) → handle_at m h ≡ some x → Matches b h x
    pub owned :
        (h : ℕ) (x : CurlHandle S)
        → handle_at m h ≡ some x
        → (one_of m.added h ≡ true) ⊎ (one_of busy h ≡ true)

  -- A run from `m` that delivers the bodies and completions `t`, and leaves `busy` in their rounds.
  abbrev pub Ends :
      List ℕ → List ℕ → MultiCurl S → Run (MultiCurl S) → Bodies × List Completion → Type 0
  Ends busy hs m (done m') t =
      (deliver f m.client t.1 ≡ done m'.client) × Linked busy m' t.0 × Keeps hs m m'
  Ends busy hs m abort t = deliver f m.client t.1 ≡ abort

  pub Ends-bind :
      (busy busy' gs hs : List ℕ) (m : MultiCurl S) (r : Run (MultiCurl S))
      (k : MultiCurl S → Run (MultiCurl S)) (t u : Bodies × List Completion)
      (Q : MultiCurl S → Type 0)
      → ((h : ℕ) → one_of gs h ≡ true → one_of hs h ≡ true)
      → OnEnd Q r
      → Ends busy gs m r t
      → ((m1 : MultiCurl S) → Q m1 → Linked busy m1 t.0 → Keeps gs m m1 → Ends busy' hs m1 (k m1) u)
      → Ends busy' hs m (r >>= k) (u.0, t.1 ++ u.1)
  Ends-bind busy busy' gs hs m abort k t u Q w q h n = deliver-append f m.client t.1 u.1 ∙ rw h refl
  Ends-bind busy busy' gs hs m (done m1) k t u Q w q h n = elim (Run-cases (k m1)) [
    | inl (m2, e) ↦
        let (d, l, ks) = subst (λ r. Ends busy' hs m1 r u) e (n m1 q h.1 h.2) in
        rw e (deliver-append f m.client t.1 u.1 ∙ rw h.0 d, l, Keeps-trans gs hs m m1 m2 w h.2 ks)
    | inr e ↦
        let d = subst (λ r. Ends busy' hs m1 r u) e (n m1 q h.1 h.2) in
        rw e (deliver-append f m.client t.1 u.1 ∙ rw h.0 d)
  ]

  -- A handle that was added gets other fields.
  pub Linked-with_handle :
      (busy : List ℕ) (m : MultiCurl S) (b b' : Bodies) (h : ℕ) (x y : CurlHandle S)
      → Linked busy m b
      → handle_at m h ≡ some x
      → Matches b' h y
      → ((k : ℕ) → h ≢ k → b' k ≡ b k)
      → Linked busy (with_handle m h (some y)) b'
  Linked-with_handle busy m b b' h x y l e s o = record {
    live = live_at;
    matches = matches_at;
    owned = owned_at;
  }
    where
      m' : MultiCurl S
      m' = with_handle m h (some y)

      here : present (get_elem? (set m.handles h (some y)) h) ≡ some y
      here = present-set_self m.handles h x (some y) e

      live_at :
          (k : ℕ)
          → one_of m.added k ≡ true
          → (z : CurlHandle S) × (present (get_elem? (set m.handles h (some y)) k) ≡ some z)
      live_at k a = elim (ℕ_discrete h k) [
        | yes p ↦ (y, subst (λ q. present (get_elem? (set m.handles h (some y)) q) ≡ some y) p here)
        | no d ↦ let (z, g) = l.live k a in (z, handle_at-with_handle_ne m h k (some y) d ∙ g)
      ]

      matches_at :
          (k : ℕ) (z : CurlHandle S)
          → present (get_elem? (set m.handles h (some y)) k) ≡ some z
          → Matches b' k z
      matches_at k z g = elim (ℕ_discrete h k) [
        | yes p ↦
            let g' =
              subst (λ q. present (get_elem? (set m.handles h (some y)) q) ≡ some z) (sym p) g in
            let same : y ≡ z = cc (here, g') in
            subst (λ q. Matches b' q z) p (subst (Matches b' h) same s)
        | no d ↦
            let r = l.matches k z (sym (handle_at-with_handle_ne m h k (some y) d) ∙ g) in
            record {
              same_url = r.same_url;
              same_body = r.same_body ∙ sym (o k d);
              same_cb = r.same_cb;
              once = r.once;
            }
      ]

      owned_at :
          (k : ℕ) (z : CurlHandle S)
          → present (get_elem? (set m.handles h (some y)) k) ≡ some z
          → (one_of m.added k ≡ true) ⊎ (one_of busy k ≡ true)
      owned_at k z g = elim (ℕ_discrete h k) [
        | yes p ↦ subst (λ q. (one_of m.added q ≡ true) ⊎ (one_of busy q ≡ true)) p (l.owned h x e)
        | no d ↦ l.owned k z (sym (handle_at-with_handle_ne m h k (some y) d) ∙ g)
      ]
