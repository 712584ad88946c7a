-- ===== src/Hub/Registered.antt =====
-- A handle that is made and added: it is alive, has no body yet, and is libcurl's.
use native.Mathlib.Decide.{ℕ_discrete}
use tgproxy.Common.{
  ℕ, zero, suc, ◌≡◌, ◌≢◌, ◌⊎◌, inl, inr, refl, sym, ap, ◌∙◌, subst, Bool, true, List, [], ◌∷◌, ◌++◌,
  Option, some, Text, length, get_elem?, set, Run, arith,
}
use tgproxy.Curl.{CurlHandle, MultiCurl, Calls}
use tgproxy.Curl.Handles.{present, handle_at, with_handle, clear}
use tgproxy.Curl.Handlers.{run_calls, add, taken}
use tgproxy.Curl.Obeys.{ObeysCalls}
use tgproxy.Curl.Seen.{Bodies, cleared, seen_calls}
use tgproxy.Curl.Linked.{
  Matches, Linked, Linked-with_handle, Ends, present-set_self, handle_at-with_handle_ne,
}
use tgproxy.Curl.Delivers.{run_calls-Ends}
use tgproxy.Postman.Transfer.{Completion}

module _ {S : Type 0} where
  pub present-append_end :
      (xs : List (Option (CurlHandle S))) (y : CurlHandle S)
      → present (get_elem? (xs ++ some y ∷ []) (length xs)) ≡ some y
  present-append_end [] y = refl
  present-append_end (x ∷ xs) y = present-append_end xs y

  present-append_left :
      (xs : List (Option (CurlHandle S))) (y z : CurlHandle S) (k : ℕ)
      → present (get_elem? xs k) ≡ some z
      → present (get_elem? (xs ++ some y ∷ []) k) ≡ some z
  present-append_left [] y z k e = cc e
  present-append_left (x ∷ xs) y z zero e = e
  present-append_left (x ∷ xs) y z (suc k) e = present-append_left xs y z k e

  present-append_inv :
      (xs : List (Option (CurlHandle S))) (y z : CurlHandle S) (k : ℕ)
      → present (get_elem? (xs ++ some y ∷ []) k) ≡ some z
      → ((k ≡ length xs) × (y ≡ z)) ⊎ ((k ≢ length xs) × (present (get_elem? xs k) ≡ some z))
  present-append_inv [] y z zero e = inl (refl, cc e)
  present-append_inv [] y z (suc k) e = cc e
  present-append_inv (x ∷ xs) y z zero e = inr (omega arith, e)
  present-append_inv (x ∷ xs) y z (suc k) e = elim (present-append_inv xs y z k e) [
    | inl (p, q) ↦ inl (ap suc p, q)
    | inr (d, q) ↦ inr (omega (arith, d), q)
  ]

  pub add-taken :
      (m : MultiCurl S) (h : ℕ) (ok : Bool) (x : CurlHandle S) (calls : Calls)
      → handle_at m h ≡ some x
      → add h ok calls m ≡ run_calls calls (taken h ok x m)
  unfolding add
  add-taken m h ok x calls e = rw (e, add) refl

module _ {S : Type 0} (f : S → Completion → Run S) (url : ℕ → Text) where
  -- A new handle, before it is added.
  pub Linked-made :
      (busy : List ℕ) (m : MultiCurl S) (b : Bodies) (y : CurlHandle S)
      → Linked f url busy m b
      → Matches f url (cleared b (length m.handles)) (length m.handles) y
      → Linked f url
          (length m.handles ∷ busy)
          (record m { handles = m.handles ++ some y ∷ [] })
          (cleared b (length m.handles))
  Linked-made busy m b y l t = record {
    live = λ k a. let (z, e) = l.live k a in (z, present-append_left m.handles y z k e);
    matches = λ k z e. elim (present-append_inv m.handles y z k e) [
      | inl (p, q) ↦
          subst (λ j. Matches f url (cleared b (length m.handles)) j z) (sym p)
            (subst (Matches f url (cleared b (length m.handles)) (length m.handles)) q t)
      | inr (d, e') ↦
          let r = l.matches k z e' in
          record {
            same_url = r.same_url;
            same_body = r.same_body ∙ ground (arith, d);
            same_cb = r.same_cb;
            once = r.once;
          }
    ];
    owned = λ k z e. elim (present-append_inv m.handles y z k e) [
      | inl (p, q) ↦ inr (ground (arith, p))
      | inr (d, e') ↦ elim (l.owned k z e') [ inl a ↦ inl a | inr a ↦ inr (ground (arith, a)) ]
    ];
  }

  pub Linked-cleared :
      (busy : List ℕ) (m : MultiCurl S) (b : Bodies) (h : ℕ) (x : CurlHandle S)
      → Linked f url (h ∷ busy) m (cleared b h)
      → handle_at m h ≡ some x
      → Linked f url (h ∷ busy) (with_handle m h (some (clear x))) (cleared b h)
  Linked-cleared busy m b h x l e =
      let was = l.matches h x e in
      let t : Matches f url (cleared b h) h (clear x) = record {
        same_url = was.same_url;
        same_body = ground arith;
        same_cb = was.same_cb;
        once = was.once;
      } in
      Linked-with_handle f url (h ∷ busy) m (cleared b h) (cleared b h) h x (clear x) l e t
        (λ k d. refl)

  Linked-taken :
      (busy : List ℕ) (m : MultiCurl S) (b : Bodies) (h : ℕ) (x : CurlHandle S)
      → Linked f url (h ∷ busy) m (cleared b h)
      → handle_at m h ≡ some x
      → Linked f url busy (taken h true x m) (cleared b h)
  Linked-taken busy m b h x l e = record {
    live = λ k a. elim (ℕ_discrete h k) [
      | yes p ↦ (
        clear x,
        subst (λ j. present (get_elem? (set m.handles h (some (clear x))) j) ≡ some (clear x)) p
            (present-set_self m.handles h x (some (clear x)) e),
      )
      | no d ↦
          let (z, g) = l.live k (ground (arith, d, a)) in
          (z, handle_at-with_handle_ne m h k (some (clear x)) d ∙ g)
    ];
    matches = (Linked-cleared busy m b h x l e).matches;
    owned = λ k z g. elim ((Linked-cleared busy m b h x l e).owned k z g) [
      | inl a ↦ inl (ground (arith, a))
      | inr a ↦ elim (ℕ_discrete h k) [
        | yes p ↦ inl (ground (arith, p))
        | no d ↦ inr (ground (arith, d, a))
      ]
    ];
  }

  -- The new handle is added: it is libcurl's, and its calls are a trace like any other.
  pub add-Ends :
      (busy : List ℕ) (m : MultiCurl S) (b : Bodies) (h : ℕ) (x : CurlHandle S) (calls : Calls)
      → Linked f url (h ∷ busy) m (cleared b h)
      → handle_at m h ≡ some x
      → ObeysCalls calls (taken h true x m)
      → Ends f url busy
          (h ∷ m.added)
          (taken h true x m)
          (add h true calls m)
          (seen_calls url calls (cleared b h))
  add-Ends busy m b h x calls l e o = rw (add-taken m h true x calls e) (
      run_calls-Ends f url calls busy (h ∷ m.added) (taken h true x m) (cleared b h)
        (Linked-taken busy m b h x l e) (λ k a. a) o)
