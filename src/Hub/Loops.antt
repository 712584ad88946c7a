-- ===== src/Hub/Loops.antt =====
-- The event loop on a trace: what each dispatch delivers, one after the other.
use tgproxy.Common.{
  ℕ, ◌≡◌, refl, ◌∙◌, subst, inl, inr, List, [], ◌∷◌, ◌++◌, none, some, Text, length, Run, done,
  abort, ◌>>=◌, OnEnd, Run-cases,
}
use tgproxy.Curl.{Activity, acted, action_of, MultiCurl}
use tgproxy.Curl.Handlers.{ev_timer_handler, ev_event_handler}
use tgproxy.Curl.Obeys.{Obeys}
use tgproxy.Curl.Seen.{Bodies, seen, deliver, deliver-append}
use tgproxy.Curl.Linked.{Linked, Ends, Ends-bind}
use tgproxy.Curl.Rounds.{Within, Ends-aside, Ends-from}
use tgproxy.Curl.Delivers.{curl_timer_handler-Ends}
use tgproxy.Hub.{Dispatch, timer_fired, socket_fired, dispatch, loop}
use tgproxy.Postman.Transfer.{Completion}

-- What libcurl promises of the loop.
module _ {S : Type 0} where
  unfoldable pub ObeysDispatch : Dispatch → MultiCurl S → Type 0
  ObeysDispatch (timer_fired a) m = Obeys a (record m { ev_timer = none })
  ObeysDispatch (socket_fired answer fd kind) m = Obeys (answer fd (action_of kind)) m

  unfoldable pub ObeysLoop : List Dispatch → MultiCurl S → Type 0
  ObeysLoop [] m = Unit
  ObeysLoop (d ∷ ds) m = ObeysDispatch d m × OnEnd (λ m'. ObeysLoop ds m') (dispatch d m)

module _ (url : ℕ → Text) where
  unfoldable pub seen_dispatch : Dispatch → Bodies → Bodies × List Completion
  seen_dispatch (timer_fired a) b = seen url a b
  seen_dispatch (socket_fired answer fd kind) b = seen url (answer fd (action_of kind)) b

  unfoldable pub seen_loop : List Dispatch → Bodies → Bodies × List Completion
  seen_loop [] b = (b, [])
  seen_loop (d ∷ ds) b = let t = seen_dispatch d b in let r = seen_loop ds t.0 in (r.0, t.1 ++ r.1)

module _ {S : Type 0} (f : S → Completion → Run S) (url : ℕ → Text) where
  -- A loop delivers what is seen of it, and leaves the handles alone that were never added.
  action-Ends :
      (a : Activity) (busy hs : List ℕ) (m : MultiCurl S) (b : Bodies)
      → Linked f url busy m b
      → Within hs m
      → Obeys a m
      → Ends f url busy hs m (ev_timer_handler a m) (seen url a b)
  unfolding ev_timer_handler Obeys seen
  action-Ends (acted c ok r msgs) busy hs m b l w o =
      curl_timer_handler-Ends f url (some 0) (acted c ok r msgs) busy hs m b l w o

  dispatch-Ends :
      (d : Dispatch) (busy hs : List ℕ) (m : MultiCurl S) (b : Bodies)
      → Linked f url busy m b
      → Within hs m
      → ObeysDispatch d m
      → Ends f url busy hs m (dispatch d m) (seen_dispatch url d b)
  unfolding dispatch ObeysDispatch seen_dispatch ev_event_handler
  dispatch-Ends (timer_fired a) busy hs m b l w o =
      let m' : MultiCurl S = record m { ev_timer = none } in
      let aside = Ends-aside f url busy hs m m' b l w refl refl refl in
      Ends-from f url busy hs m m' (ev_timer_handler a m') (seen url a b) refl refl
        (action-Ends a busy hs m' b aside.1 w o)
  dispatch-Ends (socket_fired answer fd kind) busy hs m b l w o =
      action-Ends (answer fd (action_of kind)) busy hs m b l w o

  pub loop-Ends :
      (ds : List Dispatch) (busy hs : List ℕ) (m : MultiCurl S) (b : Bodies)
      → Linked f url busy m b
      → Within hs m
      → ObeysLoop ds m
      → Ends f url busy hs m (loop ds m) (seen_loop url ds b)
  unfolding loop ObeysLoop seen_loop
  loop-Ends [] busy hs m b l w o = Ends-aside f url busy hs m m b l w refl refl refl
  loop-Ends (d ∷ ds) busy hs m b l w o =
      let t = seen_dispatch url d b in
      Ends-bind f url busy busy hs hs m (dispatch d m) (λ m'. loop ds m') t (seen_loop url ds t.0)
        (λ m'. ObeysLoop ds m') (λ k a. a) o.1 (dispatch-Ends d busy hs m b l w o.0)
        (λ m' q l' s. loop-Ends ds busy hs m' t.0 l' s.fewer q)

  -- From the client `s`, a run delivers `t` and leaves `n` handles made, none in its round.
  abbrev pub Reaches :
      {A : Type 0} → (A → MultiCurl S) → S → ℕ → Run A → Bodies × List Completion → Type 0
  Reaches multi s n (done a) t =
      (deliver f s t.1 ≡ done (multi a).client)
      × Linked f url [] (multi a) t.0
      × (length (multi a).handles ≡ n)
  Reaches multi s n abort t = deliver f s t.1 ≡ abort

  pub Ends-Reaches :
      (hs : List ℕ) (m : MultiCurl S) (r : Run (MultiCurl S)) (t : Bodies × List Completion)
      → Ends f url [] hs m r t
      → Reaches (λ a. a) m.client (length m.handles) r t
  Ends-Reaches hs m abort t e = e
  Ends-Reaches hs m (done m') t e = (e.0, e.1, e.2.made)

  pub Reaches-bind :
      {A B : Type 0} (pa : A → MultiCurl S) (pb : B → MultiCurl S) (s : S) (n n' : ℕ) (r : Run A)
      (k : A → Run B) (t u : Bodies × List Completion) (Q : A → Type 0)
      → OnEnd Q r
      → Reaches pa s n r t
      → ((a : A)
          → Q a
          → Linked f url [] (pa a) t.0
          → length (pa a).handles ≡ n
          → Reaches pb (pa a).client n' (k a) u)
      → Reaches pb s n' (r >>= k) (u.0, t.1 ++ u.1)
  Reaches-bind pa pb s n n' abort k t u Q q h g = deliver-append f s t.1 u.1 ∙ rw h refl
  Reaches-bind pa pb s n n' (done a) k t u Q q h g = elim (Run-cases (k a)) [
    | inl (c, e) ↦
        let (d, l, m) = subst (λ r. Reaches pb (pa a).client n' r u) e (g a q h.1 h.2) in
        rw e (deliver-append f s t.1 u.1 ∙ rw h.0 d, l, m)
    | inr e ↦
        let d = subst (λ r. Reaches pb (pa a).client n' r u) e (g a q h.1 h.2) in
        rw e (deliver-append f s t.1 u.1 ∙ rw h.0 d)
  ]

  pub loop-Reaches :
      (ds : List Dispatch) (m : MultiCurl S) (n : ℕ) (b : Bodies)
      → Linked f url [] m b
      → ObeysLoop ds m
      → length m.handles ≡ n
      → Reaches (λ a. a) m.client n (loop ds m) (seen_loop url ds b)
  loop-Reaches ds m n b l o e =
      subst (λ k. Reaches (λ a. a) m.client k (loop ds m) (seen_loop url ds b)) e
        (Ends-Reaches m.added m (loop ds m) (seen_loop url ds b)
          (loop-Ends ds [] m.added m b l (λ h a. a) o))
