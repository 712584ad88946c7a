-- ===== src/Hub/Once.antt =====
-- The handles that a loop reports as done.
use tgproxy.Common.{ℕ, refl, List, [], ◌∷◌, ◌++◌, none, Text, OnEnd, arith}
use tgproxy.Curl.{action_of, MultiCurl}
use tgproxy.Curl.Handlers.{ev_event_handler}
use tgproxy.Curl.Once.{reported}
use tgproxy.Curl.Once.Counted.{Counted, Single, Counted-bind, ev_timer_handler-Counted}
use tgproxy.Hub.{Dispatch, timer_fired, socket_fired, dispatch, loop}
use tgproxy.Hub.Loops.{ObeysDispatch, ObeysLoop, seen_dispatch, seen_loop}
use tgproxy.Curl.Seen.{Bodies, seen}
use tgproxy.Curl.Reported.{Parallel, Parallel-append, seen-Parallel}

unfoldable pub reported_dispatch : Dispatch → List ℕ
unfolding reported
reported_dispatch (timer_fired a) = reported a
reported_dispatch (socket_fired answer fd kind) = reported (answer fd (action_of kind))

unfoldable pub reported_loop : List Dispatch → List ℕ
unfolding reported_dispatch
reported_loop [] = []
reported_loop (d ∷ ds) = reported_dispatch d ++ reported_loop ds

module _ {S : Type 0} where
  dispatch-Counted :
      (d : Dispatch) (m : MultiCurl S)
      → Single m
      → ObeysDispatch d m
      → OnEnd (Counted m (reported_dispatch d)) (dispatch d m)
  unfolding dispatch ObeysDispatch reported_dispatch ev_event_handler
  dispatch-Counted (timer_fired a) m s o =
      ev_timer_handler-Counted a (record m { ev_timer = none }) s o
  dispatch-Counted (socket_fired answer fd kind) m s o =
      ev_timer_handler-Counted (answer fd (action_of kind)) m s o

  pub loop-Counted :
      (ds : List Dispatch) (m : MultiCurl S)
      → Single m
      → ObeysLoop ds m
      → OnEnd (Counted m (reported_loop ds)) (loop ds m)
  unfolding loop ObeysLoop reported_loop
  loop-Counted [] m s o = ((λ h. omega arith), refl)
  loop-Counted (d ∷ ds) m s o =
      Counted-bind m (dispatch d m) (λ m'. loop ds m') (reported_dispatch d) (reported_loop ds)
        (λ m'. ObeysLoop ds m') s o.1 (dispatch-Counted d m s o.0)
        (λ m' q s'. loop-Counted ds m' s' q)

pub seen_loop-Parallel :
    (url : ℕ → Text) (ds : List Dispatch) (b : Bodies)
    → Parallel url (seen_loop url ds b).1 (reported_loop ds)
unfolding seen_loop seen_dispatch reported_loop reported_dispatch
seen_loop-Parallel url [] b = refl
seen_loop-Parallel url (timer_fired a ∷ ds) b =
    let t = seen url a b in
    Parallel-append url t.1 (seen_loop url ds t.0).1 (reported a) (reported_loop ds)
      (seen-Parallel url a b) (seen_loop-Parallel url ds t.0)
seen_loop-Parallel url (socket_fired answer fd kind ∷ ds) b =
    let a = answer fd (action_of kind) in
    let t = seen url a b in
    Parallel-append url t.1 (seen_loop url ds t.0).1 (reported a) (reported_loop ds)
      (seen-Parallel url a b) (seen_loop-Parallel url ds t.0)
