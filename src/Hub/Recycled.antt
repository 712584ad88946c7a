-- ===== src/Hub/Recycled.antt =====
-- tiangan/event_hub.h: what becomes of the handles under a run of the loop.
use tgproxy.Common.{List, [], ◌∷◌, none, OnEnd}
use tgproxy.Curl.{action_of, MultiCurl}
use tgproxy.Curl.Handles.{handle_at}
use tgproxy.Curl.Handlers.{ev_event_handler}
use tgproxy.Curl.Recycled.{Lives-refl, Persists, Persists-bind, ev_timer_handler-Persists}
use tgproxy.Hub.{Dispatch, timer_fired, socket_fired, dispatch, loop}

module _ {S : Type 0} where
  dispatch-Persists : (d : Dispatch) (m : MultiCurl S) → OnEnd (Persists m) (dispatch d m)
  unfolding dispatch ev_event_handler
  dispatch-Persists (timer_fired a) m = ev_timer_handler-Persists a (record m { ev_timer = none })
  dispatch-Persists (socket_fired answer fd kind) m =
      ev_timer_handler-Persists (answer fd (action_of kind)) m

  -- Whatever libcurl and libevent do, a run of the loop that ends keeps every recycled handle, with its URL, its
  -- headers, its timeout, its data, its options and its callback: only the body and the headers of the
  -- response may be others, so it can be added again. A handle that is not recycled stays likewise or is
  -- deleted, and none comes back behind its deletion.
  pub loop-Persists : (ds : List Dispatch) (m : MultiCurl S) → OnEnd (Persists m) (loop ds m)
  unfolding loop
  loop-Persists [] m = λ h. Lives-refl (handle_at m h)
  loop-Persists (d ∷ ds) m =
      Persists-bind m (dispatch d m) (λ m'. loop ds m') (dispatch-Persists d m)
        (λ m1. loop-Persists ds m1)
