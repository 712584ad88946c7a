-- ===== src/Hub.antt =====
-- tiangan/event_hub.h: the event loop of one postman. libevent runs the handlers of `MultiCURL`; which of
-- them it runs, and what libcurl does meanwhile, is given as a trace.
pub mod Registered
pub mod Loops
pub mod Once
pub mod Recycled
use tgproxy.Common.{
  ℕ, Bool, true, false, not, List, [], ◌∷◌, ◌++◌, Option, none, some, Text, Run, done, abort,
  assert, ◌>>=◌, ◌>>◌,
}
use tgproxy.Common.Int.{ℤ, pos, negsuc}
use tgproxy.Tiangan.{Timeval}
use tgproxy.Curl.{Callback, MultiCurl, Calls, Activity}
use tgproxy.Curl.Handles.{create}
use tgproxy.Curl.Handlers.{ev_timer_handler, ev_event_handler, add}

-- An event that was registered for a descriptor, or for the time alone.
pub record HubEvent : Type 0 where
  pub descriptor : Option ℕ
  pub which : ℕ
  pub timeout : Option Timeval
  pub is_freed : Bool

pub record EventHub (S : Type 0) : Type 0 where
  pub multi : MultiCurl S
  pub events : List HubEvent

-- What the loop dispatches: the timer, or an event of a socket, whose action libcurl answers.
pub data Dispatch : Type 0 where
  timer_fired : Activity → Dispatch
  socket_fired : (ℕ → ℕ → Activity) → ℕ → ℕ → Dispatch

-- `event_del` and `event_free` of each event: an event must not be freed twice.
unfoldable pub free_events : List HubEvent → Run (List HubEvent)
free_events [] = done []
free_events (ev ∷ evs) = do
  assert (not ev.is_freed)
  rest ← free_events evs
  done (record ev { is_freed = true } ∷ rest)

module _ {S : Type 0} where
  -- `MultiCURL(event_base)`.
  abbrev pub new_multi : S → MultiCurl S
  new_multi s = record {
    client = s;
    handles = [];
    added = [];
    sockets = [];
    ev_timer = none;
    still_running = pos 0;
  }

  -- `EventHub()`, which throws if there is no event base.
  unfoldable pub new_event_hub : Bool → S → Run (EventHub S)
  new_event_hub base s = do assert base; done (record { multi = new_multi s; events = [] })

  -- `register_event(url, cb, userp, timeout_ms, data, data_size, headers)`.
  unfoldable pub register_event :
      Text
      → Callback S
      → ℤ
      → Option Text
      → ℤ
      → List Text
      → Bool
      → Calls
      → EventHub S
      → Run (ℕ × EventHub S)
  unfolding create add
  register_event url cb timeout_ms bytes data_size headers ok calls hub = do
    (h, m) ← create url cb false timeout_ms bytes data_size headers hub.multi
    m' ← add h ok calls m
    done (h, record hub { multi = m' })

  -- `register_event(handle)`.
  unfoldable pub register_handle : ℕ → Bool → Calls → EventHub S → Run (EventHub S)
  unfolding add
  register_handle h ok calls hub = add h ok calls hub.multi >>= λ m. done (record hub { multi = m })

  -- `register_event(fd, which, cb, usrp, timeout)`.
  unfoldable pub register_fd : ℕ → ℕ → Option Timeval → EventHub S → EventHub S
  register_fd fd which timeout hub = record hub {
    events =
        hub.events
        ++ record { descriptor = some fd; which = which; timeout = timeout; is_freed = false } ∷ [];
  }

  -- `register_event(cb, usrp, timeout)`.
  unfoldable pub register_timer : Timeval → EventHub S → EventHub S
  register_timer timeout hub = record hub {
    events =
        hub.events
        ++ record { descriptor = none; which = 0; timeout = some timeout; is_freed = false } ∷ [];
  }

  -- One round of the loop: a timer that fires is no longer pending.
  unfoldable pub dispatch : Dispatch → MultiCurl S → Run (MultiCurl S)
  unfolding ev_timer_handler ev_event_handler
  dispatch (timer_fired a) m = ev_timer_handler a (record m { ev_timer = none })
  dispatch (socket_fired answer fd kind) m = ev_event_handler answer fd kind m

  -- `event_base_loop`, until no event is pending or the loop is stopped.
  unfoldable pub loop : List Dispatch → MultiCurl S → Run (MultiCurl S)
  unfolding dispatch
  loop [] m = done m
  loop (d ∷ ds) m = dispatch d m >>= λ m'. loop ds m'

  -- `start()`.
  unfoldable pub start_loop : List Dispatch → EventHub S → Run (EventHub S)
  unfolding loop free_events
  start_loop ds hub = do
    m ← loop ds hub.multi
    evs ← free_events hub.events
    done (record { multi = m; events = evs })
