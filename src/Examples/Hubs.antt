-- ===== src/Examples/Hubs.antt =====
-- Two slices on a hub: the second is answered in two chunks while the sockets come and go, and the
-- first fails.
use tgproxy.Common.{◌≡◌, refl, true, List, [], ◌∷◌, ◌>>=◌, none, some, Text, codes, done, OnEnd}
use tgproxy.Common.Int.{pos}
use tgproxy.Curl.{
  Calls, silent, wrote, headed, polled, timed, Activity, acted, no_more, finished, noted,
}
use tgproxy.Hub.{Dispatch, timer_fired, socket_fired, EventHub}
use tgproxy.Hub.Loops.{ObeysLoop}
use tgproxy.Postman.{Event, Postman}
use tgproxy.Postman.Transfer.{Completion, start_hub}
use tgproxy.Postman.Delivery.{requested}
use tgproxy.Postman.Wired.{Adding, register_slices, ObeysSlices, completions, hub_of, run_slices}
use tgproxy.Postman.Wired.Refines.{IsClean, run_slices-start_hub, run_slices-IsClean}

abbrev pub asking : Postman
asking = requested 2 (codes "m") (codes "7") []

abbrev quiet : Activity
quiet = acted silent true (pos 2) no_more

-- The first slice starts the timer, the second adds nothing.
abbrev pub added_slices : List (Event × Adding)
added_slices =
    (
      record { url = codes "a/0"; body = codes "x"; timeout_ms = 2000 },
      record { is_added = true; calls = timed (some 5) quiet silent },
    )
    ∷ (
      record { url = codes "b/1"; body = codes "y"; timeout_ms = 2000 },
      record { is_added = true; calls = silent },
    )
    ∷ []

-- The timer opens two sockets; then one is read twice, and closed, while the other fails.
abbrev pub rounds : List Dispatch
rounds =
    timer_fired (acted (polled 0 7 2 (polled 1 8 1 silent)) true (pos 2) no_more)
    ∷ socket_fired
        (λ fd action.
          acted (headed 1 (codes "A: b") (wrote 1 (codes "o") (wrote 1 (codes "k") silent))) true
            (pos 1) (noted (finished 1 0 200 (polled 1 8 4 silent) no_more)))
        8 2
    ∷ socket_fired (λ fd action. acted silent true (pos 0) (finished 0 28 0 silent no_more)) 7 4
    ∷ []

pub slices_obey : ObeysSlices added_slices (hub_of asking)
unfolding ObeysSlices tgproxy.Curl.Handles.create tgproxy.Curl.copied tgproxy.Hub.register_event
    tgproxy.Curl.Handlers.add tgproxy.Curl.Handlers.run_calls tgproxy.Curl.Obeys.ObeysCalls
slices_obey = (refl, (λ x e. (tt, tt)), (refl, (λ x e. tt), tt))

rounds_obey :
    OnEnd (λ hub. ObeysLoop rounds hub.multi) (register_slices added_slices (hub_of asking))
unfolding register_slices ObeysLoop tgproxy.Curl.Handles.create tgproxy.Curl.copied
    tgproxy.Hub.register_event tgproxy.Curl.Handlers.add tgproxy.Curl.Handlers.run_calls
    tgproxy.Curl.Obeys.ObeysCalls tgproxy.Curl.Obeys.Obeys tgproxy.Hub.Loops.ObeysDispatch
    tgproxy.Hub.dispatch tgproxy.Curl.Handlers.ev_event_handler
    tgproxy.Curl.Handlers.ev_timer_handler tgproxy.Curl.Handles.curl_sock_handler
    tgproxy.Curl.socket_at tgproxy.Curl.without_socket tgproxy.Curl.Handles.curl_write_cb
    tgproxy.Curl.Handles.header_cb tgproxy.Curl.Handles.complete tgproxy.Curl.Handles.call_back
    tgproxy.Postman.Transfer.ms_reply_callback tgproxy.Postman.Transfer.partition_save
    tgproxy.Postman.Transfer.save_at tgproxy.Postman.Transfer.save_result
    tgproxy.Postman.Transfer.after_slash tgproxy.Common.Decimal.stoi tgproxy.Tiangan.curl_header_cb
    tgproxy.Curl.kind_of
rounds_obey = (
  ((refl, (refl, tt)), λ e. tt),
  (((refl, (refl, (refl, tt))), λ e. (refl, (refl, tt), tt)), ((tt, λ e. (refl, tt, tt)), tt)),
)

abbrev reported : List Completion
reported =
    record { url = codes "b/1"; http_code = 200; recv_data = codes "ok" }
    ∷ record { url = codes "a/0"; http_code = 0; recv_data = [] }
    ∷ []

run_slices-start_hub_example :
    (run_slices added_slices rounds asking >>= λ hub. done hub.multi.client)
    ≡ start_hub asking reported
unfolding completions tgproxy.Curl.Seen.seen_calls tgproxy.Hub.Loops.seen_loop
    tgproxy.Hub.Loops.seen_dispatch tgproxy.Curl.Seen.seen tgproxy.Postman.Wired.seen_slices
run_slices-start_hub_example =
    run_slices-start_hub asking added_slices rounds slices_obey rounds_obey

answered_postman :
    start_hub asking (completions added_slices rounds)
    ≡ done (record asking { weights = [] ∷ codes "ok" ∷ [] })
unfolding completions tgproxy.Curl.Seen.seen_calls tgproxy.Hub.Loops.seen_loop
    tgproxy.Hub.Loops.seen_dispatch tgproxy.Curl.Seen.seen tgproxy.Postman.Wired.seen_slices
    start_hub tgproxy.Postman.Transfer.ms_reply_callback tgproxy.Postman.Transfer.partition_save
    tgproxy.Postman.Transfer.save_at tgproxy.Postman.Transfer.save_result
    tgproxy.Postman.Transfer.after_slash tgproxy.Common.Decimal.stoi
answered_postman = refl

run_slices-IsClean_example :
    (hub : EventHub Postman) × (run_slices added_slices rounds asking ≡ done hub) × IsClean hub
run_slices-IsClean_example =
    run_slices-IsClean asking (record asking { weights = [] ∷ codes "ok" ∷ [] }) added_slices rounds
      slices_obey rounds_obey answered_postman
