-- ===== src/Examples/Leaks.antt =====
-- Behind two slices on a hub libcurl refuses a third one, and the loop goes on with the two.
use tgproxy.Common.{◌≡◌, refl, [], ◌∷◌, some, codes, length, Run, done, abort, OnEnd, List}
use tgproxy.Curl.Handles.{handle_at, clear}
use tgproxy.Curl.Once.{count}
use tgproxy.Hub.{EventHub, loop}
use tgproxy.Hub.Loops.{ObeysLoop}
use tgproxy.Hub.Once.{reported_loop}
use tgproxy.Postman.{Event, Postman}
use tgproxy.Postman.Wired.{register_slices, hub_of}
use tgproxy.Postman.Wired.Slices.{handle_of}
use tgproxy.Postman.Wired.Leaked.{refused_slice, after_refusal, refused_slice-leaks}
use tgproxy.Examples.Hubs.{asking, added_slices, rounds, slices_obey}

abbrev third_slice : Event
third_slice = record { url = codes "c/1"; body = codes "z"; timeout_ms = 2000 }

abbrev ended : Run (EventHub Postman) → EventHub Postman
ended (done hub) = hub
ended abort = hub_of asking

abbrev two_on_hub : EventHub Postman
two_on_hub = ended (register_slices added_slices (hub_of asking))

two_registered : register_slices added_slices (hub_of asking) ≡ done two_on_hub
unfolding register_slices tgproxy.Curl.Handles.create tgproxy.Curl.copied tgproxy.Hub.register_event
    tgproxy.Curl.Handlers.add tgproxy.Curl.Handlers.run_calls tgproxy.Curl.Obeys.ObeysCalls
    tgproxy.Curl.Obeys.Obeys tgproxy.Hub.Loops.ObeysDispatch tgproxy.Hub.dispatch
    tgproxy.Curl.Handlers.ev_event_handler tgproxy.Curl.Handlers.ev_timer_handler
two_registered = refl

refused_obeys : ObeysLoop rounds (after_refusal third_slice two_on_hub).multi
unfolding register_slices ObeysLoop tgproxy.Curl.Handles.create tgproxy.Curl.copied
    tgproxy.Hub.register_event tgproxy.Curl.Handlers.add tgproxy.Curl.Handlers.run_calls
    tgproxy.Curl.Obeys.ObeysCalls tgproxy.Curl.Obeys.Obeys tgproxy.Hub.Loops.ObeysDispatch
    tgproxy.Hub.dispatch tgproxy.Curl.Handlers.ev_event_handler
    tgproxy.Curl.Handlers.ev_timer_handler tgproxy.Curl.Handles.curl_sock_handler
    tgproxy.Curl.socket_at tgproxy.Curl.without_socket tgproxy.Curl.Handles.curl_write_cb
    tgproxy.Curl.Handles.header_cb tgproxy.Curl.Handles.complete tgproxy.Curl.Handles.call_back
    tgproxy.Postman.Transfer.ms_reply_callback tgproxy.Postman.Transfer.partition_save
    tgproxy.Postman.Transfer.save_at tgproxy.Postman.Transfer.save_result
    tgproxy.Postman.Transfer.after_slash tgproxy.Common.Decimal.stoi tgproxy.Tiangan.curl_header_cb
    tgproxy.Curl.kind_of
refused_obeys = (
  ((refl, (refl, tt)), λ e. tt),
  (((refl, (refl, (refl, tt))), λ e. (refl, (refl, tt), tt)), ((tt, λ e. (refl, tt, tt)), tt)),
)

refused_slice-leaks_example :
    (refused_slice third_slice two_on_hub ≡ done (2, after_refusal third_slice two_on_hub))
    × OnEnd
        (λ m.
          (handle_at m 2 ≡ some (clear (handle_of third_slice)))
          × (count 2 (reported_loop rounds) ≡ 0))
        (loop rounds (after_refusal third_slice two_on_hub).multi)
refused_slice-leaks_example =
    refused_slice-leaks asking added_slices third_slice two_on_hub rounds slices_obey two_registered
      refused_obeys
