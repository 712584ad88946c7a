-- ===== src/Examples/Recycling.antt =====
-- A recycled handle is answered in two chunks, completes, and is added again.
use tgproxy.Common.{◌≡◌, refl, true, List, [], ◌∷◌, none, some, Text, codes, done, OnEnd}
use tgproxy.Common.Int.{pos}
use tgproxy.Curl.{Callback, CurlHandle, MultiCurl, silent, wrote, headed, acted, no_more, finished}
use tgproxy.Curl.Handles.{handle_at, clear}
use tgproxy.Curl.Handlers.{add, taken}
use tgproxy.Curl.Recycled.{Persists}
use tgproxy.Hub.{Dispatch, timer_fired, loop}
use tgproxy.Hub.Recycled.{loop-Persists}

-- The client collects the bodies.
abbrev collects : Callback (List Text)
collects res code fields s = done (fields.recv_data ∷ s)

abbrev holding : Text → CurlHandle (List Text)
holding body = record {
  fields = record {
    url = codes "h";
    sheaders = [];
    timeout_ms = pos 2000;
    send_data = [];
    recv_data = body;
    rheaders = [];
    recycled = true;
  };
  options = record {
    url_option = codes "h";
    http_header = [];
    post_fields = none;
    timeout_option = pos 2000;
  };
  cb = some collects;
}

abbrev one_recycled : MultiCurl (List Text)
one_recycled = record {
  client = [];
  handles = some (holding []) ∷ [];
  added = 0 ∷ [];
  sockets = [];
  ev_timer = none;
  still_running = pos 1;
}

abbrev one_answer : List Dispatch
one_answer =
    timer_fired (
      acted (wrote 0 (codes "o") (wrote 0 (codes "k") silent)) true (pos 0)
        (finished 0 0 200 silent no_more))
    ∷ []

abbrev answered_once : MultiCurl (List Text)
answered_once = record one_recycled {
  client = codes "ok" ∷ [];
  handles = some (holding (codes "ok")) ∷ [];
  added = [];
  still_running = pos 0;
}

answers : loop one_answer one_recycled ≡ done answered_once
unfolding loop tgproxy.Hub.dispatch tgproxy.Curl.Handlers.ev_timer_handler
    tgproxy.Curl.Handlers.run_calls tgproxy.Curl.Handles.curl_write_cb tgproxy.Curl.Handles.complete
    tgproxy.Curl.Handles.call_back
answers = refl

added_again :
    add 0 true silent answered_once
    ≡ done (record one_recycled { client = codes "ok" ∷ []; still_running = pos 0 })
unfolding add tgproxy.Curl.Handlers.run_calls
added_again = refl

loop-Persists_example : OnEnd (Persists one_recycled) (loop one_answer one_recycled)
loop-Persists_example = loop-Persists one_answer one_recycled
