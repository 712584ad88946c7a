-- ===== src/Examples/Answers.antt =====
-- A request for two keys on the hub: the second slice is answered first, in two chunks.
use mathlib.Core.List.{Permᴰ}
use tgproxy.Common.{
  ℕ, ◌+◌, ◌^◌, ◌≡◌, refl, true, List, [], ◌∷◌, ◌++◌, map, Text, codes, some, length, drop, take,
  done, OnEnd, arith,
}
use tgproxy.Common.Int.{pos}
use tgproxy.Curl.{silent, wrote, acted, no_more, finished}
use tgproxy.Hub.{Dispatch, timer_fired}
use tgproxy.Hub.Loops.{ObeysLoop}
use tgproxy.Postman.{Event, Postman, encode_slice, encode_ranking_weights}
use tgproxy.Postman.Transfer.{Shared, replied, url_of, transfer_request}
use tgproxy.Postman.Matching.{served_by}
use tgproxy.Postman.Wired.{Adding, register_slices, ObeysSlices, completions, hub_of}
use tgproxy.Postman.Wired.Answered.{answer_on_hub}
use tgproxy.Examples.Documents.{toy}
use tgproxy.Examples.Documents.Laws.{toy_laws, toy_reply, toy_score, toy-IsScored}
use tgproxy.Examples.Keys.{two_keys, two-IsSorted, two-low}
use tgproxy.MsConf.{get_ms_parts}
use tgproxy.Proxy.{exchange}
use tgproxy.Proxy.OnHub.{exchange_on_hub}
use tgproxy.Examples.Requests.{
  shared, shared-IsReady, asked, request_body, body-IsRequest, to_news, parts,
}

abbrev lower : Event
lower = record { url = codes "b:2/1/news/7/0"; body = encode_slice toy (5 ∷ []); timeout_ms = 2000 }

abbrev upper : Event
upper = record {
  url = codes "a:1/1/news/7/1";
  body = encode_slice toy ((2 ^ 63 + 9) ∷ []);
  timeout_ms = 2000;
}

abbrev posted : Postman
posted = record asked { slices = (5 ∷ []) ∷ ((2 ^ 63 + 9) ∷ []) ∷ []; hub = lower ∷ upper ∷ [] }

abbrev used : Shared
used = record shared { admin = record shared.admin { count = 2 } }

left : transfer_request toy asked [] shared ≡ done (posted, [], used)
unfolding transfer_request tgproxy.Slicer.slice tgproxy.Slicer.copy_loop tgproxy.Slicer.positions
    tgproxy.Slicer.new_slicer tgproxy.Slicer.range_loop tgproxy.Slicer.position_loop
    tgproxy.Slicer.lower_bound tgproxy.Slicer.lower_bound_loop encode_slice
    tgproxy.Postman.Transfer.get_ms_url tgproxy.Postman.Transfer.hostname_of
    tgproxy.Cluster.Admin.get_one_ms_addr tgproxy.Common.Decimal.to_string
left = refl

abbrev both : List (Event × Adding)
both =
    (lower, record { is_added = true; calls = silent })
    ∷ (upper, record { is_added = true; calls = silent })
    ∷ []

-- The chunks of the second answer come around the first answer.
abbrev answering : List Dispatch
answering =
    timer_fired (acted (wrote 1 (take 1 (toy_reply upper.body)) silent) true (pos 2) no_more)
    ∷ timer_fired (
        acted (wrote 0 (toy_reply lower.body) (wrote 1 (drop 1 (toy_reply upper.body)) silent)) true
          (pos 0) (finished 1 0 200 silent (finished 0 0 200 silent no_more)))
    ∷ []

both_obey : ObeysSlices both (hub_of posted)
unfolding ObeysSlices tgproxy.Curl.Handles.create tgproxy.Curl.copied tgproxy.Hub.register_event
    tgproxy.Curl.Handlers.add tgproxy.Curl.Handlers.run_calls tgproxy.Curl.Obeys.ObeysCalls
    encode_slice
both_obey = (refl, (λ x e. tt), (refl, (λ x e. tt), tt))

answering_obeys :
    OnEnd (λ hub. ObeysLoop answering hub.multi) (register_slices both (hub_of posted))
unfolding register_slices ObeysLoop tgproxy.Curl.Handles.create tgproxy.Curl.copied
    tgproxy.Hub.register_event tgproxy.Curl.Handlers.add tgproxy.Curl.Handlers.run_calls
    tgproxy.Curl.Obeys.ObeysCalls tgproxy.Curl.Obeys.Obeys tgproxy.Hub.Loops.ObeysDispatch
    tgproxy.Hub.dispatch tgproxy.Curl.Handlers.ev_timer_handler tgproxy.Curl.Handles.curl_write_cb
    tgproxy.Curl.Handles.complete tgproxy.Curl.Handles.call_back
    tgproxy.Postman.Transfer.ms_reply_callback tgproxy.Postman.Transfer.partition_save
    tgproxy.Postman.Transfer.save_at tgproxy.Postman.Transfer.save_result
    tgproxy.Postman.Transfer.after_slash tgproxy.Common.Decimal.stoi encode_slice
answering_obeys =
    (((refl, tt), λ e. tt), ((((refl, (refl, tt))), λ e. (refl, tt, (refl, tt, tt))), tt))

answering_completes :
    Permᴰ (map (served_by toy_reply) (lower ∷ upper ∷ [])) (completions both answering)
unfolding completions tgproxy.Curl.Seen.seen_calls tgproxy.Hub.Loops.seen_loop
    tgproxy.Hub.Loops.seen_dispatch tgproxy.Curl.Seen.seen tgproxy.Postman.Wired.seen_slices
    encode_slice
answering_completes = Permᴰ.swap refl refl

left_behind_parts :
    transfer_request toy asked [] (record shared { ms_conf = (get_ms_parts shared.ms_conf []).1 })
    ≡ done (posted, [], used)
unfolding get_ms_parts tgproxy.MsConf.at_key tgproxy.MsConf.lookup tgproxy.MsConf.insert
left_behind_parts = left

exchange_on_hub_example :
    exchange toy (answer_on_hub toy both answering) (codes "/news/7") (request_body ∷ []) shared 0
    ≡ done (
      record { status = 200; body = some (encode_ranking_weights toy (map toy_score two_keys)) },
      used,
      1,
    )
exchange_on_hub_example =
    exchange_on_hub toy toy_laws toy_reply toy_score 2 (codes "/news/7") (codes "news") (codes "7")
      (request_body ∷ []) two_keys shared used 0 posted both answering to_news (λ e. cc)
      body-IsRequest parts (omega arith) (omega arith) two-IsSorted two-low shared-IsReady
      (λ sl small there. toy-IsScored sl) left_behind_parts refl both_obey answering_obeys
      answering_completes
