-- ===== src/Examples/Replies.antt =====
-- Replies that do not come, requests that are slices, and hosts of the file.
use tgproxy.Common.{ℕ, ◌≡◌, refl, List, [], ◌∷◌, Text, codes, ◌>>=◌, done, arith}
use tgproxy.MsConf.{MsConfFile}
use tgproxy.MsConf.Loaded.{HasServers}
use tgproxy.Cluster.Admin.{new_admin}
use tgproxy.Postman.{Postman, ok, check_request, encode_slice}
use tgproxy.Postman.Transfer.{Shared, Completion, url_of, get_ms_url}
use tgproxy.Postman.Delivery.{requested}
use tgproxy.Postman.RoundTrip.{check_request-encode_slice}
use tgproxy.Postman.Unanswered.{expected_reply}
use tgproxy.Postman.Fallback.{Source, get_ms_url-Source}
use tgproxy.Examples.Documents.{toy}
use tgproxy.Examples.Documents.Laws.{toy_laws, toy_reply, toy_score}
use tgproxy.Examples.Keys.{two_keys}
use tgproxy.Proxy.Lifetime.{called, served_calls, new_handler, gone, called-handled}
use tgproxy.Proxy.{model, answered_by, handled}
use tgproxy.Examples.Requests.{rows_conf, shared, toy_net}

abbrev blank : Postman
blank = requested 2 (codes "news") (codes "7") []

check_request-encode_slice_example :
    check_request toy blank (encode_slice toy two_keys)
    ≡ done (record blank { features = two_keys }, ok)
check_request-encode_slice_example =
    check_request-encode_slice toy toy_laws blank two_keys refl (λ e. cc)
      (omega arith, (omega arith, tt))

abbrev slices : List (List ℕ)
slices = (5 ∷ []) ∷ (9 ∷ []) ∷ []

abbrev sent : Postman
sent = record blank { slices = slices }

-- Partition 1 answers, and partition 0 fails.
abbrev answer_of_1 : Completion
answer_of_1 = record {
  url = url_of sent (codes "b:2") 1;
  http_code = 200;
  recv_data = expected_reply toy toy_reply toy_score slices 1;
}

abbrev failure_of_0 : Completion
failure_of_0 = record { url = url_of sent (codes "a:1") 0; http_code = 500; recv_data = [] }

abbrev empty_file : MsConfFile
empty_file = record { ms_conf = []; key = [] }

-- The cluster has no server, and the file has a row for two partitions.
abbrev from_rows : Shared
from_rows = record {
  admin = new_admin;
  ms_conf = record { ms_conf = (codes "main", rows_conf) ∷ []; key = codes "main" };
  url_count = 0;
}

get_ms_url-Source_example :
    (host : Text) × (s' : Shared) × (get_ms_url blank from_rows 1 ≡ done (url_of blank host 1, s'))
    × Source from_rows 1 host
    × (s'.admin.ms_cluster ≡ [])
    × HasServers s'.ms_conf
unfolding tgproxy.MsConf.at_key tgproxy.MsConf.lookup
get_ms_url-Source_example =
    get_ms_url-Source blank from_rows 1 tt (((λ e. cc), ((λ e. cc), tt)), tt) (omega arith)
      (omega arith)

-- A body that is no document.
abbrev junk : Text
junk = codes "x"

called-handled_example :
    called toy
      (answered_by toy toy_net)
      (model (codes "news") (codes "7"))
      (served_calls toy (answered_by toy toy_net) (codes "{" ∷ codes "}" ∷ []))
      (new_handler toy (answered_by toy toy_net) shared 4)
    ≡ (handled toy
          (answered_by toy toy_net)
          (model (codes "news") (codes "7"))
          (codes "{" ∷ codes "}" ∷ [])
          shared
          4
        >>= λ r. done (gone toy (answered_by toy toy_net) r))
called-handled_example =
    called-handled toy (answered_by toy toy_net) (model (codes "news") (codes "7"))
      (codes "{" ∷ codes "}" ∷ []) shared 4
