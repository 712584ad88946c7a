-- ===== src/Examples/Requests.antt =====
-- A request at the small JSON library, for two partitions.
use mathlib.Core.List.Permᴰ
use tgproxy.Common.{
  take, drop, ◌-◌, ◌^◌, ℕ, ◌≡◌, ◌↔◌, refl, List, [], ◌∷◌, ◌++◌, map, Text, codes, done, arith,
}
use tgproxy.Common.Int.{pos}
use tgproxy.MsConf.{MsConf, MsConfFile, no_conf, get_ms_parts, parse_ms_conf}
use tgproxy.MsConf.Rows.{
  trimmed, conf_with, no_entry, entry, Rows, no_row, row_of, parse_ms_conf-trimmed,
}
use tgproxy.Postman.{Event, Postman, ok, check_request}
use tgproxy.Postman.Transfer.{Shared, Completion, url_of}
use tgproxy.Postman.Send.{IsReady}
use tgproxy.Postman.Matching.{served_by}
use tgproxy.Postman.Delivery.{requested}
use tgproxy.Postman.Requests.{IsRequest, check_request-IsRequest}
use tgproxy.Proxy.{Response, model, route, answered_by, exchange}
use tgproxy.Proxy.Exchange.{exchange-concat}
use tgproxy.Proxy.Session.{Asked, IsAsked, weighed, exchanges, exchanges-deliver}
use tgproxy.Examples.Documents.{
  Doc, text, array, object, docs, no_docs, members, no_members, numbers_doc, of_list, toy,
}
use tgproxy.Examples.Documents.Laws.{toy_laws, toy_reply, toy_score, toy-IsScored}
use tgproxy.Examples.Keys.{two_keys, two-IsSorted, two-low}
use tgproxy.Examples.Servers.{two_servers}

abbrev pub rows_conf : MsConf
rows_conf = record {
  name = codes "news";
  version = codes "7";
  ms_lists = (codes "a:1" ∷ []) ∷ (codes "b:2" ∷ []) ∷ [];
}

abbrev pub shared : Shared
shared = record {
  admin = two_servers;
  ms_conf = record { ms_conf = (codes "main", rows_conf) ∷ []; key = codes "main" };
  url_count = 0;
}

pub shared-IsReady : IsReady shared
shared-IsReady = record { servers = λ e. cc; named = ((λ e. cc), ((λ e. cc), tt)) }

abbrev pub asked : Postman
asked = requested 2 (codes "news") (codes "7") two_keys

-- The bytes of a request for the two keys.
abbrev pub request_body : Text
request_body = 1 ∷ 9 ∷ map ℕ.suc (codes "features" ++ two_keys)

pub body-IsRequest : IsRequest toy request_body two_keys
body-IsRequest = record {
  document = numbers_doc (codes "features") two_keys;
  array = array (of_list (map (λ n. tgproxy.Examples.Documents.integer (pos n)) two_keys));
  values = map (λ n. tgproxy.Examples.Documents.integer (pos n)) two_keys;
  parsed = refl;
  object = refl;
  member = refl;
  viewed = refl;
  numbers = (refl, (refl, tt));
  there = λ e. cc;
  counted = refl;
}

pub to_news : route (codes "/news/7") ≡ done (model (codes "news") (codes "7"))
unfolding route tgproxy.Proxy.route_terms tgproxy.Proxy.routed tgproxy.Utils.split
    tgproxy.Utils.find_first_of tgproxy.Utils.first_of tgproxy.Utils.substr
to_news = refl

pub parts : (get_ms_parts shared.ms_conf []).0 ≡ pos 2
unfolding get_ms_parts tgproxy.MsConf.at_key tgproxy.MsConf.lookup
parts = refl

abbrev pub toy_net : List Event → List Completion
toy_net es = map (served_by toy_reply) es

-- Requests for the two keys, in one chunk and in two.
abbrev asked_whole : Asked
asked_whole = record {
  url = codes "/news/7";
  name = codes "news";
  ver = codes "7";
  chunks = request_body ∷ [];
  features = two_keys;
}

abbrev asked_in_chunks : Asked
asked_in_chunks = record asked_whole { chunks = take 3 request_body ∷ drop 3 request_body ∷ [] }

whole-IsAsked : IsAsked toy 2 asked_whole
whole-IsAsked = record {
  to_model = to_news;
  there = λ e. cc;
  request = body-IsRequest;
  sorted = two-IsSorted;
  low = two-low;
}

in_chunks-IsAsked : IsAsked toy 2 asked_in_chunks
in_chunks-IsAsked = record {
  to_model = to_news;
  there = λ e. cc;
  request = body-IsRequest;
  sorted = two-IsSorted;
  low = two-low;
}

exchanges-deliver_example :
    (s' : Shared) × (exchanges toy
        (answered_by toy toy_net)
        (asked_whole ∷ asked_in_chunks ∷ asked_whole ∷ [])
        shared
        (2 ^ 64 - 1)
      ≡ done
          (map (weighed toy toy_score) (asked_whole ∷ asked_in_chunks ∷ asked_whole ∷ []), s', 2))
exchanges-deliver_example =
    exchanges-deliver toy toy_laws toy_net toy_reply toy_score 2
      (asked_whole ∷ asked_in_chunks ∷ asked_whole ∷ []) shared (2 ^ 64 - 1)
      (whole-IsAsked, (in_chunks-IsAsked, (whole-IsAsked, tt))) parts (omega arith) (omega arith)
      shared-IsReady (omega arith) (λ sl small there. toy-IsScored sl)
      (λ es. Permᴰ.refl (map (served_by toy_reply) es))

exchange-concat_example :
    exchange toy
      (answered_by toy toy_net)
      (codes "/news/7")
      (codes "ab" ∷ codes "" ∷ codes "c" ∷ [])
      shared
      0
    ≡ exchange toy (answered_by toy toy_net) (codes "/news/7") (codes "abc" ∷ []) shared 0
exchange-concat_example =
    exchange-concat toy (answered_by toy toy_net) (codes "/news/7")
      (codes "ab" ∷ codes "" ∷ codes "c" ∷ []) (codes "abc" ∷ []) shared 0 refl

check_request-IsRequest_example :
    (check_request toy (requested 2 (codes "news") (codes "7") []) request_body ≡ done (asked, ok))
    ↔ (IsRequest toy request_body two_keys × (asked ≡ asked))
check_request-IsRequest_example =
    check_request-IsRequest toy (requested 2 (codes "news") (codes "7") []) asked request_body refl

abbrev reply_of_1 : Completion
reply_of_1 = record { url = url_of asked (codes "a:1") 1; http_code = 200; recv_data = codes "x" }

-- A row with an address, and an empty row behind it.
abbrev row_docs : List Doc
row_docs = array (docs (text (codes "a:1")) no_docs) ∷ array no_docs ∷ []

abbrev conf_doc : Doc
conf_doc = object (
    members (codes "name") (text (codes "news")) (
      members (codes "version") (text (codes "7"))
        (members (codes "ms_list") (array (of_list row_docs)) no_members)))

row_docs-Rows : Rows toy row_docs ((codes "a:1" ∷ []) ∷ [] ∷ [])
row_docs-Rows =
    row_of _ _ (text (codes "a:1") ∷ []) (codes "a:1" ∷ []) _ refl
      (entry _ _ b'a' (codes ":1") _ refl no_entry) (row_of _ _ [] [] _ refl no_entry no_row)

parse_ms_conf-trimmed_example :
    parse_ms_conf toy conf_doc no_conf
    ≡ conf_with toy (codes "news") (codes "7") (trimmed ((codes "a:1" ∷ []) ∷ [] ∷ []))
parse_ms_conf-trimmed_example =
    parse_ms_conf-trimmed toy conf_doc (text (codes "news")) (text (codes "7"))
      (array (of_list row_docs)) (codes "news") (codes "7") row_docs ((codes "a:1" ∷ []) ∷ [] ∷ [])
      refl refl refl refl refl refl row_docs-Rows
