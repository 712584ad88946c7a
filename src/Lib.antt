-- ===== src/Lib.antt =====
-- TGProxy: an HTTP proxy in front of the servers of a ranking model. A client posts the hashed
-- features of one request to /model_name/model_ver; the proxy cuts them into one slice per
-- partition, sends every slice that is not empty to a model server, and answers with the weights of
-- all slices, in order. The servers' addresses come from ZooKeeper, or else from a file.
--
-- The parts, and the files that model them (paths from the repository's root):
--   Slicer (TGProxy/tiangan/slicer.h): `RangeSlicer`, its ranges and both overloads of `slice`.
--     Search, Ranges, Slices, Cover and Unsorted prove what a slice holds.
--   Utils (TGProxy/utils/tgp_utils.cc): `split` with Split and Join; `isLAN` in Utils/Lan and
--     `getLocalIp` in Utils/LocalIp.
--   Conf (TGProxy/base/tgp_conf.cc, tgp_conf.h): `read_conf_file` and the settings.
--   Json: rapidjson, as a parameter.
--   MsConf (TGProxy/base/tgp_ms_conf.h): the file of model servers, `parse_ms_conf`,
--     `load_ms_conf_file`, `get_ms_parts` and `get_ms_list`; Push, Rows, Served, Loaded and Parts.
--   Cluster (TGProxy/cluster/tgp_zookeeper.cc, tgp_cluster_admin.cc, tgp_zk_watcher.cc): Zoo is the
--     C client of ZooKeeper, as a parameter; Zk, Nodes and Children the operations of the class `ZK`;
--     Admin the list of servers and the events that renew it; Names the texts of the log; Start,
--     Guards, Retries, Rotation and History prove what becomes of them.
--   Postman (TGProxy/postman/tgp_postman.cc, tgp_postman.h): one request's way. Postman.antt has
--     `checkRequest` and the encodings, Transfer has `tranferRequest`, `MSReplyCallback` and
--     `answerRequest`; Features, Requests and RoundTrip prove what is accepted; Callback, Send, Answers,
--     Matching and Delivery that the weights arrive; Ignored and Unanswered what happens where a server
--     is silent; Fallback where the host of a URL comes from, and Ready that the cluster has one; Order
--     compares the orders in which the responses complete, and Order/Bags has what completes without its
--     order. Wired registers the slices with the hub and runs it: Slices, Registers and Refines prove what
--     that is worth, Upto and Once how often a callback runs, Leaked what becomes of a handle that libcurl
--     refuses, and Answered that the weights arrive.
--   Proxy (TGProxy/proxy/): `TGProxyHandlerFactory::onRequest`, `TGProxyHandler`,
--     `TGPWrongHandler`, `TGProxyStats`, and `TGProxyServer` in Proxy/Server; Routes, Exchange, Refused;
--     Lifetime has a handler under every call of the HTTP library, up to its deletion; OnHub is a whole
--     request on the hub of libcurl, and Session requests one after the other.
--   Curl (TGProxy/tiangan/curl_helper.h): `MultiCURL`. Curl.antt has the handles, the sockets and the
--     traces of what libcurl calls; Handles what is done to one handle or socket, Handlers the callbacks
--     that call libcurl again; Obeys what libcurl promises, Seen what a trace delivers; Linked, Rounds,
--     Complete and Delivers prove that the one is worth the other, Sockets what is watched, Once and
--     Reported which handles are reported, and Recycled what is left of a handle. Easy is `EasyCURL`, and
--     Easy/Verbs what its requests leave.
--   Hub (TGProxy/tiangan/event_hub.h): `EventHub`, its loop, and what it registers; Registered, Loops,
--     Once and Recycled.
--   Log (TGProxy/base/tgp_log.cc): what glog is told.
--   Tiangan (TGProxy/tiangan/str.h, mpath.h, curl_helper.h, c_api.cc): `trim`, `get_mpath`,
--     `get_timeval` and `curl_header_cb`; Trim, Headers; CApi has `tiangan_get_mpath` and the slicer behind
--     a pointer, Hash the hash functions, and Params `replace_url_param_value`.
--   Main (TGProxy/main.cc): the order of the start; Outcomes and Serving.
--   Common: lists, bytes, decimal texts and runs that may stop. Examples: runs at concrete inputs.
--
-- How the program is seen. State is passed explicitly: a method takes the object's fields as a
-- record and gives the new record. An assertion, an uncaught exception or an access out of bounds
-- is `abort` of `Run`. Texts are lists of bytes. Keys are 64-bit numbers, and the products of the
-- slicer and the counts wrap; a key is compared and never computed with elsewhere. Each operation
-- of the cluster runs under its lock, so the threads are a sequence of steps (Cluster/History).
-- The postman sees its event loop as what completes: its callbacks run one by one on the completions
-- that it is given, in any order. Below that, a trace says what libcurl and libevent do: each dispatch
-- of the loop, each callback that libcurl makes meanwhile, also from within another, and each message.
-- Handles live in a store under their addresses, and a use of a deleted one is `abort`.
--
-- Loops are structural but for three. `lower_bound_loop` has one more round than the range has
-- keys, and each round makes the range shorter; `split_loop` has one more than the text has bytes,
-- and each round moves on; `wait_loop` has seven, and the code gives up behind the sixth.
--
-- Parameters: rapidjson (`Rapidjson`, with `Laws` for what its documentation promises of a document
-- that was built, written and read back), the C client of ZooKeeper (`Zoo`), boost's property tree,
-- the operating system's interface table, `fopen`, `getopt`, what the network delivers, and the traces of
-- libcurl and libevent, with `ObeysSlices` and `ObeysLoop` for what libcurl documents of its calls.
--
-- Not modelled: logging itself and clocks; `EasyCURL::escape`, which passes on to libcurl, and the
-- overloads of `register_event` for an event of the caller; the hash of murmur_hash3.cc, a third-party
-- copy that is a parameter; the destructors of the hub and of `MultiCURL`; the singleton of tgp_context.h, which is
-- the record `Shared`. A callback is given the client by value, so it registers nothing itself; the
-- postman's does not.
mod Common
pub mod Slicer
pub mod Utils
pub mod Conf
pub mod Curl
pub mod Hub
pub mod Log
pub mod Json
pub mod MsConf
pub mod Cluster
pub mod Postman
pub mod Proxy
pub mod Tiangan
pub mod Main
mod Examples
