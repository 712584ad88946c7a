-- ===== src/Examples/Servers.antt =====
-- The cluster against a ZooKeeper that answers after two polls.
use tgproxy.Common.{
  ℕ, ◌+◌, ◌<◌, ◌≡◌, refl, Bool, true, false, List, [], ◌∷◌, some, Text, codes, ltb, if◌then◌else◌,
  arith,
}
use tgproxy.Common.Int.{pos}
use tgproxy.Conf.{Conf}
use tgproxy.Cluster.Zoo.{Zoo, Code, State}
use tgproxy.Cluster.Zk.{Zk, new_zk, start_zk}
use tgproxy.Cluster.Start.{Starts, start_zk-Starts}
use tgproxy.Cluster.Children.{tgp_ok, get_chdnodes}
use tgproxy.Cluster.Retries.{Listed, get_chdnodes_ok}
use tgproxy.Cluster.Admin.{Admin, new_admin, get_one_ms_addr, loop_round, update_model_server_list}
use tgproxy.Cluster.Rotation.{after_calls, get_one_ms_addr-turns}
use tgproxy.Cluster.History.{
  Updates, update_model_server_list-Updates, round, here, next, Serves, Reach-Serves,
}
use tgproxy.Postman.Transfer.{Shared}

abbrev names : List Text
names = codes "b:2" ∷ codes "lock" ∷ codes "a:1" ∷ []

-- The world is the time.
abbrev pub toy_zoo : Zoo
toy_zoo = record {
  World = ℕ;
  init = λ addr w. (some 7, w);
  close = λ h w. w;
  sleep = λ n w. w + n;
  zoo_state = λ h w. (if ltb w 2 then State.connecting else State.connected, w);
  zoo_exists = λ h path w. (Code.zok, w);
  zoo_wexists = λ h path w. (Code.zok, w);
  zoo_create = λ h path value temporary w. (Code.zok, w);
  zoo_set = λ h path value w. (Code.znonode, w);
  zoo_get = λ h path w. ((Code.zok, []), w);
  zoo_wget = λ h path w. ((Code.zok, []), w);
  zoo_get_children = λ h path w. ((Code.zok, names), w);
  zoo_wget_children = λ h path w. ((Code.zok, names), w);
}

abbrev pub settings : Conf
settings = record {
  http_port = pos 0;
  proxy_threadnum = pos 4;
  ms_zk_path = codes "/ms";
  zookeeper_address = codes "zk:2181";
  zk_log_dir = [];
  zk_log_name = [];
  ms_config_file = codes "ms.json";
  logtostderr = true;
  log_dir = [];
}

abbrev pub no_file : Text → Bool
no_file path = false

abbrev open_zk : Zk
open_zk = record new_zk { zzh = some 7 }

abbrev pub two_servers : Admin
two_servers = record new_admin { ms_cluster = codes "a:1" ∷ codes "b:2" ∷ [] }

start_zk-Starts_example : Starts toy_zoo new_zk 0 (start_zk toy_zoo new_zk 0)
start_zk-Starts_example = start_zk-Starts toy_zoo new_zk 0

chdnodes_listed :
    get_chdnodes toy_zoo open_zk (codes "/ms") [] 3 ≡ ((tgp_ok, codes "a:1" ∷ codes "b:2" ∷ []), 3)
unfolding get_chdnodes tgproxy.Cluster.Children.zk_wget_chdnodes tgproxy.Cluster.Children.retry_loop
    tgproxy.Cluster.Children.sort_nodes tgproxy.Cluster.Children.not_above
chdnodes_listed = refl

get_chdnodes_ok_example : Listed toy_zoo open_zk (codes "/ms") (codes "a:1" ∷ codes "b:2" ∷ []) 3
get_chdnodes_ok_example =
    get_chdnodes_ok toy_zoo open_zk (codes "/ms") 3 (codes "a:1" ∷ codes "b:2" ∷ []) 3
      chdnodes_listed

update_model_server_list-Updates_example :
    Updates toy_zoo no_file settings two_servers 3
      (update_model_server_list toy_zoo no_file settings two_servers 3)
update_model_server_list-Updates_example =
    update_model_server_list-Updates toy_zoo no_file settings two_servers 3

-- The admin behind its first rounds: it starts, and then takes the list.
abbrev first_round : Admin × ℕ
first_round = loop_round toy_zoo no_file settings new_admin 0

abbrev second_round : Admin × ℕ
second_round = loop_round toy_zoo no_file settings first_round.0 first_round.1

Reach-Serves_example : Serves toy_zoo no_file settings second_round.0
Reach-Serves_example =
    Reach-Serves toy_zoo no_file settings 0 second_round.0 second_round.1
      (next (next here (round new_admin 0)) (round first_round.0 first_round.1))

get_one_ms_addr-turns_example :
    (k : ℕ) × (k < 2) × ((get_one_ms_addr (after_calls k two_servers)).0 ≡ codes "a:1")
get_one_ms_addr-turns_example = get_one_ms_addr-turns two_servers 0 (omega arith) (omega arith)

abbrev shared_then : Shared
shared_then = record {
  admin = second_round.0;
  ms_conf = record { ms_conf = []; key = [] };
  url_count = 0;
}
