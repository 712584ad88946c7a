-- ===== src/Main.antt =====
-- main.cc: the start of the proxy. The options that `getopt` finds, the files, the machine's address
-- and its processors are parameters; the loop of the HTTP server has ended where a run ends. The
-- thread of `startZkProcess` and the log are left out.
pub mod Outcomes
pub mod Serving
use tgproxy.Common.{
  ℕ, zero, suc, Bool, true, false, List, [], ◌∷◌, Option, none, some, Text, empty, ◌==◌,
  if◌then◌else◌, Run, done, abort, ◌>>=◌,
}
use tgproxy.Common.Int.{ℤ, pos, negsuc}
use tgproxy.Conf.{Ptree, Conf, read_conf_file}
use tgproxy.Json.{Rapidjson}
use tgproxy.MsConf.{MsConfFile, load_ms_conf_file}
use tgproxy.Cluster.Zoo.{Zoo}
use tgproxy.Cluster.Admin.{Admin, new_admin, start_zk_process, stop_zk_process}
use tgproxy.Proxy.Server.{ProxyServer, Protocol, Started, set_http_server_ips, start}

-- The loop over the options: `conf_file` behind it.
unfoldable pub option_loop : List (ℕ × Text) → Text → Text
option_loop [] conf_file = conf_file
option_loop ((opt, optarg) ∷ opts) conf_file =
    if opt == b'c' then option_loop opts optarg else option_loop opts conf_file

-- `http_port`.
unfoldable pub chosen_port : ℤ → ℤ
chosen_port (pos (suc n)) = pos (suc n)
chosen_port _ = pos 11000

module _ (z : Zoo) (fopen : Text → Bool) (j : Rapidjson) (ini : Text → Option Ptree)
    (read_file : Text → Option Text) (local_ip : Text) (online : ℤ) (uninit : Conf) where
  open z use {World}

  -- The server from its construction to the end of its loop.
  unfoldable pub serve : Conf → Run (ProxyServer × Option Started)
  serve conf =
      start
        (set_http_server_ips (record { thread_num = conf.proxy_threadnum; ips = [] }) local_ip
          (chosen_port conf.http_port) Protocol.http)
        online

  -- The exit code, and the server if it was started.
  abbrev pub Exit : Type 0
  Exit = ℤ × Option Started × World

  unfoldable pub with_ms_conf : Conf → Admin → World → MsConfFile × Bool → Run Exit
  unfolding serve
  with_ms_conf conf a w (f, false) = done (negsuc 0, none, w)
  with_ms_conf conf a w (f, true) = do
    (server, started) ← serve conf
    let (a', w') = stop_zk_process z fopen conf a w
    done (pos 0, started, w')

  unfoldable pub with_zk : Conf → Bool × Admin × World → Run Exit
  unfolding with_ms_conf
  with_zk conf (false, a, w) = done (negsuc 0, none, w)
  with_zk conf (true, a, w) =
      if empty conf.ms_config_file
      then done (negsuc 0, none, w)
      else load_ms_conf_file j (record { ms_conf = []; key = [] }) (read_file conf.ms_config_file)
        >>= with_ms_conf conf a w

  unfoldable pub with_conf : World → Conf × Bool → Run Exit
  unfolding with_zk
  with_conf w (conf, false) = done (negsuc 0, none, w)
  with_conf w (conf, true) = with_zk conf (start_zk_process z fopen conf new_admin w)

  -- `read_ini` throws on a file that it cannot read.
  unfoldable pub with_ini : World → Option Ptree → Run Exit
  unfolding with_conf
  with_ini w none = abort
  with_ini w (some pt) = with_conf w (read_conf_file pt uninit)

  -- `main(argc, argv)`.
  unfoldable pub main : List (ℕ × Text) → World → Run Exit
  unfolding with_ini
  main opts w =
      let conf_file = option_loop opts [] in
      if empty conf_file then done (negsuc 0, none, w) else with_ini w (ini conf_file)
