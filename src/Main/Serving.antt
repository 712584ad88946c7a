-- ===== src/Main/Serving.antt =====
-- The run of `main` that serves.
use tgproxy.Common.{ℕ, Bool, [], ◌∷◌, Option, Text}
use tgproxy.Common.Int.{ℤ}
use tgproxy.Conf.{Ptree, Conf}
use tgproxy.Json.{Rapidjson}
use tgproxy.Cluster.Zoo.{Zoo}
use tgproxy.Cluster.Admin.{Admin}
use tgproxy.Proxy.Server.{Protocol, Started}
use tgproxy.Main.{chosen_port}

module _ (z : Zoo) (fopen : Text → Bool) (j : Rapidjson) (ini : Text → Option Ptree)
    (read_file : Text → Option Text) (local_ip : Text) (online : ℤ) (uninit : Conf) where
  open z use {World}

  -- The server that the settings ask for, at some positive number of threads.
  abbrev pub server_of : Conf → ℕ → Started
  server_of conf threads = record {
    threads = threads;
    idle_timeout_ms = 60000;
    bound =
        record { ip = local_ip; port = chosen_port conf.http_port; protocol = Protocol.http } ∷ [];
  }
