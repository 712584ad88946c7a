-- ===== src/Main/Outcomes.antt =====
-- How `main` ends.
use tgproxy.Common.{◌<◌, ◌≡◌, ◌⊎◌, Bool, true, [], ◌∷◌, Option, none, some, Text}
use tgproxy.Common.Int.{ℤ, pos, negsuc}
use tgproxy.Conf.{Ptree, Conf, read_conf_file}
use tgproxy.Json.{Rapidjson}
use tgproxy.Cluster.Zoo.{Zoo}
use tgproxy.Cluster.Admin.{Admin}
use tgproxy.Proxy.Server.{ProxyServer, Protocol, Started}
use tgproxy.Main.{chosen_port, Exit}

-- The port is positive.
pub IsPort : ℤ → Type 0
IsPort (pos n) = 0 < n
IsPort (negsuc n) = ⊥

-- What a server with one address is started with.
pub record IsStarted (conf : Conf) (local_ip : Text) (online : ℤ) (st : Started) : Type 0 where
  pub threads_there : 0 < st.threads
  pub chosen : (pos st.threads ≡ conf.proxy_threadnum) ⊎ (pos st.threads ≡ online)
  pub one_address :
      st.bound
      ≡ record { ip = local_ip; port = chosen_port conf.http_port; protocol = Protocol.http } ∷ []
  pub port_there : IsPort (chosen_port conf.http_port)

StartedBy : Conf → Text → ℤ → ProxyServer × Option Started → Type 0
StartedBy conf local_ip online (s, none) = ⊥
StartedBy conf local_ip online (s, some st) = IsStarted conf local_ip online st

module _ (z : Zoo) (fopen : Text → Bool) (j : Rapidjson) (ini : Text → Option Ptree)
    (read_file : Text → Option Text) (local_ip : Text) (online : ℤ) (uninit : Conf) where
  open z use {World}

  -- The run failed, or it served with the settings that it read.
  pub data Outcome : Exit z fopen j ini read_file local_ip online uninit → Type 0 where
    failed : (w : World) → Outcome (negsuc 0, none, w)
    served :
        (pt : Ptree) (conf : Conf) (st : Started) (w : World)
        → read_conf_file pt uninit ≡ (conf, true)
        → IsStarted conf local_ip online st
        → Outcome (pos 0, some st, w)
