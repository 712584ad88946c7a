-- ===== src/Examples/Starts.antt =====
-- The start of the proxy with the settings of one file.
use tgproxy.Common.{ℕ, Bool, true, [], ◌∷◌, Option, some, Text, codes}
use tgproxy.Common.Int.{pos}
use tgproxy.Conf.{Ptree, Conf, read_conf_file}
use tgproxy.MsConf.{MsConfFile}
use tgproxy.Cluster.Admin.{Admin, new_admin, start_zk_process}
use tgproxy.Main.{Exit}
use tgproxy.Examples.Servers.{toy_zoo, settings, no_file}

-- Every key has a value.
abbrev tree : Ptree
tree = record {
  get_int = λ key. some (pos 4);
  get_text = λ key. some (codes "/ms");
  get_bool = λ key. some true;
}

abbrev read_settings : Conf
read_settings = (read_conf_file tree settings).0

abbrev ini : Text → Option Ptree
ini path = some tree

-- Bytes that the small library reads as an object without members.
abbrev read_file : Text → Option Text
read_file path = some (3 ∷ [])

abbrev empty_file : MsConfFile
empty_file = record { ms_conf = []; key = [] }

started : Bool × Admin × ℕ
started = start_zk_process toy_zoo no_file read_settings new_admin 0
