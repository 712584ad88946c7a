-- ===== src/Conf.antt =====
-- base/tgp_conf.cc and tgp_conf.h: the proxy's settings. The property tree that boost reads from
-- the ini file is a parameter: a key with its type gives a value, or no value where `get` throws.
-- (`read_ini` itself, outside the try block, throws on a file that it cannot read; here the file has
-- been read.)
use tgproxy.Common.{Bool, true, false, Option, none, some, Text, codes}
use tgproxy.Common.Int.{ℤ}

pub record Ptree : Type 0 where
  pub get_int : Text → Option ℤ
  pub get_text : Text → Option Text
  pub get_bool : Text → Option Bool

pub record Conf : Type 0 where
  pub http_port : ℤ
  pub proxy_threadnum : ℤ
  pub ms_zk_path : Text
  pub zookeeper_address : Text
  pub zk_log_dir : Text
  pub zk_log_name : Text
  pub ms_config_file : Text
  pub logtostderr : Bool
  pub log_dir : Text

-- An assignment of the try block, and the assignments behind it; a throw leaves what was assigned.
assigning : {A : Type 0} → Option A → (A → Conf → Conf) → (Conf → Conf × Bool) → Conf → Conf × Bool
assigning none put rest c = (c, false)
assigning (some a) put rest c = rest (put a c)

-- `read_conf_file(file)`: the new settings and the result.
unfoldable pub read_conf_file : Ptree → Conf → Conf × Bool
unfolding assigning
read_conf_file pt =
    assigning (pt.get_int (codes "PROXYSERVER.http_port")) (λ v c. record c { http_port = v })
      (assigning (pt.get_int (codes "PROXYSERVER.proxy_threadnum"))
        (λ v c. record c { proxy_threadnum = v })
        (assigning (pt.get_text (codes "MODELSERVER.ms_config"))
          (λ v c. record c { ms_config_file = v })
          (assigning (pt.get_text (codes "ZOOKEEPER.ms_zk_path"))
            (λ v c. record c { ms_zk_path = v })
            (assigning (pt.get_text (codes "ZOOKEEPER.zk_addr"))
              (λ v c. record c { zookeeper_address = v })
              (assigning (pt.get_text (codes "ZOOKEEPER.zk_log_dir"))
                (λ v c. record c { zk_log_dir = v })
                (assigning (pt.get_text (codes "ZOOKEEPER.zk_log_name"))
                  (λ v c. record c { zk_log_name = v })
                  (assigning (pt.get_bool (codes "LOG.logtostderr"))
                    (λ v c. record c { logtostderr = v })
                    (assigning (pt.get_text (codes "LOG.log_dir")) (λ v c. record c { log_dir = v })
                      (λ c. (c, true))))))))))
