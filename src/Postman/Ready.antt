-- ===== src/Postman/Ready.antt =====
-- The cluster's histories leave a list that requests can be sent to.
use tgproxy.Conf.{Conf}
use tgproxy.Cluster.Zoo.{Zoo}
