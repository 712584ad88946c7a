-- ===== src/Proxy/Refused.antt =====
-- A request that is refused.
use tgproxy.Postman.{Postman}
