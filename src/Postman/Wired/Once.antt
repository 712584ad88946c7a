-- ===== src/Postman/Wired/Once.antt =====
-- The callback of a slice runs at most once, and exactly once if nothing is left running.
use tgproxy.Curl.Once.Counted.{Counted}
use tgproxy.Postman.{Postman}
use tgproxy.Postman.Wired.Upto.{Upto}
