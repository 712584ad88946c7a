-- ===== src/Proxy/Server.antt =====
-- proxy/tgp_proxy_server.cc: the server's addresses and its start. The HTTP server behind it is
-- seen as the options that it is started with.
use tgproxy.Common.{ℕ, zero, suc, List, [], ◌∷◌, ◌++◌, Option, none, some, Text, Run, done, abort}
use tgproxy.Common.Int.{ℤ, pos, negsuc}

-- The value of the library's enumeration that the proxy names.
pub data Protocol : Type 0 where
  http : Protocol

pub record IpConfig : Type 0 where
  pub ip : Text
  pub port : ℤ
  pub protocol : Protocol

pub record ProxyServer : Type 0 where
  pub thread_num : ℤ
  pub ips : List IpConfig

-- What the HTTP server is started with.
pub record Started : Type 0 where
  pub threads : ℕ
  pub idle_timeout_ms : ℕ
  pub bound : List IpConfig

-- `setHTTPServerIPs(port, protocol)`, where `getLocalIp` leaves this text in `ip`.
unfoldable pub set_http_server_ips : ProxyServer → Text → ℤ → Protocol → ProxyServer
set_http_server_ips s ip port protocol = record s {
  ips = s.ips ++ record { ip = ip; port = port; protocol = protocol } ∷ [];
}

-- The options at a positive number of threads; `CHECK` ends the process at another.
unfoldable pub started : ProxyServer → ℤ → Run (ProxyServer × Option Started)
started s (pos zero) = abort
started s (pos (suc n)) = done (
  record s { thread_num = pos (suc n) },
  some (record { threads = suc n; idle_timeout_ms = 60000; bound = s.ips }),
)
started s (negsuc n) = abort

unfoldable pub chosen_threads : ℤ → ℤ → ℤ
chosen_threads (pos zero) online = online
chosen_threads (pos (suc n)) online = pos (suc n)
chosen_threads (negsuc n) online = online

-- `start()`, on a machine with `online` processors: false, or the options of the server whose loop
-- it runs.
unfoldable pub start : ProxyServer → ℤ → Run (ProxyServer × Option Started)
unfolding started chosen_threads
start s online = elim s.ips [
  | [] ↦ done (s, none)
  | ip ∷ ips ↦ started s (chosen_threads s.thread_num online)
]
