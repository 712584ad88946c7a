-- ===== src/Examples/Easy.antt =====
-- A parameter of a URL, and the sockets of a transfer.
use tgproxy.Common.{ℕ, false, ◌≡◌, refl, [], ◌∷◌, none, some, codes}
use tgproxy.Common.Int.{pos}
use tgproxy.Curl.{MultiCurl}
use tgproxy.Tiangan.Params.{replace_url_param_value}

-- The value of another parameter is replaced where its name ends alike.
replaces_another :
    replace_url_param_value (codes "h?xid=1") (codes "id") (codes "2") ≡ codes "h?xid=2"
unfolding replace_url_param_value tgproxy.Tiangan.Params.behind_front
replaces_another = refl

abbrev no_socket : MultiCurl ℕ
no_socket = record {
  client = 0;
  handles =
      some (record {
        fields = record {
          url = [];
          sheaders = [];
          timeout_ms = pos 2000;
          send_data = [];
          recv_data = [];
          rheaders = [];
          recycled = false;
        };
        options = record {
          url_option = [];
          http_header = [];
          post_fields = none;
          timeout_option = pos 2000;
        };
        cb = none;
      })
      ∷ [];
  added = 0 ∷ [];
  sockets = [];
  ev_timer = none;
  still_running = pos 1;
}
