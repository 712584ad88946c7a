-- ===== src/Curl/Handles.antt =====
-- tiangan/curl_helper.h: what `MultiCURL` does to one handle or one socket.
use tgproxy.Common.{
  ℕ, Bool, List, [], ◌∷◌, ◌++◌, map, Option, none, some, Text, c_str, length, get_elem?, set, ◌==◌,
  if◌then◌else◌, Run, done, abort, ◌>>=◌,
}
use tgproxy.Common.Int.{ℤ}
use tgproxy.Tiangan.{curl_header_cb}
use tgproxy.Curl.{
  CurlData, Options, copied, or_empty, positive_or_zero, CurlSocket, curl_poll_remove, kind_of,
  socket_at, without_socket, event_timeout, Callback, CurlHandle, MultiCurl,
}

-- The event of a socket, assigned and added.
abbrev pub armed : ℕ → ℕ → ℕ → ℤ → CurlSocket
armed e s what timeout_ms = record {
  fd = s;
  easy = e;
  action = what;
  kind = kind_of what;
  timeout = event_timeout timeout_ms;
}

module _ {S : Type 0} where
  abbrev pub present : Option (Option (CurlHandle S)) → Option (CurlHandle S)
  present none = none
  present (some x) = x

  -- A handle that is not deleted.
  abbrev pub handle_at : MultiCurl S → ℕ → Option (CurlHandle S)
  handle_at m h = present (get_elem? m.handles h)

  abbrev pub with_handle : MultiCurl S → ℕ → Option (CurlHandle S) → MultiCurl S
  with_handle m h x = record m { handles = set m.handles h x }

  abbrev pub with_fields : CurlHandle S → CurlData → CurlHandle S
  with_fields x d = record x { fields = d }

  -- `create(url, cb, userp, recycled, timeout_ms, data, data_size, headers)`: the handle's address.
  unfoldable pub create :
      Text
      → Callback S
      → Bool
      → ℤ
      → Option Text
      → ℤ
      → List Text
      → MultiCurl S
      → Run (ℕ × MultiCurl S)
  unfolding copied
  create url cb recycled timeout_ms bytes data_size headers m = do
    body ← copied bytes data_size
    let fields : CurlData = record {
      url = url;
      sheaders = map c_str headers;
      timeout_ms = timeout_ms;
      send_data = or_empty body;
      recv_data = [];
      rheaders = [];
      recycled = recycled;
    }
    let options : Options = record {
      url_option = c_str url;
      http_header = map c_str headers;
      post_fields = body;
      timeout_option = positive_or_zero timeout_ms;
    }
    let handle : CurlHandle S = record { fields = fields; options = options; cb = some cb }
    done (length m.handles, record m { handles = m.handles ++ some handle ∷ [] })

  -- `CURLHandle::clear()`.
  abbrev pub clear : CurlHandle S → CurlHandle S
  clear x = with_fields x (record x.fields { recv_data = []; rheaders = [] })

  -- `curl_write_cb(ptr, size, nmemb, data)`.
  unfoldable pub curl_write_cb : ℕ → Text → MultiCurl S → Run (MultiCurl S)
  curl_write_cb h chunk m = elim (handle_at m h) [
    | none ↦ abort
    | some x ↦ done (
        with_handle m h
          (some (with_fields x (record x.fields { recv_data = x.fields.recv_data ++ chunk }))))
  ]

  -- `curl_header_cb(ptr, size, nmemb, data)` on the handle's `rheaders`.
  unfoldable pub header_cb : ℕ → Text → MultiCurl S → Run (MultiCurl S)
  header_cb h line m = elim (handle_at m h) [
    | none ↦ abort
    | some x ↦ done (
        with_handle m h (
          some
            (with_fields x (record x.fields { rheaders = curl_header_cb x.fields.rheaders line }))))
  ]

  abbrev pub removed : ℕ → MultiCurl S → Option CurlSocket → Run (MultiCurl S)
  removed s m none = abort
  removed s m (some sk) = done (record m { sockets = without_socket s m.sockets })

  -- `curl_sock_handler(e, s, what, cbp, sockp)`: a socket that is removed must be known; another one
  -- gets its event anew.
  unfoldable pub curl_sock_handler : ℕ → ℕ → ℕ → MultiCurl S → Run (MultiCurl S)
  unfolding kind_of socket_at
  curl_sock_handler e s what m =
      if what == curl_poll_remove
      then removed s m (socket_at s m.sockets)
      else elim (handle_at m e) [
        | none ↦ abort
        | some x ↦
            done (record m {
              sockets = armed e s what x.fields.timeout_ms ∷ without_socket s m.sockets;
            })
      ]

  -- `if(handle->cb) handle->cb(res, handle)`.
  unfoldable pub call_back : Option (Callback S) → ℕ → ℕ → CurlData → S → Run S
  call_back none res code fields s = done s
  call_back (some f) res code fields s = f res code fields s

  -- The end of the round of `check_multi_info` on a handle, behind `curl_multi_remove_handle`.
  unfoldable pub complete : ℕ → ℕ → ℕ → MultiCurl S → Run (MultiCurl S)
  unfolding call_back
  complete h res code m = elim (handle_at m h) [
    | none ↦ abort
    | some x ↦ do
      s ← call_back x.cb res code x.fields m.client
      done (record m {
        client = s;
        handles = if x.fields.recycled then m.handles else set m.handles h none;
      })
  ]
