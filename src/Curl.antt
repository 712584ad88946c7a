-- ===== src/Curl.antt =====
-- tiangan/curl_helper.h: `MultiCURL`, its handles and the callbacks that libcurl and libevent make.
-- Logging is left out. A `CURLHandle` lives in a store under its address and is gone once it is
-- deleted; its easy handle is named by the same address, as `CURLINFO_PRIVATE` gives one for the
-- other. A use of a deleted handle is `abort`. What the libraries do is given as a trace.
pub mod Handles
pub mod Handlers
pub mod Easy
pub mod Obeys
pub mod Seen
pub mod Linked
pub mod Rounds
pub mod Complete
pub mod Delivers
pub mod Sockets
pub mod Once
pub mod Reported
pub mod Recycled
use tgproxy.Common.{
  ℕ, zero, suc, ◌+◌, ◌*◌, ◌/◌, ◌%◌, Bool, true, false, List, [], ◌∷◌, ◌++◌, map, Option, none, some,
  Text, c_str, length, get_elem?, set, take, select, not, leb, ltb, ◌==◌, if◌then◌else◌, Run, done,
  abort, assert, ◌>>=◌, ◌>>◌,
}
use tgproxy.Common.Int.{ℤ, pos, negsuc}
use tgproxy.Tiangan.{Timeval, get_timeval, curl_header_cb}

-- The fields of a `CURLHandle` that a callback reads; `error` and `userp` are left out, and a callback
-- is given the client that `userp` points to.
pub record CurlData : Type 0 where
  pub url : Text
  pub sheaders : List Text
  pub timeout_ms : ℤ
  pub send_data : Text
  pub recv_data : Text
  pub rheaders : List (Text × Text)
  pub recycled : Bool

-- What `curl_easy_setopt` told libcurl of a handle.
pub record Options : Type 0 where
  pub url_option : Text
  pub http_header : List Text
  pub post_fields : Option Text
  pub timeout_option : ℤ

-- The data that is posted: `resize` throws on a negative size, and `std::copy` must not pass the end.
unfoldable pub copied : Option Text → ℤ → Run (Option Text)
copied none data_size = done none
copied (some bytes) (negsuc n) = abort
copied (some bytes) (pos n) = do assert (leb n (length bytes)); done (some (take n bytes))

abbrev pub or_empty : Option Text → Text
or_empty none = []
or_empty (some bytes) = bytes

abbrev pub positive_or_zero : ℤ → ℤ
positive_or_zero (pos n) = pos n
positive_or_zero (negsuc n) = pos 0

-- A `CURLSocket` and its event, which is pending.
pub record CurlSocket : Type 0 where
  pub fd : ℕ
  pub easy : ℕ
  pub action : ℕ
  pub kind : ℕ
  pub timeout : Option Timeval

-- The constants of libevent and libcurl that the code names.
abbrev pub curl_poll_remove : ℕ
curl_poll_remove = 4

-- `what & CURL_POLL_IN`, `what & CURL_POLL_OUT`.
abbrev pub poll_in : ℕ → Bool
poll_in what = what % 2 == 1

abbrev pub poll_out : ℕ → Bool
poll_out what = what / 2 % 2 == 1

-- `EV_READ`, `EV_WRITE` and `EV_PERSIST`.
unfoldable pub kind_of : ℕ → ℕ
kind_of what = (if poll_in what then 2 else 0) + (if poll_out what then 4 else 0) + 16

-- The action of `ev_event_handler`: `CURL_CSELECT_IN` and `CURL_CSELECT_OUT`.
unfoldable pub action_of : ℕ → ℕ
action_of kind = (if kind / 2 % 2 == 1 then 1 else 0) + (if kind / 4 % 2 == 1 then 2 else 0)

-- `sockp`: what `curl_multi_assign` stored for a socket.
unfoldable pub socket_at : ℕ → List CurlSocket → Option CurlSocket
socket_at s [] = none
socket_at s (sk ∷ sks) = if sk.fd == s then some sk else socket_at s sks

unfoldable pub without_socket : ℕ → List CurlSocket → List CurlSocket
without_socket s sks = select (λ (sk : CurlSocket). not (sk.fd == s)) sks

-- What libcurl calls, in order. A timeout of -1 is `none`, and no other is negative.
mutual
  pub data Calls : Type 0 where
    silent : Calls
    -- A chunk of the body of a handle's response, and a line of its header.
    wrote : ℕ → Text → Calls → Calls
    headed : ℕ → Text → Calls → Calls
    -- The socket callback: the handle, the socket and `what`.
    polled : ℕ → ℕ → ℕ → Calls → Calls
    -- The timer callback, and what libcurl does if it is called back at once.
    timed : Option ℕ → Activity → Calls → Calls

  -- What `curl_multi_socket_action` does: its calls, whether it is `CURLM_OK`, the number of handles
  -- that still run, and what `curl_multi_info_read` then gives, message by message.
  pub data Activity : Type 0 where
    acted : Calls → Bool → ℤ → Messages → Activity

  -- A handle that is `CURLMSG_DONE`, its result and response code, and the calls of
  -- `curl_multi_remove_handle`; or another message.
  pub data Messages : Type 0 where
    no_more : Messages
    finished : ℕ → ℕ → ℕ → Calls → Messages → Messages
    noted : Messages → Messages

-- The timeout of a socket's event: none unless it is positive.
abbrev pub event_timeout : ℤ → Option Timeval
event_timeout (pos zero) = none
event_timeout (pos (suc n)) = some (get_timeval (suc n))
event_timeout (negsuc n) = none

abbrev pub without : ℕ → List ℕ → List ℕ
without h hs = select (λ k. not (k == h)) hs

module _ (S : Type 0) where
  -- A callback is given the result, the response code, the handle's fields and the client.
  abbrev pub Callback : Type 0
  Callback = ℕ → ℕ → CurlData → S → Run S

  pub record CurlHandle : Type 0 where
    pub fields : CurlData
    pub options : Options
    pub cb : Option Callback

  pub record MultiCurl : Type 0 where
    pub client : S
    -- The store: every handle that was made, at its address, or `none` behind its deletion.
    pub handles : List (Option CurlHandle)
    -- The handles that were added to `curl_multi_` and not removed.
    pub added : List ℕ
    pub sockets : List CurlSocket
    -- The timeout of `ev_timer_`, if it is pending.
    pub ev_timer : Option Timeval
    pub still_running : ℤ
