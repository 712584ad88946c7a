-- ===== src/Curl/Easy.antt =====
-- tiangan/curl_helper.h: `EasyCURL`, one request after the other on one easy handle. libcurl is a
-- parameter: what a transfer does may depend on every option that was ever set.
pub mod Verbs
use tgproxy.Common.{
  ℕ, zero, suc, ◌≡◌, refl, Bool, true, false, List, [], ◌∷◌, ◌++◌, map, Option, none, some, Text,
  codes, c_str, concat, length, ◌==◌, if◌then◌else◌,
}
use tgproxy.Common.Int.{ℤ, pos, negsuc}
use tgproxy.Curl.{positive_or_zero}

-- The calls of `curl_easy_setopt`.
pub data Setting : Type 0 where
  httpget : Setting
  customrequest : Text → Setting
  postfields : Text → Setting
  postfieldsize : ℕ → Setting
  url : Text → Setting
  verbose : Bool → Setting
  httpheader : List Text → Setting
  connecttimeout_ms : ℤ → Setting
  timeout_ms : ℤ → Setting
  -- `write_cb`, which writes to `result_`.
  writefunction : Setting

-- What `curl_easy_perform` does: its result, the chunks that it writes, and the response code.
pub record Performed : Type 0 where
  pub res : ℕ
  pub chunks : List Text
  pub code : ℕ

pub record Libcurl : Type 0 where
  pub perform : List Setting → Performed
  pub strerror : ℕ → Text

pub record EasyCurl : Type 0 where
  pub result : Text
  pub error : Text
  pub http_code : ℕ
  -- What was set on `curl_`, in order.
  pub settings : List Setting

-- `write_cb(in, size, nmemb, out)`.
abbrev pub write_cb : Text → Text → Text
write_cb out chunk = out ++ chunk

abbrev pub written : Text → List Text → Text
written out [] = out
written out (chunk ∷ chunks) = written (write_cb out chunk) chunks

-- `EasyCURL()`, where `curl_easy_init` gives a handle.
abbrev pub new_easy : EasyCurl
new_easy = record { result = []; error = []; http_code = 0; settings = [] }

-- `verbose == 1`.
abbrev pub is_one : ℤ → Bool
is_one (pos n) = n == 1
is_one (negsuc n) = false

abbrev pub header_setting : List Text → Setting
header_setting [] = httpheader []
header_setting (h ∷ hs) = httpheader (map c_str (h ∷ hs))

-- What `request` sets, in its order.
abbrev pub told : Text → List Text → ℤ → ℤ → ℤ → List Setting
told to headers conn_timeout timeout loud =
    url (c_str to)
    ∷ verbose (is_one loud)
    ∷ header_setting headers
    ∷ connecttimeout_ms (positive_or_zero conn_timeout)
    ∷ timeout_ms (positive_or_zero timeout)
    ∷ writefunction
    ∷ []

module _ (lib : Libcurl) where
  open lib use {perform, strerror}

  abbrev pub answered : EasyCurl → ℕ → Performed → EasyCurl × Bool
  answered c zero p = (record c { result = written [] p.chunks; http_code = p.code }, true)
  answered c (suc n) p =
      (record c { result = written [] p.chunks; error = c_str (strerror (suc n)) }, false)

  -- `request(url, headers, conn_timeout_ms, timeout_ms, verbose)`.
  unfoldable pub request : Text → List Text → ℤ → ℤ → ℤ → EasyCurl → EasyCurl × Bool
  request to headers conn_timeout timeout loud c =
      let settings = c.settings ++ told to headers conn_timeout timeout loud in
      let p = perform settings in
      answered (record c { result = []; error = []; http_code = 0; settings = settings }) p.res p

  -- `get(url, headers, conn_timeout_ms, timeout_ms, verbose)`.
  unfoldable pub get : Text → List Text → ℤ → ℤ → ℤ → EasyCurl → EasyCurl × Bool
  unfolding request
  get to headers conn_timeout timeout loud c =
      request to headers conn_timeout timeout loud
        (record c { settings = c.settings ++ httpget ∷ [] })

  -- `post(url, data, headers, conn_timeout_ms, timeout_ms, verbose)`.
  unfoldable pub post : Text → Text → List Text → ℤ → ℤ → ℤ → EasyCurl → EasyCurl × Bool
  unfolding request
  post to body headers conn_timeout timeout loud c =
      request to headers conn_timeout timeout loud
        (record c { settings = c.settings ++ (postfields body ∷ postfieldsize (length body) ∷ []) })

  -- `put(url, data, headers, conn_timeout_ms, timeout_ms, verbose)`.
  unfoldable pub put : Text → Text → List Text → ℤ → ℤ → ℤ → EasyCurl → EasyCurl × Bool
  unfolding request
  put to body headers conn_timeout timeout loud c =
      request to headers conn_timeout timeout loud (record c {
        settings =
            c.settings
            ++ (customrequest (codes "PUT") ∷ postfields body ∷ postfieldsize (length body) ∷ []);
      })
