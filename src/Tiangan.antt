-- ===== src/Tiangan.antt =====
-- tiangan/: the parts of the HTTP client and the path headers that compute on texts and numbers. The
-- calls of libcurl and libevent around them are left out.
pub mod Trim
pub mod Headers
pub mod CApi
pub mod Params
pub mod Hash
use tgproxy.Common.{
  ℕ, ◌+◌, ◌*◌, ◌/◌, ◌%◌, Bool, true, false, ◌&&◌, ◌||◌, List, [], ◌∷◌, ◌++◌, Option, none, some,
  Text, empty, same_text, ltb, ◌==◌, if◌then◌else◌,
}
use tgproxy.Common.Int.{ℤ, pos, negsuc}
use tgproxy.Common.Decimal.{to_string, is_space, skip_space}

-- The second `erase` of `trim`: the spaces at the end.
unfoldable pub trim_end : Text → Text
trim_end [] = []
trim_end (c ∷ s) = let rest = trim_end s in if is_space c && empty rest then [] else c ∷ rest

-- `trim(line)`.
unfoldable pub trim : Text → Text
trim line = trim_end (skip_space line)

pub record Timeval : Type 0 where
  pub tv_sec : ℕ
  pub tv_usec : ℕ

-- `get_timeval(timeout_ms)` of a timeout that is not negative.
unfoldable pub get_timeval : ℕ → Timeval
get_timeval timeout_ms = record { tv_sec = timeout_ms / 1000; tv_usec = (timeout_ms % 1000) * 1000 }

-- `std::find(start, end, ':')`: what stands before the first colon, and what behind it.
unfoldable pub at_colon : Text → Option (Text × Text)
at_colon [] = none
at_colon (c ∷ s) =
    let rest = at_colon s in
    if c == b':' then some ([], s) else elim rest [ none ↦ none | some r ↦ some (c ∷ r.0, r.1) ]

-- `rheaders[key] = val`.
unfoldable pub put_header : Text → Text → List (Text × Text) → List (Text × Text)
put_header key val [] = (key, val) ∷ []
put_header key val ((k, v) ∷ hs) =
    if same_text k key then (k, val) ∷ hs else (k, v) ∷ put_header key val hs

unfoldable pub stored : List (Text × Text) → Option (Text × Text) → List (Text × Text)
stored rheaders none = rheaders
stored rheaders (some (key, val)) =
    if empty (trim key) || empty (trim val)
    then rheaders
    else put_header (trim key) (trim val) rheaders

-- `curl_header_cb(ptr, size, nmemb, data)`: the new `rheaders`.
unfoldable pub curl_header_cb : List (Text × Text) → Text → List (Text × Text)
unfolding stored at_colon
curl_header_cb rheaders line = stored rheaders (at_colon line)

-- `default_mpath_delim` for a null pointer.
abbrev pub delim_of : Option Text → Text
delim_of none = b'-' ∷ []
delim_of (some delim) = delim

abbrev pub with_timestamp : ℤ → Text → Text → Text
with_timestamp (pos ℕ.zero) delim mpath = mpath
with_timestamp (pos (ℕ.suc n)) delim mpath = mpath ++ delim ++ to_string (pos (ℕ.suc n))
with_timestamp (negsuc n) delim mpath = mpath

-- `get_mpath(model_name, model_version, partition, timestamp, delim)`.
unfoldable pub get_mpath : Text → Text → ℤ → ℤ → Option Text → Text
get_mpath model_name model_version partition timestamp delim =
    with_timestamp timestamp (delim_of delim)
      (model_name ++ delim_of delim ++ model_version ++ delim_of delim ++ to_string partition)
