-- ===== src/Postman/Wired/Slices.antt =====
-- One slice of a postman: its URL, and the handle that is made for it.
use tgproxy.Common.{
  ℕ, suc, ◌≡◌, refl, ap, Bool, true, false, List, [], ◌∷◌, ◌++◌, some, Text, c_str, length,
  length-append, length-set, take, leb, done, ◌>>=◌, arith,
}
use tgproxy.Common.Int.{pos}
use tgproxy.Curl.{CurlHandle, MultiCurl, Calls, copied}
use tgproxy.Curl.Handles.{clear, create}
use tgproxy.Curl.Handlers.{add, taken}
use tgproxy.Curl.Seen.{callback_of}
use tgproxy.Hub.{EventHub, register_event}
use tgproxy.Postman.{Event, Postman}
use tgproxy.Postman.Transfer.{ms_reply_callback}
use tgproxy.Postman.Wired.{Adding, url_at}

abbrev pub Urls : (ℕ → Text) → ℕ → List (Event × Adding) → Type 0
Urls url n [] = Unit
Urls url n (eg ∷ es) = (url n ≡ eg.0.url) × Urls url (suc n) es

pub Urls-suc :
    (url : ℕ → Text) (n : ℕ) (es : List (Event × Adding))
    → Urls (λ h. url (suc h)) n es
    → Urls url (suc n) es
Urls-suc url n [] u = tt
Urls-suc url n (eg ∷ es) u = (u.0, Urls-suc url (suc n) es u.1)

pub url_at-Urls : (es : List (Event × Adding)) → Urls (url_at es) 0 es
url_at-Urls [] = tt
url_at-Urls (eg ∷ es) = (refl, Urls-suc (url_at (eg ∷ es)) 0 es (url_at-Urls es))

pub take-length : (s : Text) → take (length s) s ≡ s
take-length [] = refl
take-length (c ∷ s) = ap (◌∷◌ c) (take-length s)

pub leb_refl : (n : ℕ) → leb n n ≡ true
leb_refl n = ground arith

pub copied_whole : (s : Text) → copied (some s) (pos (length s)) ≡ done (some s)
unfolding copied
copied_whole s = rw (leb_refl (length s), take-length s) refl

-- The handle of a slice.
abbrev pub handle_of : Event → CurlHandle Postman
handle_of e = record {
  fields = record {
    url = e.url;
    sheaders = [];
    timeout_ms = pos e.timeout_ms;
    send_data = e.body;
    recv_data = [];
    rheaders = [];
    recycled = false;
  };
  options = record {
    url_option = c_str e.url;
    http_header = [];
    post_fields = some e.body;
    timeout_option = pos e.timeout_ms;
  };
  cb = some (callback_of ms_reply_callback);
}

pub create_slice :
    (e : Event) (m : MultiCurl Postman)
    → create e.url
        (callback_of ms_reply_callback)
        false
        (pos e.timeout_ms)
        (some e.body)
        (pos (length e.body))
        []
        m
      ≡ done (length m.handles, record m { handles = m.handles ++ some (handle_of e) ∷ [] })
unfolding create
create_slice e m = rw (copied_whole e.body, create) refl

-- The state behind `create`.
abbrev pub made : Event → MultiCurl Postman → MultiCurl Postman
made e m = record m { handles = m.handles ++ some (handle_of e) ∷ [] }

pub register_slice :
    (e : Event) (ok : Bool) (calls : Calls) (hub : EventHub Postman)
    → register_event e.url
        (callback_of ms_reply_callback)
        (pos e.timeout_ms)
        (some e.body)
        (pos (length e.body))
        []
        ok
        calls
        hub
      ≡ (add (length hub.multi.handles) ok calls (made e hub.multi) >>= λ m.
          done (length hub.multi.handles, record hub { multi = m }))
unfolding register_event
register_slice e ok calls hub =
    ap (λ r. r >>= λ x. add x.0 ok calls x.1 >>= λ m. done (x.0, record hub { multi = m }))
      (create_slice e hub.multi)

pub length-taken :
    (e : Event) (m : MultiCurl Postman) (h : ℕ) (x : CurlHandle Postman)
    → length (taken h true x (made e m)).handles ≡ suc (length m.handles)
length-taken e m h x =
    let l = length-set (m.handles ++ some (handle_of e) ∷ []) h (some (clear x)) in
    omega (arith, l, length-append m.handles (some (handle_of e) ∷ []))

abbrev pub second : ℕ × EventHub Postman → MultiCurl Postman
second r = r.1.multi

abbrev pub multi_of : EventHub Postman → MultiCurl Postman
multi_of hub = hub.multi
