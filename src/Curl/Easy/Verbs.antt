-- ===== src/Curl/Easy/Verbs.antt =====
-- What a request of `EasyCURL` leaves, and the verb that a later one is sent with.
use tgproxy.Common.{
  ℕ, zero, suc, ◌≡◌, ◌≢◌, ◌⊎◌, inl, inr, refl, sym, ap, ◌∙◌, Bool, true, false, List, [], ◌∷◌, ◌++◌,
  append_assoc, append-nil, Option, none, some, Text, codes, c_str, concat, length,
}
use tgproxy.Common.Int.{ℤ}
use tgproxy.Curl.Easy.{
  Setting, httpget, customrequest, postfields, postfieldsize, Performed, Libcurl, EasyCurl, written,
  told, answered, request, get, post, put,
}

abbrev pub verb_by : Setting → Option Text → Option Text
verb_by (customrequest name) verb = some name
verb_by _ verb = verb

-- The verb that `CURLOPT_CUSTOMREQUEST` was last set to.
unfoldable custom_verb : Option Text → List Setting → Option Text
custom_verb verb [] = verb
custom_verb verb (x ∷ xs) = custom_verb (verb_by x verb) xs

custom_verb-append :
    (verb : Option Text) (xs ys : List Setting)
    → custom_verb verb (xs ++ ys) ≡ custom_verb (custom_verb verb xs) ys
unfolding custom_verb
custom_verb-append verb [] ys = refl
custom_verb-append verb (x ∷ xs) ys = custom_verb-append (verb_by x verb) xs ys

concat-written : (out : Text) (chunks : List Text) → written out chunks ≡ out ++ concat chunks
concat-written out [] = sym (append-nil out)
concat-written out (c ∷ cs) = concat-written (out ++ c) cs ∙ append_assoc out c (concat cs)

module _ (lib : Libcurl) where
  open lib use {perform, strerror}

  answered-settings :
      (c : EasyCurl) (n : ℕ) (p : Performed) → (answered lib c n p).0.settings ≡ c.settings
  answered-settings c zero p = refl
  answered-settings c (suc n) p = refl

  told_verb :
      (verb : Option Text) (to : Text) (headers : List Text) (conn_timeout timeout loud : ℤ)
      → custom_verb verb (told to headers conn_timeout timeout loud) ≡ verb
  unfolding custom_verb
  told_verb verb to [] conn_timeout timeout loud = refl
  told_verb verb to (h ∷ hs) conn_timeout timeout loud = refl

  request_verb :
      (to : Text) (headers : List Text) (conn_timeout timeout loud : ℤ) (c : EasyCurl)
      → custom_verb none (request lib to headers conn_timeout timeout loud c).0.settings
        ≡ custom_verb none c.settings
  unfolding request
  request_verb to headers conn_timeout timeout loud c =
      let settings = told to headers conn_timeout timeout loud in
      let p = perform (c.settings ++ settings) in
      ap (custom_verb none) (
        answered-settings
          (record { result = []; error = []; http_code = 0; settings = c.settings ++ settings })
          p.res p)
      ∙ custom_verb-append none c.settings settings
      ∙ told_verb (custom_verb none c.settings) to headers conn_timeout timeout loud

  -- A request of a handle is sent with the verb `PUT` behind any `put`, until the end of the handle:
  -- neither `get` nor `post` sets another verb or takes it back.
  custom_verb-stays :
      (to body : Text) (headers : List Text) (conn_timeout timeout loud : ℤ) (c : EasyCurl)
      → (custom_verb none (get lib to headers conn_timeout timeout loud c).0.settings
          ≡ custom_verb none c.settings)
        × (custom_verb none (post lib to body headers conn_timeout timeout loud c).0.settings
            ≡ custom_verb none c.settings)
        × (custom_verb none (put lib to body headers conn_timeout timeout loud c).0.settings
            ≡ some (codes "PUT"))
  unfolding get post put custom_verb
  custom_verb-stays to body headers conn_timeout timeout loud c = (
    request_verb to headers conn_timeout timeout loud
          (record c { settings = c.settings ++ httpget ∷ [] })
        ∙ custom_verb-append none c.settings (httpget ∷ []),
    request_verb to headers conn_timeout timeout loud (record c {
      settings = c.settings ++ (postfields body ∷ postfieldsize (length body) ∷ []);
    })
        ∙ custom_verb-append none c.settings (postfields body ∷ postfieldsize (length body) ∷ []),
    request_verb to headers conn_timeout timeout loud (record c {
      settings =
          c.settings
          ++ (customrequest (codes "PUT") ∷ postfields body ∷ postfieldsize (length body) ∷ []);
    })
        ∙ custom_verb-append none c.settings
            (customrequest (codes "PUT") ∷ postfields body ∷ postfieldsize (length body) ∷ []),
  )

  -- What a request leaves of what libcurl did.
  abbrev pub Outcome : Performed → EasyCurl × Bool → Type 0
  Outcome p r =
      (r.0.result ≡ concat p.chunks)
      × (((p.res ≡ 0) × (r.1 ≡ true) × (r.0.error ≡ []) × (r.0.http_code ≡ p.code))
          ⊎ ((p.res ≢ 0)
              × (r.1 ≡ false)
              × (r.0.error ≡ c_str (strerror p.res))
              × (r.0.http_code ≡ 0)))

  answered-Outcome :
      (c : EasyCurl) (n : ℕ) (p : Performed)
      → p.res ≡ n
      → c.error ≡ []
      → c.http_code ≡ 0
      → Outcome p (answered lib c n p)
  answered-Outcome c zero p e f g = (concat-written [] p.chunks, inl (e, refl, f, refl))
  answered-Outcome c (suc n) p e f g =
      (concat-written [] p.chunks, inr (λ z. cc (e, z), refl, rw e refl, g))

  -- A request that libcurl performs leaves the chunks of its own response, its code and no error; one
  -- that fails leaves the chunks that came, the code 0 and the text of the error.
  pub request-Outcome :
      (to : Text) (headers : List Text) (conn_timeout timeout loud : ℤ) (c : EasyCurl)
      → Outcome
          (perform (c.settings ++ told to headers conn_timeout timeout loud))
          (request lib to headers conn_timeout timeout loud c)
  unfolding request
  request-Outcome to headers conn_timeout timeout loud c =
      let settings = c.settings ++ told to headers conn_timeout timeout loud in
      answered-Outcome (record { result = []; error = []; http_code = 0; settings = settings })
        (perform settings).res (perform settings) refl refl refl
