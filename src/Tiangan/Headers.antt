-- ===== src/Tiangan/Headers.antt =====
-- What a header line leaves in `rheaders`, and the time of a timeout.
use tgproxy.Common.{
  ℕ, ◌+◌, ◌*◌, ◌<◌, ◌≡◌, ◌≢◌, inl, inr, refl, sym, ap, ◌∙◌, false, List, [], ◌∷◌, ◌++◌, Option,
  none, some, Text, empty, same_text, same_text_refl, same_text→eq, ◌==◌, if◌then◌else◌, All,
  Bool-cases, arith,
}
use tgproxy.Tiangan.{trim, get_timeval, at_colon, put_header, stored, curl_header_cb}

-- The value under a name.
abbrev pub header : Text → List (Text × Text) → Option Text
header key [] = none
header key ((k, v) ∷ hs) = if same_text k key then some v else header key hs

header-put_header :
    (key val : Text) (hs : List (Text × Text)) → header key (put_header key val hs) ≡ some val
unfolding put_header
header-put_header key val [] = rw (same_text_refl key) refl
header-put_header key val ((k, v) ∷ hs) = elim (Bool-cases (same_text k key)) [
  | inl e ↦ rw (e, e) refl
  | inr e ↦ rw (e, e) (header-put_header key val hs)
]

header-put_other :
    (key other val : Text) (hs : List (Text × Text))
    → other ≢ key
    → header other (put_header key val hs) ≡ header other hs
unfolding put_header
header-put_other key other val [] h = elim (Bool-cases (same_text key other)) [
  | inl e ↦ absurd (h (sym (same_text→eq key other e)))
  | inr e ↦ rw e refl
]
header-put_other key other val ((k, v) ∷ hs) h = elim (Bool-cases (same_text k key)) [
  | inr e ↦
      rw e (ap (λ r. if same_text k other then some v else r) (header-put_other key other val hs h))
  | inl e ↦ elim (Bool-cases (same_text k other)) [
    | inl f ↦ absurd (h (sym (same_text→eq k other f) ∙ same_text→eq k key e))
    | inr f ↦ rw (e, f) refl
  ]
]

at_colon-cut :
    (key val : Text) → All (λ c. c ≢ b':') key → at_colon (key ++ b':' ∷ val) ≡ some (key, val)
unfolding at_colon
at_colon-cut [] val a = refl
at_colon-cut (c ∷ key) val a =
    let other : (c == b':') ≡ false = ground (arith, a.0) in
    rw (other, at_colon-cut key val a.1) refl

-- A header line whose name has no colon, and whose name and value hold more than spaces, leaves the
-- trimmed value under the trimmed name, in the place of an older one, and every other name as it was.
pub curl_header_cb-header :
    (hs : List (Text × Text)) (key val : Text)
    → All (λ c. c ≢ b':') key
    → empty (trim key) ≡ false
    → empty (trim val) ≡ false
    → (header (trim key) (curl_header_cb hs (key ++ b':' ∷ val)) ≡ some (trim val))
      × ((other : Text)
          → other ≢ trim key
          → header other (curl_header_cb hs (key ++ b':' ∷ val)) ≡ header other hs)
unfolding curl_header_cb stored
curl_header_cb-header hs key val a h k =
    rw (at_colon-cut key val a, h, k)
      (
        header-put_header (trim key) (trim val) hs,
        λ other n. header-put_other (trim key) other (trim val) hs n,
      )

-- A timeout in milliseconds is split into seconds and less than a second of microseconds, without
-- loss.
pub get_timeval-exact :
    (ms : ℕ)
    → ((get_timeval ms).tv_usec < 1000000)
      × ((get_timeval ms).tv_sec * 1000000 + (get_timeval ms).tv_usec ≡ ms * 1000)
unfolding get_timeval
get_timeval-exact ms = omega arith
