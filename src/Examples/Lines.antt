-- ===== src/Examples/Lines.antt =====
-- Header lines and a timeout.
use tgproxy.Common.{
  ℕ, ◌+◌, ◌*◌, ◌<◌, ◌≡◌, ◌≢◌, refl, List, [], ◌∷◌, ◌++◌, none, some, Text, codes, c_str, length,
  ◌≤◌, All, arith,
}
use tgproxy.Common.Int.{pos}
use tgproxy.Tiangan.CApi.{tiangan_get_mpath, tiangan_get_mpath-c_str}
use tgproxy.Tiangan.{get_mpath, trim, get_timeval, curl_header_cb}
use tgproxy.Tiangan.Headers.{header, curl_header_cb-header}

curl_header_cb-header_example :
    (header (trim (codes "Age")) (curl_header_cb [] (codes "Age" ++ b':' ∷ codes " 7"))
      ≡ some (trim (codes " 7")))
    × ((other : Text)
        → other ≢ trim (codes "Age")
        → header other (curl_header_cb [] (codes "Age" ++ b':' ∷ codes " 7")) ≡ header other [])
unfolding trim tgproxy.Tiangan.trim_end tgproxy.Common.Decimal.skip_space
curl_header_cb-header_example =
    curl_header_cb-header [] (codes "Age") (codes " 7")
      (
        (λ e. absurd (omega (arith, e))),
        ((λ e. absurd (omega (arith, e))), ((λ e. absurd (omega (arith, e))), tt)),
      )
      refl refl

no_nul : All (λ c. c ≢ 0) (get_mpath (codes "m") (codes "1") (pos 0) (pos 0) none)
unfolding get_mpath tgproxy.Common.Decimal.to_string
no_nul = ground arith

tiangan_get_mpath-c_str_example :
    (length (codes "m-1-0") < 8
      → c_str (tiangan_get_mpath 8 (codes "m") (codes "1") (pos 0) (pos 0) none) ≡ codes "m-1-0")
    × (8 ≤ length (codes "m-1-0")
        → All (λ c. c ≢ 0) (tiangan_get_mpath 8 (codes "m") (codes "1") (pos 0) (pos 0) none))
unfolding get_mpath tgproxy.Common.Decimal.to_string
tiangan_get_mpath-c_str_example =
    tiangan_get_mpath-c_str 8 (codes "m") (codes "1") (pos 0) (pos 0) none no_nul
