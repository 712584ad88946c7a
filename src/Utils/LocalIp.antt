-- ===== src/Utils/LocalIp.antt =====
-- utils/tgp_utils.cc: `getLocalIp`. The socket, the count of table entries (`ifc_len /
-- sizeof(struct ifreq)`) and the text of each entry of the buffer come from the operating system.
use tgproxy.Common.{
  ℕ, zero, suc, ◌+◌, ◌≡◌, ◌≢◌, refl, ◌∙◌, sym, inl, inr, Bool, true, false, Text, codes, same_text,
  same_text_refl, same_text→eq, if◌then◌else◌, Bool-cases, arith,
}
use tgproxy.Common.Int.{ℤ, pos, negsuc}
use tgproxy.Utils.Lan.{is_lan}

abbrev loopback : Text
loopback = codes "127.0.0.1"

module _ (old0 old1 : ℤ) (entry : ℕ → Text) where
  -- The loop: `base` is how often `ifreq++` ran, `i` the loop's counter; the result is `outip`.
  ip_loop : ℕ → ℕ → Text → Text
  ip_loop base zero out = out
  ip_loop base (suc i) out = elim (same_text (entry (base + suc i)) loopback) [
    | true ↦ ip_loop (base + 1) i out
    | false ↦ elim (is_lan old0 old1 (entry (base + suc i))) [
      | true ↦ entry (base + suc i)
      | false ↦ ip_loop base i out
    ]
  ]

  -- `getLocalIp(outip)`: the result and the new `outip`.
  pub get_local_ip : Bool → ℕ → Text → ℤ × Text
  unfolding ip_loop
  get_local_ip socket_ok count out =
      if socket_ok then (pos 0, ip_loop 0 count out) else (negsuc 0, out)

  -- Moving the base forward while the counter moves back tests the same entry again.
  ip_loop_stuck :
      (base i : ℕ) (out : Text)
      → same_text (entry (base + i)) loopback ≡ true
      → ip_loop base i out ≡ out
  unfolding ip_loop
  ip_loop_stuck base zero out h = refl
  ip_loop_stuck base (suc i) out h =
      let same : base + suc i ≡ base + 1 + i = omega arith in
      rw (h, ip_loop) (ip_loop_stuck (base + 1) i out (rw (← same) h))

  ip_loop_lan :
      (base i : ℕ) (out : Text)
      → same_text (entry (base + suc i)) loopback ≡ false
      → is_lan old0 old1 (entry (base + suc i)) ≡ true
      → ip_loop base (suc i) out ≡ entry (base + suc i)
  unfolding ip_loop
  ip_loop_lan base i out h l = rw (h, l, ip_loop)

  ip_loop_next :
      (base i : ℕ) (out : Text)
      → same_text (entry (base + suc i)) loopback ≡ false
      → is_lan old0 old1 (entry (base + suc i)) ≡ false
      → ip_loop base (suc i) out ≡ ip_loop base i out
  unfolding ip_loop
  ip_loop_next base i out h l = rw (h, l, ip_loop)

  -- What the search finds: the entries from `i` down to 1, up to a loopback address.
  pub data Finds (out : Text) : ℕ → Text → Type 0 where
    none_left : Finds out zero out
    at_loopback : (i : ℕ) → entry (suc i) ≡ loopback → Finds out (suc i) out
    at_lan : (i : ℕ) → is_lan old0 old1 (entry (suc i)) ≡ true → Finds out (suc i) (entry (suc i))
    further :
        (i : ℕ) (t : Text)
        → entry (suc i) ≢ loopback
        → is_lan old0 old1 (entry (suc i)) ≡ false
        → Finds out i t
        → Finds out (suc i) t

  ip_loop-Finds : (i : ℕ) (out : Text) → Finds out i (ip_loop 0 i out)
  ip_loop-Finds zero out = unfold ip_loop in none_left
  ip_loop-Finds (suc i) out =
      let index : 0 + suc i ≡ suc i = omega arith in
      elim (Bool-cases (same_text (entry (suc i)) loopback)) [
        | inl h ↦ rw (ip_loop_stuck 0 (suc i) out (rw index h)) (at_loopback i (same_text→eq _ _ h))
        | inr h ↦ elim (Bool-cases (is_lan old0 old1 (entry (suc i)))) [
          | inl l ↦ rw (ip_loop_lan 0 i out (rw index h) (rw index l), index) (at_lan i l)
          | inr l ↦ rw (ip_loop_next 0 i out (rw index h) (rw index l)) (
              further i (ip_loop 0 i out) (λ e. cc (sym (rw e at h) ∙ same_text_refl loopback)) l
                (ip_loop-Finds i out))
        ]
      ]

  -- Where the socket opens, `getLocalIp` returns 0 and searches the entries count, count - 1, ..., 1 in
  -- that order: it takes the first LAN address, and it gives up with `outip` unchanged at the first
  -- loopback address, whatever stands behind it. Entry `count`, one past the entries reported, is the first
  -- of these, and entry 0 is none of them.
  pub get_local_ip-Finds :
      (count : ℕ) (out : Text)
      → ((get_local_ip true count out).0 ≡ pos 0) × Finds out count (get_local_ip true count out).1
  unfolding get_local_ip
  get_local_ip-Finds count out = (refl, ip_loop-Finds count out)
