-- ===== src/Cluster/Rotation.antt =====
-- `getOneMsAddr` hands out the addresses in turn.
use tgproxy.Common.{
  ℕ, zero, suc, ◌+◌, ◌-◌, ◌%◌, ◌^◌, ◌≤◌, ◌<◌, ◌≡◌, ◌≢◌, refl, sym, ap, ◌∙◌, List, [], ◌∷◌, Text,
  length, get_or, arith, leb, if◌then◌else◌, Bool-cases, inl, inr, All, get_or-All, length-positive,
  subst,
}
use native.Mathlib.Nat.{mod-lt, mod-eq_of_lt, mod-add-mod, add-mod_right}
use tgproxy.Cluster.Admin.{Admin, next_count, served, get_one_ms_addr}

-- The state after k calls.
pub after_calls : ℕ → Admin → Admin
after_calls zero a = a
after_calls (suc k) a = after_calls k (get_one_ms_addr a).1

served_address :
    (a : Admin) (ms : List Text)
    → ms ≢ []
    → (served a ms).0 ≡ get_or ms (next_count a % length ms) []
unfolding served
served_address a [] h = absurd (h refl)
served_address a (m ∷ ms) h = refl

served_state :
    (a : Admin) (ms : List Text)
    → ms ≢ []
    → ((served a ms).1.ms_cluster ≡ a.ms_cluster) × ((served a ms).1.count ≡ next_count a)
unfolding served
served_state a [] h = absurd (h refl)
served_state a (m ∷ ms) h = (refl, refl)

-- How many calls away an index is.
gap : ℕ → ℕ → ℕ → ℕ
gap r p n = if leb r p then p - r else p + n - r

gap_lem : (r p n : ℕ) → r < n → p < n → (gap r p n < n) × ((r + gap r p n) % n ≡ p)
unfolding gap
gap_lem r p n h k = elim (Bool-cases (leb r p)) [
  | inl e ↦
      let le : r ≤ p = ground arith in
      let sum : r + (p - r) ≡ p = omega arith in
      rw e (omega arith, ap (λ (x : ℕ). x % n) sum ∙ mod-eq_of_lt k)
  | inr e ↦
      let lt : p < r = ground arith in
      let sum : r + (p + n - r) ≡ p + n = omega arith in
      rw e (omega arith, ap (λ (x : ℕ). x % n) sum ∙ add-mod_right p n ∙ mod-eq_of_lt k)
]

call_state :
    (a : Admin)
    → a.ms_cluster ≢ []
    → a.count + 1 < 2 ^ 64
    → ((get_one_ms_addr a).1.ms_cluster ≡ a.ms_cluster)
      × ((get_one_ms_addr a).1.count ≡ a.count + 1)
unfolding get_one_ms_addr
call_state a h n =
    let s = served_state a a.ms_cluster h in
    let plain : next_count a ≡ a.count + 1 = omega arith in (s.0, s.1 ∙ plain)

-- Calls change nothing but the count, which goes up by one a call.
after_calls_state :
    (k : ℕ) (a : Admin)
    → a.ms_cluster ≢ []
    → a.count + k < 2 ^ 64
    → ((after_calls k a).ms_cluster ≡ a.ms_cluster) × ((after_calls k a).count ≡ a.count + k)
unfolding after_calls
after_calls_state zero a h n = (refl, omega arith)
after_calls_state (suc k) a h n =
    let s = call_state a h (omega arith) in
    let rest =
      after_calls_state k (get_one_ms_addr a).1 (λ e. h (sym s.0 ∙ e)) (omega (arith, s.1)) in
    (rest.0 ∙ s.0, omega (arith, rest.1, s.1))

nth_address :
    (k : ℕ) (a : Admin)
    → a.ms_cluster ≢ []
    → a.count + suc k < 2 ^ 64
    → (get_one_ms_addr (after_calls k a)).0
      ≡ get_or a.ms_cluster ((a.count + suc k) % length a.ms_cluster) []
unfolding get_one_ms_addr
nth_address k a h n =
    let s = after_calls_state k a h (omega arith) in
    let plain : next_count (after_calls k a) ≡ a.count + suc k = omega (arith, s.1) in
    served_address (after_calls k a) (after_calls k a).ms_cluster (λ e. h (sym s.0 ∙ e))
    ∙ ap (λ (ms : List Text). get_or ms (next_count (after_calls k a) % length ms) []) s.0
    ∙ ap (λ (m : ℕ). get_or a.ms_cluster (m % length a.ms_cluster) []) plain

-- As long as `count_` does not wrap within them, the next n calls, n the number of addresses, reach
-- every address: for each index p of the list some call less than n ahead returns address p.
pub get_one_ms_addr-turns :
    (a : Admin) (p : ℕ)
    → p < length a.ms_cluster
    → a.count + length a.ms_cluster < 2 ^ 64
    → (k : ℕ) × (k < length a.ms_cluster)
      × ((get_one_ms_addr (after_calls k a)).0 ≡ get_or a.ms_cluster p [])
get_one_ms_addr-turns a p h n =
    let len = length a.ms_cluster in
    let g = gap_lem ((a.count + 1) % len) p len (mod-lt (a.count + 1) (omega arith)) h in
    let k = gap ((a.count + 1) % len) p len in
    let index : (a.count + suc k) % len ≡ p =
      ap (λ (m : ℕ). m % len) (omega arith) ∙ sym (mod-add-mod (a.count + 1) len k) ∙ g.1 in
    (
      k,
      g.0,
      nth_address k a (λ e. absurd (omega (arith, ap length e))) (omega (arith, g.0))
          ∙ ap (λ (i : ℕ). get_or a.ms_cluster i []) index,
    )

-- What holds of every address holds of the one that is handed out; the addresses stay.
pub get_one_ms_addr-All :
    (P : Text → Type 0) (a : Admin)
    → a.ms_cluster ≢ []
    → All P a.ms_cluster
    → P (get_one_ms_addr a).0 × ((get_one_ms_addr a).1.ms_cluster ≡ a.ms_cluster)
unfolding get_one_ms_addr
get_one_ms_addr-All P a h all =
    let len = length a.ms_cluster in
    let i = next_count a % len in
    let there : 0 < len = length-positive a.ms_cluster h in
    (
      subst P (sym (served_address a a.ms_cluster h))
          (get_or-All P a.ms_cluster i [] all (mod-lt (next_count a) there)),
      (served_state a a.ms_cluster h).0,
    )
