-- ===== src/Postman/Order.antt =====
-- tgp_postman.cc, `MSReplyCallback` and `saveMCurlResult`: the orders in which the responses complete.
pub mod Bags
use mathlib.Core.List.{Permᴰ}
use native.Mathlib.Decide.{ℕ_discrete}
use tgproxy.Common.{
  ℕ, zero, suc, ◌≡◌, ◌≢◌, refl, sym, ap, ◌∙◌, List, [], ◌∷◌, Option, none, some, Text, set, ◌==◌,
  if◌then◌else◌, Bool-cases, inl, inr, Run, done, abort, ◌>>=◌, bind-ext, bind_assoc, All,
}
use tgproxy.Common.Int.{ℤ, pos, negsuc}
use tgproxy.Common.Decimal.{stoi}
use tgproxy.Json.{Rapidjson}
use tgproxy.Postman.{Postman}
use tgproxy.Postman.Transfer.{
  Completion, after_slash, below_range, save_result, save_at, partition_save, ms_reply_callback,
  start_hub, answer_request,
}
use tgproxy.Postman.Callback.{All-perm}

-- Where a response 200 is kept: an exception or a failed assertion is `abort`.
abbrev slot_of : ℤ → Option ℤ → Run (Option ℕ)
slot_of range none = abort
slot_of range (some (negsuc zero)) = done none
slot_of range (some (negsuc (suc n))) = abort
slot_of range (some (pos i)) = if below_range i range then done (some i) else abort

abbrev slot_in : ℤ → Option Text → Run (Option ℕ)
slot_in range none = done none
slot_in range (some digits) = slot_of range (stoi digits)

abbrev pub slot : ℤ → Completion → Run (Option ℕ)
slot range c = if c.http_code == 200 then slot_in range (after_slash c.url) else done none

abbrev saved : Run (Option ℕ) → Text → Postman → Run Postman
saved abort response p = abort
saved (done none) response p = done p
saved (done (some i)) response p = done (record p { weights = set p.weights i response })

save_at-saved :
    (p : Postman) (response : Text) (i : Option ℤ)
    → save_at p response i ≡ saved (slot_of p.range i) response p
unfolding save_at save_result
save_at-saved p response none = refl
save_at-saved p response (some (negsuc zero)) = refl
save_at-saved p response (some (negsuc (suc n))) = refl
save_at-saved p response (some (pos i)) = elim (Bool-cases (below_range i p.range)) [
  | inl e ↦ rw e refl
  | inr e ↦ rw e refl
]

partition_save-saved :
    (p : Postman) (response : Text) (digits : Option Text)
    → partition_save p response digits ≡ saved (slot_in p.range digits) response p
unfolding partition_save
partition_save-saved p response none = refl
partition_save-saved p response (some digits) = save_at-saved p response (stoi digits)

ms_reply_callback-saved :
    (p : Postman) (c : Completion) → ms_reply_callback p c ≡ saved (slot p.range c) c.recv_data p
unfolding ms_reply_callback
ms_reply_callback-saved p c = elim (Bool-cases (c.http_code == 200)) [
  | inl e ↦ rw e (partition_save-saved p c.recv_data (after_slash c.url))
  | inr e ↦ rw e refl
]

-- The run of the callbacks, for a range that they do not change.
abbrev kept_all : ℤ → Postman → List Completion → Run Postman
kept_all range p [] = done p
kept_all range p (c ∷ cs) = saved (slot range c) c.recv_data p >>= λ q. kept_all range q cs

saved-kept_all :
    (range : ℤ) (p : Postman) (c : Completion) (cs : List Completion) (s : Run (Option ℕ))
    → ((q : Postman) → q.range ≡ range → start_hub q cs ≡ kept_all range q cs)
    → p.range ≡ range
    → (elim (saved s c.recv_data p) [ done p' ↦ start_hub p' cs | abort ↦ abort ])
      ≡ (saved s c.recv_data p >>= λ q. kept_all range q cs)
saved-kept_all range p c cs abort h e = refl
saved-kept_all range p c cs (done none) h e = h p e
saved-kept_all range p c cs (done (some i)) h e =
    h (record p { weights = set p.weights i c.recv_data }) e

start_hub-kept_all :
    (cs : List Completion) (range : ℤ) (p : Postman)
    → p.range ≡ range
    → start_hub p cs ≡ kept_all range p cs
unfolding start_hub
start_hub-kept_all [] range p e = refl
start_hub-kept_all (c ∷ cs) range p e =
    let first = ms_reply_callback-saved p c ∙ ap (λ z. saved (slot z c) c.recv_data p) e in
    rw (start_hub, first)
      (saved-kept_all range p c cs (slot range c) (λ q d. start_hub-kept_all cs range q d) e)

set-set_comm :
    (ws : List Text) (i k : ℕ) (s t : Text) → i ≢ k → set (set ws i s) k t ≡ set (set ws k t) i s
set-set_comm [] i k s t d = refl
set-set_comm (w ∷ ws) zero zero s t d = absurd (d refl)
set-set_comm (w ∷ ws) zero (suc k) s t d = refl
set-set_comm (w ∷ ws) (suc i) zero s t d = refl
set-set_comm (w ∷ ws) (suc i) (suc k) s t d =
    ap (◌∷◌ w) (set-set_comm ws i k s t (λ e. d (ap suc e)))

saved-saved_comm :
    (a b : Run (Option ℕ)) (s t : Text) (p : Postman)
    → ((i : ℕ) → a ≡ done (some i) → b ≡ done (some i) → s ≡ t)
    → (saved a s p >>= saved b t) ≡ (saved b t p >>= saved a s)
saved-saved_comm abort abort s t p h = refl
saved-saved_comm abort (done none) s t p h = refl
saved-saved_comm abort (done (some k)) s t p h = refl
saved-saved_comm (done none) abort s t p h = refl
saved-saved_comm (done none) (done none) s t p h = refl
saved-saved_comm (done none) (done (some k)) s t p h = refl
saved-saved_comm (done (some i)) abort s t p h = refl
saved-saved_comm (done (some i)) (done none) s t p h = refl
saved-saved_comm (done (some i)) (done (some k)) s t p h = elim (ℕ_discrete i k) [
  | yes e ↦ rw (h i refl (ap (λ j. done (some j)) (sym e)), e) refl
  | no d ↦ ap (λ ws. done (record p { weights = ws })) (set-set_comm p.weights i k s t d)
]

-- A response that is kept is the one of its partition.
abbrev pub IsTextOf : ℤ → (ℕ → Text) → Completion → Type 0
IsTextOf range response c = (i : ℕ) → slot range c ≡ done (some i) → c.recv_data ≡ response i

swapped :
    (range : ℤ) (response : ℕ → Text) (c d : Completion) (cs : List Completion) (p : Postman)
    → IsTextOf range response c
    → IsTextOf range response d
    → kept_all range p (c ∷ d ∷ cs) ≡ kept_all range p (d ∷ c ∷ cs)
swapped range response c d cs p h l =
    let rest : Postman → Run Postman = λ q. kept_all range q cs in
    let first = saved (slot range c) c.recv_data in
    let second = saved (slot range d) d.recv_data in
    sym (bind_assoc (first p) second rest)
    ∙ ap (λ r. r >>= rest)
        (saved-saved_comm (slot range c) (slot range d) c.recv_data d.recv_data p
          (λ i e f. h i e ∙ sym (l i f)))
    ∙ bind_assoc (second p) first rest

kept_all-perm :
    (range : ℤ) (response : ℕ → Text) {cs ds : List Completion}
    → Permᴰ cs ds
    → All (IsTextOf range response) cs
    → (p : Postman) → kept_all range p cs ≡ kept_all range p ds
kept_all-perm range response Permᴰ.nil a p = refl
kept_all-perm range response (Permᴰ.cons {a = c} {l₁ = cs} {l₂ = ds} e q) a p =
    bind-ext (saved (slot range c) c.recv_data p) _ _ (λ p'. kept_all-perm range response q a.1 p')
    ∙ ap (λ x. kept_all range p (x ∷ ds)) e
kept_all-perm range response (Permᴰ.swap {a = c} {b = d} {a' = c'} {b' = d'} {l = cs} e f) a p =
    swapped range response c d cs p a.0 a.1.0
    ∙ ap (λ x. kept_all range p (x ∷ c ∷ cs)) f
    ∙ ap (λ y. kept_all range p (c' ∷ y ∷ cs)) e
kept_all-perm range response (Permᴰ.trans q r) a p =
    kept_all-perm range response q a p
    ∙ kept_all-perm range response r (All-perm (IsTextOf range response) q a) p

-- The callbacks and the answer do not depend on the order in which the requests complete: any two orders of
-- the same completions, answers, failures, odd URLs and exceptions among them, leave the same postman and
-- the same reply, or both end in an exception or a failed assertion. The one condition is that what is kept
-- for a partition is the same text each time, as it is where a partition completes once.
pub answer_request-perm :
    (j : Rapidjson) (p : Postman) (response : ℕ → Text) (cs ds : List Completion)
    → All (IsTextOf p.range response) cs
    → Permᴰ cs ds
    → answer_request j p cs ≡ answer_request j p ds
unfolding answer_request
answer_request-perm j p response cs ds a q =
    let same =
      start_hub-kept_all cs p.range p refl
      ∙ kept_all-perm p.range response q a p
      ∙ sym (start_hub-kept_all ds p.range p refl) in
    rw same refl
