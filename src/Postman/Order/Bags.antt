-- ===== src/Postman/Order/Bags.antt =====
-- What completes on the hub without its order, for `answerRequest`.
use mathlib.Core.List.{Permᴰ}
use mathlib.Core.Quot
use mathlib.Core.Quot.{Quot}
use tgproxy.Common.{ℕ, ◌≡◌, List, Text, Run, All}
use tgproxy.Json.{Rapidjson}
use tgproxy.Postman.{Postman}
use tgproxy.Postman.Transfer.{Completion, Reply, answer_request}
use tgproxy.Postman.Order.{IsTextOf, answer_request-perm}

-- Completions in an order, of which those that are kept for a partition agree.
abbrev pub Ordered : Postman → (ℕ → Text) → Type 0
Ordered p response = (cs : List Completion) × All (IsTextOf p.range response) cs

-- The same, up to the order.
abbrev pub Completed : Postman → (ℕ → Text) → Type 0
Completed p response = Quot (λ (a b : Ordered p response). Permᴰ a.0 b.0)

module _ (j : Rapidjson) (p : Postman) (response : ℕ → Text) where
  -- A function that gives for completions without an order what `answerRequest` gives in any order.
  abbrev pub Factors : (Completed p response → Run (Postman × Reply)) → Type 0
  Factors f = (a : Ordered p response) → f (Quot.mk a) ≡ answer_request j p a.0

  is_set : IsSet (Run (Postman × Reply))
  is_set = hlevel

  answer_in : Ordered p response → Run (Postman × Reply)
  answer_in a = answer_request j p a.0

  answer_in-perm : (a b : Ordered p response) → Permᴰ a.0 b.0 → answer_in a ≡ answer_in b
  unfolding answer_in
  answer_in-perm a b q = answer_request-perm j p response a.0 b.0 a.1 q

  answer_of : Completed p response → Run (Postman × Reply)
  unfolding answer_in
  answer_of = Quot.lift is_set answer_in answer_in-perm
