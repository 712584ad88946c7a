-- ===== src/Examples/Orders.antt =====
-- Four completions in two orders: two answers, a response cut off by a failure, and one without a number.
use mathlib.Core.List.{Permᴰ}
use tgproxy.Common.{ℕ, ◌≡◌, refl, List, [], ◌∷◌, some, Text, codes, ◌==◌, if◌then◌else◌, done, All}
use tgproxy.Postman.{Postman}
use tgproxy.Postman.Transfer.{Completion, answer_request}
use tgproxy.Postman.Order.{IsTextOf, answer_request-perm}
use tgproxy.Examples.Documents.{toy}
use tgproxy.Examples.Requests.{asked}

abbrev reply_at : ℕ → Text
reply_at i = if i == 0 then codes "[1]" else codes "[2]"

abbrev from_0 : Completion
from_0 = record { url = codes "a/0"; http_code = 200; recv_data = codes "[1]" }

abbrev from_1 : Completion
from_1 = record { url = codes "b/1"; http_code = 200; recv_data = codes "[2]" }

abbrev failed_1 : Completion
failed_1 = record { url = codes "b/1"; http_code = 500; recv_data = codes "err" }

abbrev unnamed : Completion
unnamed = record { url = codes "b"; http_code = 200; recv_data = codes "ok" }

texts : All (IsTextOf asked.range reply_at) (failed_1 ∷ from_0 ∷ unnamed ∷ from_1 ∷ [])
unfolding tgproxy.Postman.Transfer.after_slash tgproxy.Common.Decimal.stoi
texts = (
  λ i e. cc e,
  (
    (λ i e. let q : 0 ≡ i = cc e in rw (← q) refl),
    ((λ i e. cc e), ((λ i e. let q : 1 ≡ i = cc e in rw (← q) refl), tt)),
  ),
)

reordered :
    Permᴰ (failed_1 ∷ from_0 ∷ unnamed ∷ from_1 ∷ []) (from_0 ∷ failed_1 ∷ from_1 ∷ unnamed ∷ [])
reordered =
    Permᴰ.trans (Permᴰ.swap refl refl) (Permᴰ.cons refl (Permᴰ.cons refl (Permᴰ.swap refl refl)))

answer_request-perm_example :
    answer_request toy asked (failed_1 ∷ from_0 ∷ unnamed ∷ from_1 ∷ [])
    ≡ answer_request toy asked (from_0 ∷ failed_1 ∷ from_1 ∷ unnamed ∷ [])
answer_request-perm_example =
    answer_request-perm toy asked reply_at (failed_1 ∷ from_0 ∷ unnamed ∷ from_1 ∷ [])
      (from_0 ∷ failed_1 ∷ from_1 ∷ unnamed ∷ []) texts reordered
