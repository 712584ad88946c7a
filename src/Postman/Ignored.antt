-- ===== src/Postman/Ignored.antt =====
-- The completions that the callback does not keep.
use tgproxy.Common.{
  ◌≡◌, inl, inr, refl, sym, ◌∙◌, false, List, [], ◌∷◌, ◌==◌, select, Bool-cases, Run, done, abort,
  Run-cases,
}
use tgproxy.Postman.{Postman}
use tgproxy.Postman.Transfer.{Completion, ms_reply_callback, start_hub}

-- A completion that is no response 200 leaves the postman as it was.
start_hub_skip :
    (p : Postman) (c : Completion) (cs : List Completion)
    → (c.http_code == 200) ≡ false
    → start_hub p (c ∷ cs) ≡ start_hub p cs
unfolding start_hub ms_reply_callback
start_hub_skip p c cs e = rw (e, start_hub)

-- The rest of the loop, behind a callback with this result.
hub_rest : Run Postman → List Completion → Run Postman
hub_rest (done q) cs = start_hub q cs
hub_rest abort cs = abort

start_hub-hub_rest :
    (p : Postman) (c : Completion) (cs : List Completion)
    → start_hub p (c ∷ cs) ≡ hub_rest (ms_reply_callback p c) cs
unfolding start_hub hub_rest
start_hub-hub_rest p c cs = elim (Run-cases (ms_reply_callback p c)) [
  | inl (q, e) ↦ rw (e, hub_rest, start_hub) refl
  | inr e ↦ rw (e, hub_rest, start_hub) refl
]

hub_rest-ext :
    (r : Run Postman) (cs ds : List Completion)
    → ((q : Postman) → start_hub q cs ≡ start_hub q ds)
    → hub_rest r cs ≡ hub_rest r ds
unfolding hub_rest
hub_rest-ext (done q) cs ds h = h q
hub_rest-ext abort cs ds h = refl

start_hub-both :
    (p : Postman) (c : Completion) (cs ds : List Completion)
    → ((q : Postman) → start_hub q cs ≡ start_hub q ds)
    → start_hub p (c ∷ cs) ≡ start_hub p (c ∷ ds)
start_hub-both p c cs ds h =
    start_hub-hub_rest p c cs
    ∙ hub_rest-ext (ms_reply_callback p c) cs ds h
    ∙ sym (start_hub-hub_rest p c ds)

-- The completions that are no response 200 do not matter.
pub start_hub-select :
    (p : Postman) (cs : List Completion)
    → start_hub p cs ≡ start_hub p (select (λ c. c.http_code == 200) cs)
start_hub-select p [] = refl
start_hub-select p (c ∷ cs) = elim (Bool-cases (c.http_code == 200)) [
  | inr e ↦ rw e (start_hub_skip p c cs e ∙ start_hub-select p cs)
  | inl e ↦
      rw e
        (start_hub-both p c cs (select (λ d. d.http_code == 200) cs) (λ q. start_hub-select q cs))
]
