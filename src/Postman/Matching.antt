-- ===== src/Postman/Matching.antt =====
-- The answers of the servers find their slices, in whatever order they come.
use mathlib.Core.List.{Permᴰ}
use tgproxy.Common.{
  ℕ, zero, suc, ◌+◌, ◌^◌, ◌≤◌, ◌≡◌, ◌≢◌, inl, inr, refl, sym, ap, ◌∙◌, List, [], ◌∷◌, map, some,
  Text, length, concat, done, All, arith,
}
use tgproxy.Common.Int.{pos}
use tgproxy.Json.{Rapidjson, Laws}
use tgproxy.Postman.{Event, Postman, ok, encode_slice}
use tgproxy.Postman.Transfer.{Completion, answer_request, replied_with}
use tgproxy.Postman.Callback.{
  after_slash-url_of, Fits, Answers, Filled, start_hub-Filled, All-perm, Answers-perm,
}
use tgproxy.Postman.Send.{Sent, nothing, skipped, posted}
use tgproxy.Postman.Answers.{IsScored, Holds, answer_loop-Holds}

-- A server's answer to an event.
abbrev pub served_by : (Text → Text) → Event → Completion
served_by reply e = record { url = e.url; http_code = 200; recv_data = reply e.body }

-- `f` lists these slices from i on.
abbrev pub Lists : (ℕ → List ℕ) → ℕ → List (List ℕ) → Type 0
Lists f i [] = Unit
Lists f i (s ∷ ss) = (f i ≡ s) × Lists f (i + 1) ss

-- The i-th of a list of slices.
abbrev pub nth_slice : List (List ℕ) → ℕ → List ℕ
nth_slice [] i = []
nth_slice (s ∷ ss) zero = s
nth_slice (s ∷ ss) (suc i) = nth_slice ss i

Lists-suc :
    (f g : ℕ → List ℕ) (i : ℕ) (ss : List (List ℕ))
    → ((k : ℕ) → f (k + 1) ≡ g k)
    → Lists g i ss
    → Lists f (i + 1) ss
Lists-suc f g i [] e h = tt
Lists-suc f g i (s ∷ ss) e h = (e i ∙ h.0, Lists-suc f g (i + 1) ss e h.1)

the_suc : (k : ℕ) → k + 1 ≡ suc k
the_suc k = omega arith

pub Lists-nth_slice : (ss : List (List ℕ)) → Lists (nth_slice ss) 0 ss
Lists-nth_slice [] = tt
Lists-nth_slice (s ∷ ss) = (
  refl,
  Lists-suc (nth_slice (s ∷ ss)) (nth_slice ss) 0 ss (λ k. ap (nth_slice (s ∷ ss)) (the_suc k))
      (Lists-nth_slice ss),
)

module _ (j : Rapidjson) (laws : Laws j) (reply : Text → Text) where
  abbrev expected : (ℕ → List ℕ) → ℕ → Text
  expected f i = reply (encode_slice j (f i))

  module _ (p : Postman) (n : ℕ) (f : ℕ → List ℕ) where
    -- Every answer fits the partition that its URL names.
    Sent-Fits :
        (i : ℕ) (ss : List (List ℕ)) (es : List Event)
        → Sent j laws p i ss es
        → Lists f i ss
        → i + length ss ≤ n
        → All (Fits n (expected f)) (map (served_by reply) es)
    Sent-Fits _ _ _ (nothing i) l h = tt
    Sent-Fits _ _ _ (skipped i ss es s) l h = Sent-Fits (i + 1) ss es s l.1 (omega arith)
    Sent-Fits _ _ _ (posted i k ks ss es host s) l h = (
      (
        i,
        omega arith,
        refl,
        after_slash-url_of p host i,
        ap (λ t. reply (encode_slice j t)) (sym l.0),
      ),
      Sent-Fits (i + 1) ss es s l.1 (omega arith),
    )

    -- Every slice with keys is answered by one of the completions.
    abbrev Awaited : ℕ → List (List ℕ) → List Completion → Type 0
    Awaited i [] cs = Unit
    Awaited i (s ∷ ss) cs = (s ≢ [] → Answers n (expected f) i cs) × Awaited (i + 1) ss cs

    Sent-Awaited :
        (i : ℕ) (ss : List (List ℕ)) (es : List Event) (cs : List Completion)
        → Sent j laws p i ss es
        → ((k : ℕ)
            → Answers n (expected f) k (map (served_by reply) es)
            → Answers n (expected f) k cs)
        → Awaited i ss cs
    Sent-Awaited _ _ _ cs (nothing i) h = tt
    Sent-Awaited _ _ _ cs (skipped i ss es s) h =
        ((λ e. absurd (e refl)), Sent-Awaited (i + 1) ss es cs s h)
    Sent-Awaited _ _ _ cs (posted i k ks ss es host s) h = (
      (λ e. h i (inl (after_slash-url_of p host i))),
      Sent-Awaited (i + 1) ss es cs s (λ m a. h m (inr a)),
    )

    Awaited-Holds :
        (i : ℕ) (ss : List (List ℕ)) (w w' : List Text) (cs : List Completion)
        → Filled n (expected f) w w' cs
        → Lists f i ss
        → i + length ss ≤ n
        → Awaited i ss cs
        → (score : ℕ → j.Double) → Holds j reply score w' i ss
    Awaited-Holds i [] w w' cs fill l h a score = tt
    Awaited-Holds i (s ∷ ss) w w' cs fill l h a score = (
      (λ e. fill.written i (omega arith) (a.0 e) ∙ ap (λ t. some (reply (encode_slice j t))) l.0),
      Awaited-Holds (i + 1) ss w w' cs fill l.1 (omega arith) a.1 score,
    )

  -- From the completions, in any order, to the reply.
  pub answer_request-Sent :
      (score : ℕ → j.Double) (p p0 : Postman) (n : ℕ) (es : List Event) (cs : List Completion)
      → p.range ≡ pos n
      → n ≤ 2 ^ 31
      → length p.weights ≡ n
      → length p.slices ≡ n
      → Sent j laws p0 0 p.slices es
      → All (λ s. s ≢ [] → IsScored j reply score s) p.slices
      → Permᴰ (map (served_by reply) es) cs
      → (q : Postman) × (answer_request j p cs
          ≡ done (q, replied_with j (map score (concat p.slices), ok)))
  unfolding answer_request
  answer_request-Sent score p p0 n es cs r m lw ls sent scored perm =
      let f = nth_slice p.slices in
      let fits =
        All-perm (Fits n (expected f)) perm
          (Sent-Fits p0 n f 0 p.slices es sent (Lists-nth_slice p.slices) (omega arith)) in
      let run = start_hub-Filled n (expected f) cs p r m (omega arith) fits in
      let awaited =
        Sent-Awaited p0 n f 0 p.slices es cs sent (λ k. Answers-perm n (expected f) k perm) in
      let holds =
        Awaited-Holds p0 n f 0 p.slices p.weights run.0 cs run.2 (Lists-nth_slice p.slices)
          (omega arith) awaited score in
      let q : Postman = record p { weights = run.0 } in
      (q, rw (run.1, answer_loop-Holds j reply score p.slices q 0 [] scored holds) refl)
