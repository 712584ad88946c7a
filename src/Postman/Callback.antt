-- ===== src/Postman/Callback.antt =====
-- What the callbacks leave in `weights_`, in whatever order the requests complete.
use mathlib.Core.List.{Permᴰ}
use tgproxy.Common.{
  ℕ, ◌^◌, ◌≤◌, ◌<◌, ◌≡◌, ◌≢◌, ◌⊎◌, inl, inr, refl, sym, ap, ◌∙◌, subst, true, false, List, [], ◌∷◌,
  ◌++◌, append_assoc, none, some, Text, codes, length, length-set, get_elem?, get_elem?-set_self,
  get_elem?-set_ne, set, lt→ltb, ◌==◌, ==_iff, done, All, arith,
}
use native.Mathlib.Decide.{ℕ_discrete}
use tgproxy.Common.Int.{pos}
use tgproxy.Common.Decimal.{to_string, stoi, stoi-to_string, IsDigit, to_string-IsDigit}
use tgproxy.Postman.{Postman}
use tgproxy.Postman.Transfer.{
  Completion, url_of, after_slash, save_result, save_at, partition_save, ms_reply_callback,
  start_hub,
}

after_slash-none : (t : Text) → All IsDigit t → after_slash t ≡ none
unfolding after_slash
after_slash-none [] h = refl
after_slash-none (c ∷ t) h =
    rw (after_slash-none t h.1) (let other : (c == b'/') ≡ false = ground (arith, h.0) in rw other)

after_slash_last : (s t : Text) → All IsDigit t → after_slash (s ++ b'/' ∷ t) ≡ some t
unfolding after_slash
after_slash_last [] t h = rw (after_slash-none t h)
after_slash_last (c ∷ s) t h = rw (after_slash_last s t h)

-- The number at the end of a URL is its partition.
pub after_slash-url_of :
    (p : Postman) (host : Text) (i : ℕ) → after_slash (url_of p host i) ≡ some (to_string (pos i))
after_slash-url_of p host i =
    let before = host ++ codes "/1/" ++ p.model_name ++ codes "/" ++ p.model_ver in
    let ending = to_string (pos i) in
    ap after_slash (append_assoc before (b'/' ∷ []) ending)
    ∙ after_slash_last before ending (to_string-IsDigit i).0

abbrev pub Names : ℕ → Completion → Type 0
Names i c = after_slash c.url ≡ some (to_string (pos i))

pub to_string-injective :
    (i k : ℕ) → i < 2 ^ 31 → k < 2 ^ 31 → to_string (pos i) ≡ to_string (pos k) → i ≡ k
to_string-injective i k h l e =
    let f = sym (stoi-to_string i h) ∙ ap stoi e ∙ stoi-to_string k l in cc f

-- A response 200 for partition i is kept as `weights_[i]`.
pub callback_saves :
    (p : Postman) (c : Completion) (n i : ℕ)
    → p.range ≡ pos n
    → i < n
    → n ≤ 2 ^ 31
    → c.http_code ≡ 200
    → after_slash c.url ≡ some (to_string (pos i))
    → ms_reply_callback p c ≡ done (record p { weights = set p.weights i c.recv_data })
unfolding ms_reply_callback partition_save save_at save_result
callback_saves p c n i r h m code e =
    let test : (c.http_code == 200) ≡ true = (==_iff c.http_code 200).1 code in
    rw (test, e, stoi-to_string i (omega arith), r, lt→ltb i n h)

-- What is known of a completion: it is a response 200 for a partition below n, with the text that is expected
-- from that partition.
module _ (n : ℕ) (expected : ℕ → Text) where
  abbrev pub Fits : Completion → Type 0
  Fits c = (i : ℕ) × (i < n) × (c.http_code ≡ 200) × Names i c × (c.recv_data ≡ expected i)

  abbrev pub Answers : ℕ → List Completion → Type 0
  Answers i [] = ⊥
  Answers i (c ∷ cs) = Names i c ⊎ Answers i cs

  -- The vector `w'` came from `w` by writing expected texts.
  pub record Filled (w w' : List Text) (cs : List Completion) : Type 0 where
    pub same_length : length w' ≡ length w
    pub kept_or_written :
        (i : ℕ) → (get_elem? w' i ≡ get_elem? w i) ⊎ (get_elem? w' i ≡ some (expected i))
    pub written : (i : ℕ) → i < n → Answers i cs → get_elem? w' i ≡ some (expected i)
    pub unwritten : (i : ℕ) → (Answers i cs → ⊥) → get_elem? w' i ≡ get_elem? w i

  Filled-hit :
      (w w' : List Text) (i : ℕ) (d : Text) (cs : List Completion)
      → i < length w
      → d ≡ expected i
      → Filled (set w i d) w' cs
      → get_elem? w' i ≡ some (expected i)
  Filled-hit w w' i d cs l e f = elim (f.kept_or_written i) [
    | inl k ↦ k ∙ get_elem?-set_self w i d l ∙ ap some e
    | inr k ↦ k
  ]

  Filled-cons :
      (w w' : List Text) (i : ℕ) (d : Text) (c : Completion) (cs : List Completion)
      → i < n
      → n ≤ 2 ^ 31
      → n ≤ length w
      → d ≡ expected i
      → Names i c
      → Filled (set w i d) w' cs
      → Filled w w' (c ∷ cs)
  Filled-cons w w' i d c cs h m l e x f = record {
    same_length = f.same_length ∙ length-set w i d;
    kept_or_written = kept;
    written = written_at;
    unwritten = unwritten_at;
  }
    where
      hit : get_elem? w' i ≡ some (expected i)
      hit = Filled-hit w w' i d cs (omega arith) e f

      kept : (k : ℕ) → (get_elem? w' k ≡ get_elem? w k) ⊎ (get_elem? w' k ≡ some (expected k))
      kept k = elim (ℕ_discrete i k) [
        | yes same ↦ inr (subst (λ x. get_elem? w' x ≡ some (expected x)) same hit)
        | no other ↦ elim (f.kept_or_written k) [
          | inl g ↦ inl (g ∙ get_elem?-set_ne w i k d other)
          | inr g ↦ inr g
        ]
      ]

      written_at : (k : ℕ) → k < n → Answers k (c ∷ cs) → get_elem? w' k ≡ some (expected k)
      written_at k b (inl y) =
          let same : i ≡ k = to_string-injective i k (omega arith) (omega arith) (cc (x, y)) in
          subst (λ q. get_elem? w' q ≡ some (expected q)) same hit
      written_at k b (inr y) = f.written k b y

      unwritten_at : (k : ℕ) → (Answers k (c ∷ cs) → ⊥) → get_elem? w' k ≡ get_elem? w k
      unwritten_at k h =
          let other : i ≢ k = λ e. h (inl (subst (λ x'. Names x' c) e x)) in
          f.unwritten k (λ y. h (inr y)) ∙ get_elem?-set_ne w i k d other

  start_hub-cons :
      (p p' : Postman) (c : Completion) (cs : List Completion)
      → ms_reply_callback p c ≡ done p'
      → start_hub p (c ∷ cs) ≡ start_hub p' cs
  unfolding start_hub
  start_hub-cons p p' c cs e = rw (e, start_hub)

  -- The callbacks go through, in any order, and what they leave does not depend on it.
  pub start_hub-Filled :
      (cs : List Completion) (p : Postman)
      → p.range ≡ pos n
      → n ≤ 2 ^ 31
      → n ≤ length p.weights
      → All Fits cs
      → (w' : List Text) × (start_hub p cs ≡ done (record p { weights = w' }))
        × Filled p.weights w' cs
  start_hub-Filled [] p r m l a = (
    p.weights,
    unfold start_hub in refl,
    record {
      same_length = refl;
      kept_or_written = λ i. inl refl;
      written = λ i h x. absurd x;
      unwritten = λ i h. refl;
    },
  )
  start_hub-Filled (c ∷ cs) p r m l a =
      let (i, h, code, name, e) = a.0 in
      let p' : Postman = record p { weights = set p.weights i c.recv_data } in
      let rest =
        start_hub-Filled cs p' r m (omega (arith, length-set p.weights i c.recv_data)) a.1 in
      (
        rest.0,
        start_hub-cons p p' c cs (callback_saves p c n i r h m code name) ∙ rest.1,
        Filled-cons p.weights rest.0 i c.recv_data c cs h m l e name rest.2,
      )

pub All-perm :
    (P : Completion → Type 0) {cs ds : List Completion} → Permᴰ cs ds → All P cs → All P ds
All-perm P Permᴰ.nil a = a
All-perm P (Permᴰ.cons e q) (h, a) = (subst P e h, All-perm P q a)
All-perm P (Permᴰ.swap e f) a = (subst P f a.1.0, (subst P e a.0, a.1.1))
All-perm P (Permᴰ.trans q r) a = All-perm P r (All-perm P q a)

pub Answers-perm :
    (n : ℕ) (expected : ℕ → Text) (i : ℕ) {cs ds : List Completion}
    → Permᴰ cs ds
    → Answers n expected i cs
    → Answers n expected i ds
Answers-perm n f i Permᴰ.nil a = a
Answers-perm n f i (Permᴰ.cons e q) (inl h) = inl (subst (Names i) e h)
Answers-perm n f i (Permᴰ.cons e q) (inr a) = inr (Answers-perm n f i q a)
Answers-perm n f i (Permᴰ.swap e g) (inl h) = inr (inl (subst (Names i) e h))
Answers-perm n f i (Permᴰ.swap e g) (inr (inl h)) = inl (subst (Names i) g h)
Answers-perm n f i (Permᴰ.swap e g) (inr (inr a)) = inr (inr a)
Answers-perm n f i (Permᴰ.trans q r) a = Answers-perm n f i r (Answers-perm n f i q a)
