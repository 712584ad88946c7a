-- ===== src/Postman/Features.antt =====
-- The steps of `checkRequest`: the loop over the features, and each test.
use tgproxy.Common.{
  ℕ, ◌≡◌, ◌≢◌, inl, inr, refl, ap, ◌∙◌, sym, Bool, true, false, List, [], ◌∷◌, ◌++◌, append_assoc,
  append-nil, none, some, Text, codes, done, abort, Bool-cases, Option-cases,
}
use tgproxy.Common.Int.{ℤ}
use tgproxy.Json.{Rapidjson, find, is_object, array_of, uint64_of}
use tgproxy.Postman.{
  Postman, ok, refused, feature_loop, checked, check_features, check_document, count_member,
  wrong_count,
}

module _ (j : Rapidjson) where
  open j use {Value, view, make}

  -- The values are these `uint64_t` numbers, in order.
  abbrev pub Reads : List Value → List ℕ → Type 0
  Reads [] [] = Unit
  Reads (v ∷ vs) (n ∷ ns) = (uint64_of j (view v) ≡ some n) × Reads vs ns
  Reads _ _ = ⊥

  pub feature_loop-none :
      (v : Value) (vs : List Value) (acc : List ℕ)
      → uint64_of j (view v) ≡ none
      → feature_loop j (v ∷ vs) acc ≡ (acc, false)
  unfolding feature_loop
  feature_loop-none v vs acc e = rw (e, feature_loop)

  pub feature_loop-some :
      (v : Value) (vs : List Value) (acc : List ℕ) (n : ℕ)
      → uint64_of j (view v) ≡ some n
      → feature_loop j (v ∷ vs) acc ≡ feature_loop j vs (acc ++ n ∷ [])
  unfolding feature_loop
  feature_loop-some v vs acc n e = rw (e, feature_loop)

  pub feature_loop-Reads :
      (vs : List Value) (ns acc : List ℕ) → Reads vs ns → feature_loop j vs acc ≡ (acc ++ ns, true)
  unfolding feature_loop
  feature_loop-Reads [] [] acc r = rw append-nil refl
  feature_loop-Reads [] (n ∷ ns) acc r = absurd r
  feature_loop-Reads (v ∷ vs) [] acc r = absurd r
  feature_loop-Reads (v ∷ vs) (n ∷ ns) acc r =
      feature_loop-some v vs acc n r.0
      ∙ feature_loop-Reads vs ns (acc ++ n ∷ []) r.1
      ∙ ap (λ xs. (xs, true)) (append_assoc acc (n ∷ []) ns)

  -- Whatever the loop pushes is a number of the values; it goes through only if all are.
  pub feature_loop_sound :
      (vs : List Value) (acc ns : List ℕ)
      → feature_loop j vs acc ≡ (ns, true)
      → (rest : List ℕ) × (ns ≡ acc ++ rest) × Reads vs rest
  unfolding feature_loop
  feature_loop_sound [] acc ns e = ([], ap (λ r. r.0) (sym e) ∙ sym (append-nil acc), tt)
  feature_loop_sound (v ∷ vs) acc ns e = elim (Option-cases (uint64_of j (view v))) [
    | inl gone ↦ absurd cc (feature_loop-none v vs acc gone, e)
    | inr (n, there) ↦
        let (rest, f, r) =
          feature_loop_sound vs (acc ++ n ∷ []) ns (sym (feature_loop-some v vs acc n there) ∙ e) in
        (n ∷ rest, f ∙ append_assoc acc (n ∷ []) rest, (there, r))
  ]

  pub checked_ok :
      (count : ℤ) (p : Postman) (ns : List ℕ)
      → ns ≢ []
      → wrong_count j count ns ≡ false
      → checked j count p (ns, true) ≡ (record p { features = ns }, ok)
  unfolding checked
  checked_ok count p [] h w = absurd (h refl)
  checked_ok count p (n ∷ ns) h w = rw w refl

  pub find_object :
      (d : Value) (name : Text) → is_object (view d) ≡ true → find j d name ≡ done (j.member d name)
  find_object d name e = rw (e, find) refl

  find_other : (d : Value) (name : Text) → is_object (view d) ≡ false → find j d name ≡ abort
  find_other d name e = rw (e, find) refl

  pub check_document_object :
      (p : Postman) (d : Value)
      → is_object (view d) ≡ true
      → check_document j p (some d)
        ≡ done (
            check_features j
              (count_member j (j.member d (codes "count")))
              p
              (j.member d (codes "features")))
  unfolding check_document
  check_document_object p d e =
      rw (find_object d (codes "count") e, find_object d (codes "features") e) refl

  pub check_document_other :
      (p : Postman) (d : Value) → is_object (view d) ≡ false → check_document j p (some d) ≡ abort
  unfolding check_document
  check_document_other p d e = rw (find_other d (codes "count") e) refl

  pub check_features_array :
      (count : ℤ) (p : Postman) (v : Value) (vs : List Value)
      → array_of j (view v) ≡ some vs
      → check_features j count p (some v) ≡ checked j count p (feature_loop j vs p.features)
  unfolding check_features
  check_features_array count p v vs e = rw (e, check_features)

  pub check_features_other :
      (count : ℤ) (p : Postman) (v : Value)
      → array_of j (view v) ≡ none
      → check_features j count p (some v)
        ≡ (p, refused (codes "please check, features is not array"))
  unfolding check_features
  check_features_other count p v e = rw (e, check_features)

  pub check_features_gone :
      (count : ℤ) (p : Postman)
      → check_features j count p none ≡ (p, refused (codes "please check, features is gone"))
  unfolding check_features
  check_features_gone count p = refl

  pub check_document-none :
      (p : Postman)
      → check_document j p none ≡ done (p, refused (codes "please check, wrong request json"))
  unfolding check_document
  check_document-none p = refl

  pub checked_wrong :
      (count : ℤ) (p : Postman) (n : ℕ) (ns : List ℕ)
      → wrong_count j count (n ∷ ns) ≡ true
      → checked j count p (n ∷ ns, true)
        ≡ (record p { features = n ∷ ns }, refused (codes "please check, features size != count"))
  unfolding checked
  checked_wrong count p n ns w = rw w refl

  pub checked_sound :
      (count : ℤ) (p q : Postman) (ns : List ℕ) (all : Bool)
      → checked j count p (ns, all) ≡ (q, ok)
      → (all ≡ true)
        × (q ≡ record p { features = ns })
        × (ns ≢ [])
        × (wrong_count j count ns ≡ false)
  unfolding checked
  checked_sound count p q ns false e = absurd cc e
  checked_sound count p q [] true e = absurd cc e
  checked_sound count p q (n ∷ ns) true e = elim (Bool-cases (wrong_count j count (n ∷ ns))) [
    | inl w ↦ absurd cc (checked_wrong count p n ns w, e)
    | inr w ↦ (refl, cc (checked_ok count p (n ∷ ns) (λ g. cc) w, e), λ g. cc, w)
  ]
