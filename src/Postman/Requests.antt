-- ===== src/Postman/Requests.antt =====
-- What `checkRequest` accepts.
use tgproxy.Common.{
  ℕ, ◌≡◌, ◌≢◌, ◌↔◌, inl, inr, ap, ◌∙◌, sym, subst, true, false, List, [], ◌++◌, some, Text, codes,
  c_str, done, Bool-cases, Option-cases,
}
use tgproxy.Common.Int.{ℤ}
use tgproxy.Json.{Rapidjson, is_object, array_of}
use tgproxy.Postman.{
  Postman, ok, feature_loop, checked, check_features, check_document, check_request, count_member,
  wrong_count,
}
use tgproxy.Postman.Features.{
  Reads, feature_loop-Reads, feature_loop_sound, checked_ok, check_document_object,
  check_document_other, check_features_array, check_features_other, check_features_gone,
  check_document-none, checked_sound,
}

module _ (j : Rapidjson) where
  open j use {Value, view}

  -- A body that is accepted: an object whose array of features reads as these numbers, at least one,
  -- and whose count, if it is an integer other than -1, is their number.
  pub record IsRequest (body : Text) (features : List ℕ) : Type 0 where
    pub document : Value
    pub array : Value
    pub values : List Value
    pub parsed : j.parse (c_str body) ≡ some document
    pub object : is_object (view document) ≡ true
    pub member : j.member document (codes "features") ≡ some array
    pub viewed : array_of j (view array) ≡ some values
    pub numbers : Reads j values features
    pub there : features ≢ []
    pub counted :
        wrong_count j (count_member j (j.member document (codes "count"))) features ≡ false

  check_request-accepts :
      (p : Postman) (body : Text) (features : List ℕ)
      → p.features ≡ []
      → IsRequest body features
      → check_request j p body ≡ done (record p { features = features }, ok)
  unfolding check_request
  check_request-accepts p body features e r =
      let count = count_member j (j.member r.document (codes "count")) in
      ap (check_document j p) r.parsed
      ∙ check_document_object j p r.document r.object
      ∙ ap (λ m. done (check_features j count p m)) r.member
      ∙ ap done (
          check_features_array j count p r.array r.values r.viewed
          ∙ ap (λ fs. checked j count p (feature_loop j r.values fs)) e
          ∙ ap (checked j count p) (feature_loop-Reads j r.values features [] r.numbers)
          ∙ checked_ok j count p features r.there r.counted)

  features_sound :
      (count : ℤ) (p q : Postman) (v : Value)
      → p.features ≡ []
      → check_features j count p (some v) ≡ (q, ok)
      → (vs : List Value) × (array_of j (view v) ≡ some vs)
        × Reads j vs q.features
        × (q ≡ record p { features = q.features })
        × (q.features ≢ [])
        × (wrong_count j count q.features ≡ false)
  features_sound count p q v none_yet e = elim (Option-cases (array_of j (view v))) [
    | inl gone ↦ absurd cc (check_features_other j count p v gone, e)
    | inr (vs, there) ↦
        let run = feature_loop j vs p.features in
        let (all, f, n, w) =
          checked_sound j count p q run.0 run.1
            (sym (check_features_array j count p v vs there) ∙ e) in
        let (rest, g, reads) =
          feature_loop_sound j vs p.features run.0 (ap (λ b. (run.0, b)) all) in
        let kept : q.features ≡ run.0 = ap (λ r. r.features) f in
        let same : rest ≡ q.features = sym (ap (λ acc. acc ++ rest) none_yet) ∙ sym g ∙ sym kept in
        (
          vs,
          there,
          subst (Reads j vs) same reads,
          f ∙ ap (λ fs. record p { features = fs }) (sym kept),
          (λ h. n (sym kept ∙ h)),
          subst (λ fs. wrong_count j count fs ≡ false) (sym kept) w,
        )
  ]

  document_sound :
      (p q : Postman) (body : Text) (d : Value)
      → p.features ≡ []
      → j.parse (c_str body) ≡ some d
      → check_document j p (some d) ≡ done (q, ok)
      → IsRequest body q.features × (q ≡ record p { features = q.features })
  document_sound p q body d none_yet parsed e = elim (Bool-cases (is_object (view d))) [
    | inr other ↦ absurd cc (check_document_other j p d other, e)
    | inl object ↦
        let count = count_member j (j.member d (codes "count")) in
        let f : check_features j count p (j.member d (codes "features")) ≡ (q, ok) =
          cc (check_document_object j p d object, e) in
        elim (Option-cases (j.member d (codes "features"))) [
          | inl gone ↦ absurd cc (check_features_gone j count p, f, gone)
          | inr (v, there) ↦
              let (vs, viewed, reads, same, n, w) =
                features_sound count p q v none_yet
                  (sym (ap (check_features j count p) there) ∙ f) in
              (
                record {
                  document = d;
                  array = v;
                  values = vs;
                  parsed = parsed;
                  object = object;
                  member = there;
                  viewed = viewed;
                  numbers = reads;
                  there = n;
                  counted = w;
                },
                same,
              )
        ]
  ]

  accepted-IsRequest :
      (p q : Postman) (body : Text)
      → p.features ≡ []
      → check_request j p body ≡ done (q, ok)
      → IsRequest body q.features × (q ≡ record p { features = q.features })
  unfolding check_request
  accepted-IsRequest p q body none_yet e = elim (Option-cases (j.parse (c_str body))) [
    | inl gone ↦ absurd cc (check_document-none j p, e, gone)
    | inr (d, there) ↦
        document_sound p q body d none_yet there (sym (ap (check_document j p) there) ∙ e)
  ]

  -- `checkRequest` of a postman without features answers true exactly for the bodies that parse to an
  -- object whose member features is an array of `uint64_t` numbers, at least one, and whose member
  -- count, where it is an integer other than -1, is their number; it then keeps those numbers, in
  -- their order, and changes nothing else.
  pub check_request-IsRequest :
      (p q : Postman) (body : Text)
      → p.features ≡ []
      → (check_request j p body ≡ done (q, ok))
        ↔ (IsRequest body q.features × (q ≡ record p { features = q.features }))
  check_request-IsRequest p q body none_yet = (
    accepted-IsRequest p q body none_yet,
    λ h. check_request-accepts p body q.features none_yet h.0 ∙ ap (λ r. done (r, ok)) (sym h.1),
  )
