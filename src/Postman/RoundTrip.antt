-- ===== src/Postman/RoundTrip.antt =====
-- A slice's request is itself a request that the proxy accepts.
use tgproxy.Common.{
  ℕ, ◌^◌, ◌<◌, ◌≡◌, ◌≢◌, refl, ap, ◌∙◌, List, [], ◌∷◌, map, none, some, codes, c_str, lt→ltb, done,
  All,
}
use tgproxy.Common.Int.{pos}
use tgproxy.Json.{Rapidjson, View, Laws, is_object, uint64_of, array_of, integers, one_member}
use tgproxy.Postman.{Postman, ok, check_request, encode_slice, count_member, wrong_count}
use tgproxy.Postman.Features.{Reads}
use tgproxy.Postman.Requests.{IsRequest, check_request-IsRequest}

module _ (j : Rapidjson) (laws : Laws j) where
  open j use {view, make, write}

  uint64_of-made : (n : ℕ) → n < 2 ^ 64 → uint64_of j (view (make (View.integer (pos n)))) ≡ some n
  uint64_of-made n h = rw (laws.view-make (View.integer (pos n)), lt→ltb n (2 ^ 64) h) refl

  integers-Reads :
      (ns : List ℕ)
      → All (λ n. n < 2 ^ 64) ns
      → Reads j (map (λ n. make (View.integer (pos n))) ns) ns
  integers-Reads [] a = tt
  integers-Reads (n ∷ ns) a = (uint64_of-made n a.0, integers-Reads ns a.1)

  encode_slice-IsRequest :
      (keys : List ℕ)
      → keys ≢ []
      → All (λ k. k < 2 ^ 64) keys
      → IsRequest j (encode_slice j keys) keys
  unfolding encode_slice
  encode_slice-IsRequest keys there small =
      let doc = one_member j (codes "features") (integers j keys) in
      let facts = laws.parse-write (codes "features") keys small in
      let no_count : j.member doc (codes "count") ≡ none =
        laws.member-other (codes "features") (codes "count") (integers j keys) (λ e. cc) in
      record {
        document = doc;
        array = integers j keys;
        values = map (λ n. make (View.integer (pos n))) keys;
        parsed = ap j.parse (ap c_str facts.0 ∙ facts.0) ∙ facts.2;
        object = ap is_object (laws.view-make _);
        member = laws.member-one (codes "features") (integers j keys);
        viewed = ap (array_of j) (laws.view-make _);
        numbers = integers-Reads keys small;
        there = there;
        counted = ap (λ c. wrong_count j (count_member j c) keys) no_count;
      }

  -- What `encodeSlice` makes of keys below 2^64, at least one, is accepted by `checkRequest` of a
  -- postman without features, which then holds the keys in their order, as the JSON library keeps its
  -- laws.
  pub check_request-encode_slice :
      (p : Postman) (keys : List ℕ)
      → p.features ≡ []
      → keys ≢ []
      → All (λ k. k < 2 ^ 64) keys
      → check_request j p (encode_slice j keys) ≡ done (record p { features = keys }, ok)
  check_request-encode_slice p keys e there small =
      (check_request-IsRequest j p (record p { features = keys }) (encode_slice j keys) e).1
        (encode_slice-IsRequest keys there small, refl)
