-- ===== src/Examples/Documents/Laws.antt =====
-- The small library keeps the laws, and a server of it scores a key as the key.
use mathlib.Core.Path.{ap₂}
use mathlib.Core.List.{cons-ne-nil, map-append}
use tgproxy.Common.{
  ℕ, suc, ◌-◌, ◌≡◌, ◌≢◌, inl, inr, refl, sym, ap, ◌∙◌, List, [], ◌∷◌, ◌++◌, map, append_assoc,
  append-nil, none, some, Text, codes, same_text, same_text_refl, same_text→eq, length, drop, c_str,
  Bool-cases, arith, done,
}
use tgproxy.Json.{View, Laws, one_member, integers}
use tgproxy.Common.Int.{pos}
use tgproxy.Postman.{
  ok, encode_slice, weight_loop, decode_members, decode_document, decode_ms_weights,
}
use tgproxy.Postman.Answers.{IsScored}
use tgproxy.Examples.Documents.{
  Doc, real, to_list, of_list, to_pairs, of_pairs, view_doc, make_doc, member_doc, payload,
  write_doc, read_name, numbers_doc, weights_doc, parse_doc, toy,
}

to_list-of_list : (ds : List Doc) → to_list (of_list ds) ≡ ds
to_list-of_list [] = refl
to_list-of_list (d ∷ ds) = ap (◌∷◌ d) (to_list-of_list ds)

to_pairs-of_pairs : (ms : List (Text × Doc)) → to_pairs (of_pairs ms) ≡ ms
to_pairs-of_pairs [] = refl
to_pairs-of_pairs ((name, d) ∷ ms) = ap (◌∷◌ (name, d)) (to_pairs-of_pairs ms)

toy_view-make : (v : View Doc ℕ) → view_doc (make_doc v) ≡ v
toy_view-make View.null = refl
toy_view-make (View.boolean b) = refl
toy_view-make (View.integer n) = refl
toy_view-make (View.real d) = refl
toy_view-make (View.text t) = refl
toy_view-make (View.array ds) = ap View.array (to_list-of_list ds)
toy_view-make (View.object ms) = ap View.object (to_pairs-of_pairs ms)

toy_member-one : (name : Text) (d : Doc) → member_doc (one_member toy name d) name ≡ some d
toy_member-one name d = rw (same_text_refl name) refl

toy_member-other :
    (name other : Text) (d : Doc) → name ≢ other → member_doc (one_member toy name d) other ≡ none
toy_member-other name other d h = elim (Bool-cases (same_text name other)) [
  | inl e ↦ absurd (h (same_text→eq name other e))
  | inr e ↦ rw e refl
]

payload-numbers :
    (ns : List ℕ) → payload (of_list (map (λ n. make_doc (View.integer (pos n))) ns)) ≡ map suc ns
payload-numbers [] = refl
payload-numbers (n ∷ ns) = ap (◌∷◌ (suc n)) (payload-numbers ns)

pred_suc : (n : ℕ) → suc n - 1 ≡ n
pred_suc n = omega arith

map-pred_suc : (ns : List ℕ) → map (λ b. b - 1) (map suc ns) ≡ ns
map-pred_suc [] = refl
map-pred_suc (n ∷ ns) = ap₂ ◌∷◌ (pred_suc n) (map-pred_suc ns)

read_name-written :
    (name ns : Text) → read_name (length name) (map suc name ++ map suc ns) ≡ (name, ns)
read_name-written [] ns = ap (λ x. ([], x)) (map-pred_suc ns)
read_name-written (b ∷ name) ns =
    let e = read_name-written name ns in ap₂ (λ c r. (c ∷ r.0, r.1)) (pred_suc b) e

c_str-suc : (t : Text) → c_str (map suc t) ≡ map suc t
c_str-suc [] = refl
c_str-suc (b ∷ t) = ground (arith, c_str-suc t)

-- What a document of integers is written as.
written : Text → List ℕ → Text
written name ns = 1 ∷ suc (length name) ∷ map suc (name ++ ns)

write-written :
    (name : Text) (ns : List ℕ)
    → write_doc (one_member toy name (integers toy ns)) ≡ written name ns
unfolding written
write-written name ns =
    ap (λ t. 1 ∷ suc (length name) ∷ t)
      (ap (λ p. map suc name ++ p) (payload-numbers ns) ∙ sym (map-append suc name ns))

c_str-written : (name : Text) (ns : List ℕ) → c_str (written name ns) ≡ written name ns
unfolding written
c_str-written name ns = ground (arith, c_str-suc (name ++ ns))

parse-written :
    (name : Text) (ns : List ℕ)
    → parse_doc (written name ns) ≡ some (one_member toy name (integers toy ns))
unfolding written
parse-written name ns =
    let read =
      ap (λ n. read_name n (map suc (name ++ ns))) (pred_suc (length name))
      ∙ ap (read_name (length name)) (map-append suc name ns)
      ∙ read_name-written name ns in
    ap (λ r. some (numbers_doc r.0 r.1)) read

written-there : (name : Text) (ns : List ℕ) → written name ns ≢ []
unfolding written
written-there name ns = cons-ne-nil 1 (suc (length name) ∷ map suc (name ++ ns))

pub toy_laws : Laws toy
toy_laws = record {
  view-make = toy_view-make;
  member-one = toy_member-one;
  member-other = toy_member-other;
  parse-write = λ name ns small.
      let e = write-written name ns in
      (
        ap c_str e ∙ c_str-written name ns ∙ sym e,
        (λ h. written-there name ns (sym e ∙ h)),
        ap parse_doc e ∙ parse-written name ns,
      );
}

-- The reply of a server: the weights that the keys are.
abbrev pub toy_reply : Text → Text
toy_reply t = 2 ∷ drop 10 t

abbrev pub toy_score : ℕ → ℕ
toy_score k = k

encode_slice-written : (s : List ℕ) → encode_slice toy s ≡ written (codes "features") s
unfolding encode_slice
encode_slice-written s =
    ap c_str (write-written (codes "features") s) ∙ c_str-written (codes "features") s

reply-written : (s : List ℕ) → toy_reply (encode_slice toy s) ≡ 2 ∷ map suc s
unfolding written
reply-written s = ap toy_reply (encode_slice-written s)

weight_loop-reals :
    (s ws : List ℕ)
    → weight_loop toy (to_list (of_list (map real s))) ws ≡ (ws ++ map toy_score s, ok)
unfolding weight_loop
weight_loop-reals [] ws = ap (λ r. (r, ok)) (sym (append-nil ws))
weight_loop-reals (k ∷ s) ws =
    weight_loop-reals s (ws ++ k ∷ [])
    ∙ ap (λ r. (r, ok)) (append_assoc ws (k ∷ []) (map toy_score s))

weights_parsed : (s : List ℕ) → parse_doc (c_str (2 ∷ map suc s)) ≡ some (weights_doc s)
weights_parsed s =
    ap (λ t. parse_doc (2 ∷ t)) (c_str-suc s) ∙ ap (λ ws. some (weights_doc ws)) (map-pred_suc s)

decode_weights :
    (s ws : List ℕ) → decode_ms_weights toy (2 ∷ map suc s) ws ≡ done (ws ++ map toy_score s, ok)
unfolding decode_ms_weights decode_document decode_members
decode_weights s ws =
    ap (decode_document toy ws) (weights_parsed s) ∙ ap done (weight_loop-reals s ws)

pub toy-IsScored : (s : List ℕ) → IsScored toy toy_reply toy_score s
toy-IsScored s = record {
  text_there = λ h. cons-ne-nil 2 (map suc s) (sym (reply-written s) ∙ h);
  decodes = λ ws. ap (λ t. decode_ms_weights toy t ws) (reply-written s) ∙ decode_weights s ws;
}
