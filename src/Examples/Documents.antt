-- ===== src/Examples/Documents.antt =====
-- A small JSON library that keeps the laws. A document of integers is written as the tag 1, the length of
-- its member's name, the name and the numbers; a reply with weights as the tag 2 and the weights;
-- every byte but the tag is one more than what it stands for.
pub mod Laws
use tgproxy.Common.{
  ℕ, zero, suc, ◌-◌, ◌^◌, ◌<◌, ◌≡◌, ◌≢◌, inl, inr, refl, sym, ap, ◌∙◌, Bool, true, false, List, [],
  ◌∷◌, ◌++◌, map, Option, none, some, Text, codes, same_text, same_text_refl, same_text→eq, length,
  c_str, ◌==◌, All, Bool-cases, if◌then◌else◌, arith,
}
use mathlib.Core.List.{cons-ne-nil}
use tgproxy.Common.Int.{ℤ, pos, negsuc}
use tgproxy.Json.{Rapidjson, View}

mutual
  pub data Doc : Type 0 where
    null : Doc
    boolean : Bool → Doc
    integer : ℤ → Doc
    real : ℕ → Doc
    text : Text → Doc
    array : Docs → Doc
    object : Members → Doc

  pub data Docs : Type 0 where
    no_docs : Docs
    docs : Doc → Docs → Docs

  pub data Members : Type 0 where
    no_members : Members
    members : Text → Doc → Members → Members

abbrev pub to_list : Docs → List Doc
to_list no_docs = []
to_list (docs d ds) = d ∷ to_list ds

abbrev pub of_list : List Doc → Docs
of_list [] = no_docs
of_list (d ∷ ds) = docs d (of_list ds)

abbrev pub to_pairs : Members → List (Text × Doc)
to_pairs no_members = []
to_pairs (members name d ms) = (name, d) ∷ to_pairs ms

abbrev pub of_pairs : List (Text × Doc) → Members
of_pairs [] = no_members
of_pairs ((name, d) ∷ ms) = members name d (of_pairs ms)

abbrev pub view_doc : Doc → View Doc ℕ
view_doc null = View.null
view_doc (boolean b) = View.boolean b
view_doc (integer n) = View.integer n
view_doc (real d) = View.real d
view_doc (text t) = View.text t
view_doc (array ds) = View.array (to_list ds)
view_doc (object ms) = View.object (to_pairs ms)

abbrev pub make_doc : View Doc ℕ → Doc
make_doc View.null = null
make_doc (View.boolean b) = boolean b
make_doc (View.integer n) = integer n
make_doc (View.real d) = real d
make_doc (View.text t) = text t
make_doc (View.array ds) = array (of_list ds)
make_doc (View.object ms) = object (of_pairs ms)

abbrev pub find_member : Members → Text → Option Doc
find_member no_members name = none
find_member (members other d ms) name = if same_text other name then some d else find_member ms name

abbrev pub member_doc : Doc → Text → Option Doc
member_doc (object ms) name = find_member ms name
member_doc _ name = none

-- The payload of an array.
abbrev pub payload : Docs → Text
payload no_docs = []
payload (docs (integer (pos n)) ds) = suc n ∷ payload ds
payload (docs (real d) ds) = suc d ∷ payload ds
payload (docs _ ds) = payload ds

abbrev pub write_doc : Doc → Text
write_doc (object (members name (array ds) no_members)) =
    1 ∷ suc (length name) ∷ map suc name ++ payload ds
write_doc (object (members name (array ds) ms)) = 2 ∷ payload ds
write_doc _ = 3 ∷ []

-- The name of this length, and the numbers behind it.
abbrev pub read_name : ℕ → Text → Text × Text
read_name zero t = ([], map (λ b. b - 1) t)
read_name (suc n) [] = ([], [])
read_name (suc n) (b ∷ t) = let (name, rest) = read_name n t in ((b - 1) ∷ name, rest)

abbrev pub numbers_doc : Text → Text → Doc
numbers_doc name ns =
    object (members name (array (of_list (map (λ n. integer (pos n)) ns))) no_members)

abbrev pub weights_doc : Text → Doc
weights_doc ws = object (
    members (codes "weights") (array (of_list (map real ws)))
      (members (codes "reason") (text (codes "ok")) no_members))

abbrev pub parse_numbers : Text → Option Doc
parse_numbers [] = none
parse_numbers (l ∷ t) = let (name, ns) = read_name (l - 1) t in some (numbers_doc name ns)

abbrev pub parse_doc : Text → Option Doc
parse_doc [] = none
parse_doc (tag ∷ t) =
    if tag == 1
    then parse_numbers t
    else if tag == 2
    then some (weights_doc (map (λ b. b - 1) t))
    else if tag == 3
    then some (object no_members)
    else none

abbrev pub toy : Rapidjson
toy = record {
  Value = Doc;
  Double = ℕ;
  parse = parse_doc;
  view = view_doc;
  member = member_doc;
  make = make_doc;
  write = write_doc;
}
