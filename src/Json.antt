-- ===== src/Json.antt =====
-- rapidjson as the proxy uses it. The library is the parameter `Rapidjson`: the type of its values,
-- its parser, what a value is seen to be, the look-up of a member by name, and the building and
-- writing of a document. `Laws` states what its documentation says of a document that was built.
use tgproxy.Common.{
  ℕ, ◌^◌, ◌<◌, ◌≡◌, Bool, true, false, List, [], ◌∷◌, map, Option, none, some, Text, ltb, c_str,
  if◌then◌else◌, Run, done, abort, ◌≢◌, All,
}
use tgproxy.Common.Int.{ℤ, pos, negsuc}

-- What a value is: a number is an integer if it was written as one and fits 64 bits.
pub data View (V D : Type 0) : Type 0 where
  null : View V D
  boolean : Bool → View V D
  integer : ℤ → View V D
  real : D → View V D
  text : Text → View V D
  array : List V → View V D
  object : List (Text × V) → View V D

pub record Rapidjson : Type 1 where
  pub Value : Type 0
  pub Double : Type 0
  -- `none` where `HasParseError()` holds behind `Parse`.
  pub parse : Text → Option Value
  pub view : Value → View Value Double
  -- `FindMember` of an object.
  pub member : Value → Text → Option Value
  pub make : View Value Double → Value
  -- `Accept(writer)`, and the text of the buffer.
  pub write : Value → Text

abbrev pub is_object : {V D : Type 0} → View V D → Bool
is_object (View.object ms) = true
is_object _ = false

module _ (j : Rapidjson) where
  open j use {Value, Double, parse, view, member, make, write}

  -- `v.HasMember(name)` and `v[name]`: rapidjson asserts that `v` is an object.
  abbrev pub find : Value → Text → Run (Option Value)
  find v name = elim (is_object (view v)) [ true ↦ done (member v name) | false ↦ abort ]

  abbrev pub int64_of : View Value Double → Option ℤ
  int64_of (View.integer (pos n)) = if ltb n (2 ^ 63) then some (pos n) else none
  int64_of (View.integer (negsuc n)) = if ltb n (2 ^ 63) then some (negsuc n) else none
  int64_of _ = none

  abbrev pub uint64_of : View Value Double → Option ℕ
  uint64_of (View.integer (pos n)) = if ltb n (2 ^ 64) then some n else none
  uint64_of _ = none

  abbrev pub double_of : View Value Double → Option Double
  double_of (View.real d) = some d
  double_of _ = none

  abbrev pub array_of : View Value Double → Option (List Value)
  array_of (View.array vs) = some vs
  array_of _ = none

  -- `IsString` and `GetString`, which the code reads as a C string.
  abbrev pub text_of : View Value Double → Option Text
  text_of (View.text t) = some (c_str t)
  text_of _ = none

  abbrev pub integers : List ℕ → Value
  integers ns = make (View.array (map (λ n. make (View.integer (pos n))) ns))

  -- A built object with one member.
  abbrev pub one_member : Text → Value → Value
  one_member name v = make (View.object ((name, v) ∷ []))

  -- What is documented of building, looking up, writing and parsing.
  pub record Laws : Type 0 where
    pub view-make : (v : View Value Double) → view (make v) ≡ v
    pub member-one : (name : Text) (v : Value) → member (one_member name v) name ≡ some v
    pub member-other :
        (name other : Text) (v : Value) → name ≢ other → member (one_member name v) other ≡ none
    -- A document of integers below 2 ^ 64 is written as a text with no NUL, and read back.
    pub parse-write :
        (name : Text) (ns : List ℕ)
        → All (λ n. n < 2 ^ 64) ns
        → (c_str (write (one_member name (integers ns))) ≡ write (one_member name (integers ns)))
          × (write (one_member name (integers ns)) ≢ [])
          × (parse (write (one_member name (integers ns))) ≡ some (one_member name (integers ns)))
