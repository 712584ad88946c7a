-- ===== src/MsConf.antt =====
-- base/tgp_ms_conf.h: the file that lists the model servers of every partition.
pub mod Parts
pub mod Push
pub mod Rows
pub mod Served
pub mod Loaded
use tgproxy.Common.{
  ℕ, zero, suc, ◌+◌, ◌%◌, ◌-◌, ◌^◌, Bool, true, false, List, [], ◌∷◌, ◌++◌, Option, none, some,
  Text, codes, empty, same_text, length, c_str, get_elem?, ltb, ◌==◌, if◌then◌else◌, Run, done,
  abort, ◌>>=◌,
}
use tgproxy.Common.Int.{ℤ, pos, negsuc}
use tgproxy.Json.{Rapidjson, View, find, text_of, array_of}

pub record MsConf : Type 0 where
  pub name : Text
  pub version : Text
  pub ms_lists : List (List Text)

abbrev pub no_conf : MsConf
no_conf = record { name = []; version = []; ms_lists = [] }

-- `ms_lists_[i].push_back(addr)`: past the end it is undefined behaviour.
unfoldable pub push_at : List (List Text) → ℕ → Text → Run (List (List Text))
push_at [] i addr = abort
push_at (row ∷ rows) zero addr = done ((row ++ addr ∷ []) ∷ rows)
push_at (row ∷ rows) (suc i) addr = do rows' ← push_at rows i addr; done (row ∷ rows')

-- The body of the inner loop behind its tests: a new row only where the vector has `i` of them.
unfoldable pub add_addr : List (List Text) → ℕ → Text → Run (List (List Text))
unfolding push_at
add_addr lists i addr = push_at (if length lists == i then lists ++ [] ∷ [] else lists) i addr

module _ (j : Rapidjson) where
  open j use {Value, view, parse}

  -- The inner loop, over the entries of the i-th array: the lists, and whether it went through.
  unfoldable pub addr_loop : ℕ → List Value → List (List Text) → Run (List (List Text) × Bool)
  addr_loop i [] lists = done (lists, true)
  addr_loop i (v ∷ vs) lists = elim (text_of j (view v)) [
    | none ↦ done (lists, false)
    | some addr ↦ elim (empty addr) [
      | true ↦ done (lists, false)
      | false ↦ elim (add_addr lists i addr) [ done lists' ↦ addr_loop i vs lists' | abort ↦ abort ]
    ]
  ]

  -- The outer loop, from the i-th array on.
  unfoldable pub row_loop : ℕ → List Value → List (List Text) → Run (List (List Text) × Bool)
  row_loop i [] lists = done (lists, true)
  row_loop i (v ∷ vs) lists = elim (array_of j (view v)) [
    | none ↦ done (lists, false)
    | some entries ↦ elim (addr_loop i entries lists) [
      | abort ↦ abort
      | done (lists', ok) ↦ elim ok [
        | true ↦ row_loop (i + 1) vs lists'
        | false ↦ done (lists', false)
      ]
    ]
  ]

  abbrev text_member : Option Value → Option Text
  text_member none = none
  text_member (some v) = text_of j (view v)

  abbrev array_member : Option Value → Option (List Value)
  array_member none = none
  array_member (some v) = array_of j (view v)

  ms_list_of : MsConf → Option (List Value) → Run (MsConf × Bool)
  ms_list_of c none = done (c, false)
  ms_list_of c (some rows) = do
    (lists, ok) ← row_loop 0 rows c.ms_lists
    done (record c { ms_lists = lists }, ok)

  version_of : Value → MsConf → Option Text → Run (MsConf × Bool)
  unfolding ms_list_of
  version_of v c none = done (c, false)
  version_of v c (some version) = do
    m ← find j v (codes "ms_list")
    ms_list_of (record c { version = version }) (array_member m)

  name_of : Value → MsConf → Option Text → Run (MsConf × Bool)
  unfolding version_of
  name_of v c none = done (c, false)
  name_of v c (some name) = do
    m ← find j v (codes "version")
    version_of v (record c { name = name }) (text_member m)

  -- `parse_ms_conf(value)`: the new object and the result.
  unfoldable pub parse_ms_conf : Value → MsConf → Run (MsConf × Bool)
  unfolding name_of
  parse_ms_conf v c = do m ← find j v (codes "name"); name_of v c (text_member m)

pub record MsConfFile : Type 0 where
  -- The map, in the order of insertion.
  pub ms_conf : List (Text × MsConf)
  pub key : Text

-- `map::insert` keeps an entry that is there.
unfoldable pub insert : Text → MsConf → List (Text × MsConf) → List (Text × MsConf)
insert k c [] = (k, c) ∷ []
insert k c ((l, d) ∷ m) = if same_text l k then (l, d) ∷ m else (l, d) ∷ insert k c m

unfoldable pub lookup : Text → List (Text × MsConf) → Option MsConf
lookup k [] = none
lookup k ((l, d) ∷ m) = if same_text l k then some d else lookup k m

abbrev pub found : Option MsConf → MsConf
found none = no_conf
found (some c) = c

-- `ms_conf_[key]`: the entry, and the map, to which a missing key is added.
unfoldable pub at_key : MsConfFile → Text → MsConf × MsConfFile
at_key f k =
    let used = if empty k then f.key else k in
    (found (lookup used f.ms_conf), record f { ms_conf = insert used no_conf f.ms_conf })

-- The conversion of a size to `int32_t`.
abbrev pub to_i32 : ℕ → ℤ
to_i32 n = if ltb (n % 2 ^ 32) (2 ^ 31) then pos (n % 2 ^ 32) else negsuc (2 ^ 32 - 1 - n % 2 ^ 32)

-- `set_ms_conf_key(key)`.
unfoldable pub set_ms_conf_key : MsConfFile → Text → MsConfFile
set_ms_conf_key f k = record f { key = k }

-- `get_ms_parts(key)`.
unfoldable pub get_ms_parts : MsConfFile → Text → ℤ × MsConfFile
get_ms_parts f k = let (c, f') = at_key f k in (to_i32 (length c.ms_lists), f')

abbrev pub in_bounds : {A : Type 0} → Option A → Run A
in_bounds none = abort
in_bounds (some a) = done a

-- `get_ms_list(i, key)`: past the end it is undefined behaviour.
unfoldable pub get_ms_list : MsConfFile → ℕ → Text → Run (List Text × MsConfFile)
get_ms_list f i k =
    let (c, f') = at_key f k in do row ← in_bounds (get_elem? c.ms_lists i); done (row, f')

module _ (j : Rapidjson) where
  open j use {Value, view, parse}

  -- The loop over the members of the document.
  unfoldable pub member_loop : List (Text × Value) → MsConfFile → Run (MsConfFile × Bool)
  member_loop [] f = done (f, true)
  member_loop ((name, v) ∷ ms) f = elim (empty (c_str name)) [
    | true ↦ done (f, false)
    | false ↦ elim (parse_ms_conf j v no_conf) [
      | abort ↦ abort
      | done (c, ok) ↦ elim ok [
        | false ↦ done (f, false)
        | true ↦ member_loop ms (record {
          ms_conf = insert (c_str name) c f.ms_conf;
          key = if empty f.key then c_str name else f.key;
        })
      ]
    ]
  ]

  document : MsConfFile → Option Value → Run (MsConfFile × Bool)
  document f none = done (f, false)
  document f (some doc) = elim (view doc) [ View.object ms ↦ member_loop ms f | _ ↦ abort ]

  -- The lines of a file, each with a newline behind it.
  with_newline : Text → Text
  with_newline [] = []
  with_newline (c ∷ []) = if c == b'\n' then c ∷ [] else c ∷ b'\n' ∷ []
  with_newline (c ∷ d ∷ s) = c ∷ with_newline (d ∷ s)

  -- `load_ms_conf_file(config)`, given the file's bytes, or `none` where it cannot be opened.
  unfoldable pub load_ms_conf_file : MsConfFile → Option Text → Run (MsConfFile × Bool)
  unfolding document with_newline
  load_ms_conf_file f none = done (f, false)
  load_ms_conf_file f (some bytes) = document f (parse (c_str (with_newline bytes)))
