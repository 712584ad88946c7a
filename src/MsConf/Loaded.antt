-- ===== src/MsConf/Loaded.antt =====
-- No row of a loaded file is empty, and what is read of the file.
use tgproxy.Common.{
  ℕ, zero, suc, ◌<◌, ◌≡◌, ◌≢◌, inl, inr, refl, Bool, List, [], ◌∷◌, some, Text, empty, same_text,
  length, get_elem?, if◌then◌else◌, done, All, Bool-cases, arith,
}
use tgproxy.Json.{Rapidjson}
use tgproxy.MsConf.{MsConf, no_conf, MsConfFile, insert, lookup, found, at_key, get_ms_list}
use tgproxy.MsConf.Served.{AllServed}

-- Every row of every configuration has an address.
abbrev pub Entry : Text × MsConf → Type 0
Entry e = AllServed e.1.ms_lists

abbrev pub HasServers : MsConfFile → Type 0
HasServers f = All Entry f.ms_conf

insert-Served :
    (k : Text) (c : MsConf) (m : List (Text × MsConf))
    → AllServed c.ms_lists
    → All Entry m
    → All Entry (insert k c m)
unfolding insert
insert-Served k c [] a h = (a, tt)
insert-Served k c ((l, d) ∷ m) a h = elim (Bool-cases (same_text l k)) [
  | inl e ↦ rw e h
  | inr e ↦ rw e (h.0, insert-Served k c m a h.1)
]

lookup-Served :
    (k : Text) (m : List (Text × MsConf)) → All Entry m → AllServed (found (lookup k m)).ms_lists
unfolding lookup
lookup-Served k [] h = tt
lookup-Served k ((l, d) ∷ m) h = elim (Bool-cases (same_text l k)) [
  | inl e ↦ rw e h.0
  | inr e ↦ rw e (lookup-Served k m h.1)
]

-- The entry that is looked up, and the file behind it.
pub at_key-Served :
    (f : MsConfFile) (k : Text)
    → HasServers f
    → AllServed (at_key f k).0.ms_lists × HasServers (at_key f k).1
unfolding at_key
at_key-Served f k h =
    let used = if empty k then f.key else k in
    (lookup-Served used f.ms_conf h, insert-Served used no_conf f.ms_conf tt h)

module _ (j : Rapidjson) where
  open j use {Value, view}

  abbrev FileServed : MsConfFile × Bool → Type 0
  FileServed r = HasServers r.0

get_elem?-All {ℓ κ} :
    {A : Type ℓ} (P : A → Type κ) (xs : List A) (i : ℕ)
    → All P xs
    → i < length xs
    → (x : A) × (get_elem? xs i ≡ some x) × P x
get_elem?-All P [] i a h = elim h [ ]
get_elem?-All P (x ∷ xs) zero a h = (x, refl, a.0)
get_elem?-All P (x ∷ xs) (suc i) a h = get_elem?-All P xs i a.1 (omega arith)

-- The row of a partition that the file has is there, and not empty.
pub get_ms_list-there :
    (f : MsConfFile) (k : Text) (i : ℕ)
    → HasServers f
    → i < length (at_key f k).0.ms_lists
    → (row : List Text) × ((get_elem? (at_key f k).0.ms_lists i ≡ some row)
        × (get_ms_list f i k ≡ done (row, (at_key f k).1)))
      × (row ≢ [])
unfolding get_ms_list
get_ms_list-there f k i h lt =
    let (row, e, there) =
      get_elem?-All (λ r. r ≢ []) (at_key f k).0.ms_lists i (at_key-Served f k h).0 lt in
    (row, (e, rw e refl), there)
