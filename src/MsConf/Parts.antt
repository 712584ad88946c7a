-- ===== src/MsConf/Parts.antt =====
-- tgp_ms_conf.h: the number of partitions, asked for again.
use tgproxy.Common.{
  ◌≡◌, refl, ap, inl, inr, Bool-cases, List, [], ◌∷◌, length, Text, same_text, same_text_refl,
}
use tgproxy.MsConf.{
  MsConf, MsConfFile, no_conf, insert, lookup, found, at_key, to_i32, get_ms_parts,
}

-- The entry that a first look adds is the one that the next look finds.
lookup-insert :
    (k : Text) (m : List (Text × MsConf))
    → found (lookup k (insert k no_conf m)) ≡ found (lookup k m)
unfolding lookup insert
lookup-insert k [] = rw (same_text_refl k) refl
lookup-insert k ((l, d) ∷ m) = elim (Bool-cases (same_text l k)) [
  | inl e ↦ rw (e, insert) (rw (e, lookup) refl)
  | inr e ↦ rw (e, insert) (rw (e, lookup) (lookup-insert k m))
]

pub get_ms_parts_twice :
    (f : MsConfFile) → (get_ms_parts (get_ms_parts f []).1 []).0 ≡ (get_ms_parts f []).0
unfolding get_ms_parts at_key
get_ms_parts_twice f =
    ap (λ (c : MsConf). to_i32 (length c.ms_lists)) (lookup-insert f.key f.ms_conf)
