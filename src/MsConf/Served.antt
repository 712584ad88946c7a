-- ===== src/MsConf/Served.antt =====
-- No row that `parse_ms_conf` makes is empty.
use tgproxy.Common.{
  ℕ, zero, suc, ◌+◌, ◌≡◌, ◌≢◌, inl, inr, subst, Bool, true, false, List, [], ◌∷◌, ◌++◌, Option,
  none, some, Text, codes, empty, length, ◌==◌, ==_iff, OnEnd, OnEnd-bind, All, Bool-cases,
  Option-cases, Run-cases,
}
use mathlib.Core.List.{cons-ne-nil}
use tgproxy.Json.{Rapidjson, find, text_of, array_of}
use tgproxy.MsConf.{
  MsConf, push_at, add_addr, addr_loop, row_loop, ms_list_of, version_of, name_of, parse_ms_conf,
}
use tgproxy.MsConf.Push.{add_addr_first}

abbrev pub AllServed : List (List Text) → Type 0
AllServed = All (λ row. row ≢ [])

append-there : (row : List Text) (addr : Text) → row ++ addr ∷ [] ≢ []
append-there [] addr = cons-ne-nil addr []
append-there (a ∷ row) addr = cons-ne-nil a (row ++ addr ∷ [])

append-AllServed :
    (lists : List (List Text)) (row : List Text)
    → AllServed lists
    → row ≢ []
    → AllServed (lists ++ row ∷ [])
append-AllServed [] row a h = (h, tt)
append-AllServed (r ∷ lists) row a h = (a.0, append-AllServed lists row a.1 h)

push_at-AllServed :
    (lists : List (List Text)) (i : ℕ) (addr : Text)
    → AllServed lists
    → OnEnd AllServed (push_at lists i addr)
unfolding push_at
push_at-AllServed [] i addr a = tt
push_at-AllServed (r ∷ lists) zero addr a = (append-there r addr, a.1)
push_at-AllServed (r ∷ lists) (suc i) addr a =
    OnEnd-bind AllServed (push_at lists i addr) _
      (λ rows e. (a.0, subst (OnEnd AllServed) e (push_at-AllServed lists i addr a.1)))

add_addr-AllServed :
    (lists : List (List Text)) (i : ℕ) (addr : Text)
    → AllServed lists
    → OnEnd AllServed (add_addr lists i addr)
unfolding add_addr
add_addr-AllServed lists i addr a = elim (Bool-cases (length lists == i)) [
  | inl e ↦
      let at : length lists ≡ i = (==_iff (length lists) i).0 e in
      subst (λ k. OnEnd AllServed (add_addr lists k addr)) at
        (rw (add_addr_first lists addr)
          (append-AllServed lists (addr ∷ []) a (cons-ne-nil addr [])))
  | inr e ↦ rw e (push_at-AllServed lists i addr a)
]

module _ (j : Rapidjson) where
  open j use {Value, view}

  abbrev Served : List (List Text) × Bool → Type 0
  Served r = AllServed r.0

  addr_loop-Served :
      (i : ℕ) (vs : List Value) (lists : List (List Text))
      → AllServed lists
      → OnEnd Served (addr_loop j i vs lists)
  unfolding addr_loop
  addr_loop-Served i [] lists a = a
  addr_loop-Served i (v ∷ vs) lists a = elim (Option-cases (text_of j (view v))) [
    | inl e ↦ rw (e, addr_loop) a
    | inr (addr, e) ↦ elim (Bool-cases (empty addr)) [
      | inl f ↦ rw (e, f, addr_loop) a
      | inr f ↦ elim (Run-cases (add_addr lists i addr)) [
        | inl (lists', g) ↦
            rw (e, f, g, addr_loop)
              (addr_loop-Served i vs lists'
                (subst (OnEnd AllServed) g (add_addr-AllServed lists i addr a)))
        | inr g ↦ rw (e, f, g, addr_loop) tt
      ]
    ]
  ]

  row_loop-Served :
      (i : ℕ) (vs : List Value) (lists : List (List Text))
      → AllServed lists
      → OnEnd Served (row_loop j i vs lists)
  unfolding row_loop
  row_loop-Served i [] lists a = a
  row_loop-Served i (v ∷ vs) lists a = elim (Option-cases (array_of j (view v))) [
    | inl e ↦ rw (e, row_loop) a
    | inr (entries, e) ↦ elim (Run-cases (addr_loop j i entries lists)) [
      | inr g ↦ rw (e, g, row_loop) tt
      | inl ((lists', true), g) ↦
          rw (e, g, row_loop)
            (row_loop-Served (i + 1) vs lists'
              (subst (OnEnd Served) g (addr_loop-Served i entries lists a)))
      | inl ((lists', false), g) ↦
          rw (e, g, row_loop) (subst (OnEnd Served) g (addr_loop-Served i entries lists a))
    ]
  ]

  abbrev pub ConfServed : MsConf × Bool → Type 0
  ConfServed r = AllServed r.0.ms_lists

  ms_list_of-Served :
      (c : MsConf) (o : Option (List Value))
      → AllServed c.ms_lists
      → OnEnd ConfServed (ms_list_of j c o)
  unfolding ms_list_of
  ms_list_of-Served c none a = a
  ms_list_of-Served c (some rows) a =
      OnEnd-bind ConfServed (row_loop j 0 rows c.ms_lists) _
        (λ r e. subst (OnEnd Served) e (row_loop-Served 0 rows c.ms_lists a))

  version_of-Served :
      (v : Value) (c : MsConf) (o : Option Text)
      → AllServed c.ms_lists
      → OnEnd ConfServed (version_of j v c o)
  unfolding version_of
  version_of-Served v c none a = a
  version_of-Served v c (some version) a =
      OnEnd-bind ConfServed (find j v (codes "ms_list")) _ (λ m e. ms_list_of-Served _ _ a)

  name_of-Served :
      (v : Value) (c : MsConf) (o : Option Text)
      → AllServed c.ms_lists
      → OnEnd ConfServed (name_of j v c o)
  unfolding name_of
  name_of-Served v c none a = a
  name_of-Served v c (some name) a =
      OnEnd-bind ConfServed (find j v (codes "version")) _ (λ m e. version_of-Served v _ _ a)

  pub parse_ms_conf-Served :
      (v : Value) (c : MsConf) → AllServed c.ms_lists → OnEnd ConfServed (parse_ms_conf j v c)
  unfolding parse_ms_conf
  parse_ms_conf-Served v c a =
      OnEnd-bind ConfServed (find j v (codes "name")) _ (λ m e. name_of-Served v c _ a)
