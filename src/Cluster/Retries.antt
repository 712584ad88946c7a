-- ===== src/Cluster/Retries.antt =====
-- What `get_chdnodes` makes of the client's answers.
use mathlib.Core.List.{Perm}
use mathlib.Core.List.Perm
use tgproxy.Common.{
  ℕ, zero, suc, ◌≡◌, inl, inr, refl, sym, ap, ◌∙◌, Bool, true, false, List, [], ◌∷◌, Text, select,
  c_str, Bool-cases, All, arith,
}
use tgproxy.Common.Int.{ℤ, pos, negsuc}
use tgproxy.Cluster.Zoo.{Zoo, Code, zok}
use tgproxy.Cluster.Zk.{Zk}
use tgproxy.Cluster.Children.{
  tgp_ok, tgp_err_zoo_failed, not_above, insert_node, sort_nodes, is_address, retries, returns,
  again, verdict, sorted_if_ok, retry_loop, zk_wget_chdnodes, get_chdnodes, chdnodes, assign,
}

not_above-total : (s t : Text) → not_above s t ≡ false → not_above t s ≡ true
unfolding not_above
not_above-total [] t h = cc
not_above-total (c ∷ s) [] h = refl
not_above-total (c ∷ s) (d ∷ t) h = ground (arith, not_above-total s t)

-- Each node is not above the next one.
abbrev pub IsOrdered : List Text → Type 0
IsOrdered [] = Unit {0}
IsOrdered (n ∷ []) = Unit {0}
IsOrdered (n ∷ m ∷ ms) = (not_above n m ≡ true) × IsOrdered (m ∷ ms)

insert_node-IsOrdered : (n : Text) (ms : List Text) → IsOrdered ms → IsOrdered (insert_node n ms)
unfolding insert_node
insert_node-IsOrdered n [] h = tt
insert_node-IsOrdered n (m ∷ []) h = ground (arith, not_above-total n m)
insert_node-IsOrdered n (m ∷ l ∷ ms) h =
    ground (arith, not_above-total n m, insert_node-IsOrdered n (l ∷ ms) h.1)

pub sort_nodes-IsOrdered : (ns : List Text) → IsOrdered (sort_nodes ns)
unfolding sort_nodes
sort_nodes-IsOrdered [] = tt
sort_nodes-IsOrdered (n ∷ ns) = insert_node-IsOrdered n (sort_nodes ns) (sort_nodes-IsOrdered ns)

insert_node-perm : (n : Text) (ms : List Text) → Perm (insert_node n ms) (n ∷ ms)
unfolding insert_node
insert_node-perm n [] = Perm.refl _
insert_node-perm n (m ∷ ms) = elim (Bool-cases (not_above n m)) [
  | inl e ↦ rw e (Perm.refl _)
  | inr e ↦ rw e (Perm.trans (Perm.cons m (insert_node-perm n ms)) (Perm.swap n m ms))
]

pub sort_nodes-perm : (ns : List Text) → Perm (sort_nodes ns) ns
unfolding sort_nodes
sort_nodes-perm [] = Perm.refl _
sort_nodes-perm (n ∷ ns) =
    Perm.trans (insert_node-perm n (sort_nodes ns)) (Perm.cons n (sort_nodes-perm ns))

module _ {World : Type 0} (call : World → (Code × List Text) × World) where
  -- One round on an answer.
  tried : ℕ → (Code × List Text) × World → (ℤ × List Text) × World
  tried rounds ((c, nodes), w') = elim (verdict c) [
    | returns r ↦ ((r, sorted_if_ok c nodes), w')
    | again ↦ retry_loop call rounds w'
  ]

  retry_loop_round :
      (rounds : ℕ) (w : World) → retry_loop call (suc rounds) w ≡ tried rounds (call w)
  unfolding retry_loop tried
  retry_loop_round rounds w = refl

  -- The last call that was made answered ZOK with these nodes.
  abbrev Answered : List Text → World → Type 0
  Answered ns w' =
      (u : World) × (nodes : List Text) × (call u ≡ ((zok, nodes), w')) × (ns ≡ sort_nodes nodes)

  tried_ok :
      (rounds : ℕ) (u : World) (c : Code) (nodes ns : List Text) (v w' : World)
      → call u ≡ ((c, nodes), v)
      → tried rounds ((c, nodes), v) ≡ ((tgp_ok, ns), w')
      → (retry_loop call rounds v ≡ ((tgp_ok, ns), w') → Answered ns w')
      → Answered ns w'
  unfolding tried
  tried_ok rounds u Code.zok nodes ns v w' e f later = (
    u,
    nodes,
    e ∙ ap (λ (x : World). ((zok, nodes), x)) (ap (λ (r : (ℤ × List Text) × World). r.1) f),
    sym (ap (λ (r : (ℤ × List Text) × World). (r.0).1) f),
  )
  tried_ok rounds u Code.znonode nodes ns v w' e f later =
      let code : negsuc 0 ≡ tgp_ok = ap (λ (r : (ℤ × List Text) × World). (r.0).0) f in cc
  tried_ok rounds u Code.znodeexists nodes ns v w' e f later =
      let code : tgp_err_zoo_failed ≡ tgp_ok = ap (λ (r : (ℤ × List Text) × World). (r.0).0) f in
      absurd (ground arith)
  tried_ok rounds u Code.zinvalidstate nodes ns v w' e f later = later f
  tried_ok rounds u Code.zmarshallingerror nodes ns v w' e f later = later f
  tried_ok rounds u (Code.other_code k) nodes ns v w' e f later =
      let code : tgp_err_zoo_failed ≡ tgp_ok = ap (λ (r : (ℤ × List Text) × World). (r.0).0) f in
      absurd (ground arith)

  retry_loop_ok :
      (rounds : ℕ) (u : World) (ns : List Text) (w' : World)
      → retry_loop call rounds u ≡ ((tgp_ok, ns), w')
      → Answered ns w'
  retry_loop_ok zero u ns w' f =
      let g : retry_loop call zero u ≡ ((tgp_err_zoo_failed, []), u) = unfold retry_loop in refl in
      let code : tgp_err_zoo_failed ≡ tgp_ok =
        ap (λ (r : (ℤ × List Text) × World). (r.0).0) (sym g ∙ f) in
      absurd (ground arith)
  retry_loop_ok (suc rounds) u ns w' f =
      tried_ok rounds u (call u).0.0 (call u).0.1 ns (call u).1 w' refl
        (sym (retry_loop_round rounds u) ∙ f) (retry_loop_ok rounds (call u).1 ns w')

-- The nodes that pass a test do pass it.
select-All : (p : Text → Bool) (ns : List Text) → All (λ n. p n ≡ true) (select p ns)
select-All p [] = tt
select-All p (n ∷ ns) = elim (Bool-cases (p n)) [
  | inl e ↦ rw e (e, select-All p ns)
  | inr e ↦ rw e (select-All p ns)
]

assign-nil : (ns : List Text) → assign ns [] ≡ ns
assign-nil [] = refl
assign-nil (n ∷ ns) = refl

module _ (z : Zoo) where
  open z use {World, zoo_wget_children}

  -- What an update of the list rests on: an answer ZOK of the client, its names in `strcmp` order, and of these the addresses.
  abbrev pub Listed : Zk → Text → List Text → World → Type 0
  Listed zk path rs w' =
      (u : World) × (nodes : List Text) × (ordered : List Text) × (zoo_wget_children zk.zzh
          (c_str path) u
        ≡ ((zok, nodes), w'))
      × Perm ordered nodes
      × IsOrdered ordered
      × (rs ≡ select is_address ordered)

  chdnodes_ok :
      (zk : Zk) (path : Text) (r : (ℤ × List Text) × World) (rs : List Text) (w' : World)
      → chdnodes z [] r ≡ ((tgp_ok, rs), w')
      → (r.0.0 ≡ tgp_ok) × (rs ≡ select is_address r.0.1) × (r.1 ≡ w')
  unfolding chdnodes
  chdnodes_ok zk path ((pos zero, ns), w) rs w' f = (
    refl,
    sym (ap (λ (r : (ℤ × List Text) × World). (r.0).1) f) ∙ assign-nil _,
    ap (λ (r : (ℤ × List Text) × World). r.1) f,
  )
  chdnodes_ok zk path ((pos (suc n), ns), w) rs w' f =
      let code = ap (λ (r : (ℤ × List Text) × World). (r.0).0) f in absurd (ground arith)
  chdnodes_ok zk path ((negsuc n, ns), w) rs w' f =
      let code = ap (λ (r : (ℤ × List Text) × World). (r.0).0) f in absurd (ground arith)

  zk_wget_chdnodes_ok :
      (zk : Zk) (path : Text) (w : World) (ns : List Text) (w' : World)
      → zk_wget_chdnodes z zk path w ≡ ((tgp_ok, ns), w')
      → Answered (zoo_wget_children zk.zzh (c_str path)) ns w'
  unfolding zk_wget_chdnodes
  zk_wget_chdnodes_ok zk [] w ns w' f =
      let code = ap (λ (r : (ℤ × List Text) × World). (r.0).0) f in absurd (ground arith)
  zk_wget_chdnodes_ok zk (c ∷ path) w ns w' f =
      retry_loop_ok (zoo_wget_children zk.zzh (c_str (c ∷ path))) retries w ns w' f

  -- A `get_chdnodes` that answers TGP_OK, into an empty list, took an answer ZOK of the client: its result is the
  -- names of that answer that are not empty and hold a colon, in `strcmp` order.
  pub get_chdnodes_ok :
      (zk : Zk) (path : Text) (w : World) (rs : List Text) (w' : World)
      → get_chdnodes z zk path [] w ≡ ((tgp_ok, rs), w')
      → Listed zk path rs w'
  unfolding get_chdnodes
  get_chdnodes_ok zk path w rs w' f =
      let r = zk_wget_chdnodes z zk path w in
      let d = chdnodes_ok zk path r rs w' f in
      let e : r ≡ ((tgp_ok, r.0.1), w') = λ i. ((d.0 i, r.0.1), d.2 i) in
      let a = zk_wget_chdnodes_ok zk path w r.0.1 w' e in
      (
        a.0,
        a.1,
        sort_nodes a.1,
        a.2,
        sort_nodes-perm a.1,
        sort_nodes-IsOrdered a.1,
        d.1 ∙ ap (select is_address) a.3,
      )

  pub Listed-All :
      (zk : Zk) (path : Text) (rs : List Text) (w' : World)
      → Listed zk path rs w'
      → All (λ n. is_address n ≡ true) rs
  Listed-All zk path rs w' l = rw l.6 (select-All is_address l.2)
