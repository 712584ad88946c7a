-- ===== src/Cluster/Children.antt =====
-- cluster/tgp_zookeeper.cc: reading the children of a node, with retries, sorted by name.
use tgproxy.Common.{
  ℕ, zero, suc, Bool, true, false, ◌||◌, not, List, [], ◌∷◌, Text, empty, c_str, select, ltb, ◌==◌,
  if◌then◌else◌,
}
use tgproxy.Common.Int.{ℤ, pos, negsuc}
use tgproxy.Cluster.Zoo.{Zoo, Code}
use tgproxy.Cluster.Zk.{Zk}

-- utils/tgp_const.h.
abbrev pub tgp_ok : ℤ
tgp_ok = pos 0

abbrev pub tgp_err_param : ℤ
tgp_err_param = pos 1

abbrev pub tgp_err_zoo_failed : ℤ
tgp_err_zoo_failed = pos 61

abbrev pub zk_node_not_exist : ℤ
zk_node_not_exist = negsuc 0

-- `strcmp(s, t) <= 0`, on unsigned bytes.
unfoldable pub not_above : Text → Text → Bool
not_above [] t = true
not_above (c ∷ s) [] = false
not_above (c ∷ s) (d ∷ t) = ltb c d || (if c == d then not_above s t else false)

-- `qsort(nodes.data, nodes.count, ..., children_node_cmp)`. Nodes that compare equal are equal, so
-- every sorting of them is this one.
unfoldable pub insert_node : Text → List Text → List Text
insert_node n [] = n ∷ []
insert_node n (m ∷ ms) = if not_above n m then n ∷ m ∷ ms else m ∷ insert_node n ms

unfoldable pub sort_nodes : List Text → List Text
unfolding insert_node
sort_nodes [] = []
sort_nodes (n ∷ ns) = insert_node n (sort_nodes ns)

abbrev pub has_colon : Text → Bool
has_colon [] = false
has_colon (c ∷ s) = c == b':' || has_colon s

-- The test of `get_chdnodes` on a node's name: not empty, and with a colon in it.
abbrev pub is_address : Text → Bool
is_address node = not (empty node || not (has_colon node))

abbrev pub retries : ℕ
retries = 3

-- What the switch makes of a result code: to return, or to go on.
pub data Verdict : Type 0 where
  returns : ℤ → Verdict
  again : Verdict

abbrev pub verdict : Code → Verdict
verdict Code.zok = returns tgp_ok
verdict Code.znonode = returns zk_node_not_exist
verdict Code.zinvalidstate = again
verdict Code.zmarshallingerror = again
verdict Code.znodeexists = returns tgp_err_zoo_failed
verdict (Code.other_code c) = returns tgp_err_zoo_failed

abbrev pub sorted_if_ok : Code → List Text → List Text
sorted_if_ok Code.zok nodes = sort_nodes nodes
sorted_if_ok _ nodes = nodes

module _ {World : Type 0} (call : World → (Code × List Text) × World) where
  -- The loop over a call of the client: the result, `nodes` and the world.
  unfoldable pub retry_loop : ℕ → World → (ℤ × List Text) × World
  retry_loop zero w = ((tgp_err_zoo_failed, []), w)
  retry_loop (suc rounds) w =
      let ((c, nodes), w') = call w in
      elim (verdict c) [
        | returns r ↦ ((r, sorted_if_ok c nodes), w')
        | again ↦ retry_loop rounds w'
      ]

abbrev pub assign : List Text → List Text → List Text
assign [] results = results
assign (n ∷ ns) results = n ∷ ns

module _ (z : Zoo) where
  open z use {World, zoo_get_children, zoo_wget_children}

  unfoldable pub zk_get_chdnodes : Zk → Text → World → (ℤ × List Text) × World
  zk_get_chdnodes zk path w =
      if empty path
      then ((tgp_err_param, []), w)
      else retry_loop (zoo_get_children zk.zzh (c_str path)) retries w

  -- The handle is not tested here.
  unfoldable pub zk_wget_chdnodes : Zk → Text → World → (ℤ × List Text) × World
  zk_wget_chdnodes zk path w =
      if empty path
      then ((tgp_err_param, []), w)
      else retry_loop (zoo_wget_children zk.zzh (c_str path)) retries w

  unfoldable pub chdnodes : List Text → (ℤ × List Text) × World → (ℤ × List Text) × World
  chdnodes results ((pos zero, children), w) =
      ((tgp_ok, assign (select is_address children) results), w)
  chdnodes results ((rc, children), w) = ((rc, results), w)

  -- `get_chdnodes(path, watcher, ctx, results)`: the result and the new `results`.
  unfoldable pub get_chdnodes : Zk → Text → List Text → World → (ℤ × List Text) × World
  unfolding chdnodes
  get_chdnodes zk path results w = chdnodes results (zk_wget_chdnodes zk path w)
