-- ===== src/Cluster/Guards.antt =====
-- The node operations on a null handle, and what a created node's value is worth.
use tgproxy.Common.{ℕ, ◌≡◌, refl, Bool, true, false, none, some, Text, c_str, []}
use tgproxy.Common.Int.{ℤ, pos, negsuc}
use tgproxy.Cluster.Zoo.{Zoo, Code}
use tgproxy.Cluster.Zk.{Zk, is_connected, connected_by}
use tgproxy.Cluster.Nodes.{
  check_path_exist, w_check_path_exists, create_node, create_node_with_value, set_node_value,
  after_set, get_node_value, w_get_node_value, made,
}

module _ (z : Zoo) where
  open z use {World, zoo_create}

  -- On a null handle `is_connected` and the seven node operations answer false, or -1 with an empty
  -- value, and make no call of the client.
  pub null_handle :
      (zk : Zk) (path value : Text) (is_temporary : Bool) (w : World)
      → zk.zzh ≡ none
      → (is_connected z zk w ≡ (false, w))
        × (check_path_exist z zk path w ≡ (false, w))
        × (w_check_path_exists z zk path w ≡ (false, w))
        × (create_node z zk path is_temporary w ≡ (false, w))
        × (create_node_with_value z zk path value is_temporary w ≡ (false, w))
        × (set_node_value z zk path value w ≡ (negsuc 0, w))
        × (get_node_value z zk path w ≡ ((negsuc 0, []), w))
        × (w_get_node_value z zk path w ≡ ((negsuc 0, []), w))
  unfolding is_connected connected_by check_path_exist w_check_path_exists create_node
      create_node_with_value set_node_value get_node_value w_get_node_value
  null_handle zk path value is_temporary w e = (rw e, rw e, rw e, rw e, rw e, rw e, rw e, rw e)

  after_set-true : (r : ℤ × World) → after_set z r ≡ (true, r.1)
  unfolding after_set
  after_set-true (pos ℕ.zero, w) = refl
  after_set-true (pos (ℕ.suc n), w) = refl
  after_set-true (negsuc n, w) = refl

  -- Where the client made the node or found it there, `create_node_with_value` makes the call that
  -- `set_node_value` makes, and answers true whatever that answers, also where the value was not
  -- written.
  create_node_with_value_ignores_set :
      (zk : Zk) (h : ℕ) (path value : Text) (is_temporary : Bool) (c : Code) (w w' : World)
      → zk.zzh ≡ some h
      → zoo_create h (c_str path) (some value) is_temporary w ≡ (c, w')
      → made c ≡ true
      → create_node_with_value z zk path value is_temporary w
        ≡ (true, (set_node_value z zk path value w').1)
  unfolding create_node_with_value
  create_node_with_value_ignores_set zk h path value is_temporary c w w' e f m =
      rw (e, f, m) (after_set-true _)
