-- ===== src/Cluster/Nodes.antt =====
-- cluster/tgp_zookeeper.cc: the operations on single nodes. Each one answers false, or -1, on a
-- null handle before it calls the client.
use tgproxy.Common.{ℕ, zero, [], Bool, true, false, Option, none, some, Text, c_str, if◌then◌else◌}
use tgproxy.Common.Int.{ℤ, pos, negsuc}
use tgproxy.Cluster.Zoo.{Zoo, Code, is_ok}
use tgproxy.Cluster.Zk.{Zk}

-- An existing node counts as created.
abbrev pub made : Code → Bool
made Code.zok = true
made Code.znodeexists = true
made _ = false

abbrev status : Bool → ℤ
status true = pos 0
status false = negsuc 0

module _ (z : Zoo) where
  open z use {World, zoo_exists, zoo_wexists, zoo_create, zoo_set, zoo_get, zoo_wget}

  -- The guard on the handle, and a call of the client behind it.
  abbrev guarded : {A : Type 0} → Option ℕ → A → (ℕ → World → A × World) → World → A × World
  guarded none a call w = (a, w)
  guarded (some h) a call w = call h w

  abbrev passed : Code × World → Bool × World
  passed (c, w) = (is_ok c, w)

  unfoldable pub check_path_exist : Zk → Text → World → Bool × World
  check_path_exist zk path = guarded zk.zzh false (λ h w. passed (zoo_exists h (c_str path) w))

  unfoldable pub w_check_path_exists : Zk → Text → World → Bool × World
  w_check_path_exists zk path = guarded zk.zzh false (λ h w. passed (zoo_wexists h (c_str path) w))

  unfoldable pub create_node : Zk → Text → Bool → World → Bool × World
  create_node zk node_path is_temporary =
      guarded zk.zzh false
        (λ h w. let (c, w') = zoo_create h (c_str node_path) none is_temporary w in (made c, w'))

  unfoldable pub set_node_value : Zk → Text → Text → World → ℤ × World
  set_node_value zk path value =
      guarded zk.zzh (negsuc 0)
        (λ h w. let (c, w') = zoo_set h (c_str path) value w in (status (is_ok c), w'))

  -- Both ways on from `set_node_value` answer true.
  unfoldable pub after_set : ℤ × World → Bool × World
  after_set (pos zero, w) = (true, w)
  after_set (zrc, w) = (true, w)

  unfoldable pub create_node_with_value : Zk → Text → Text → Bool → World → Bool × World
  unfolding after_set
  create_node_with_value zk node_path value is_temporary = guarded zk.zzh false (λ h w.
      let (c, w') = zoo_create h (c_str node_path) (some value) is_temporary w in
      if made c then after_set (set_node_value zk node_path value w') else (false, w'))

  abbrev read : (Code × Text) × World → (ℤ × Text) × World
  read ((c, buffer), w) = if is_ok c then ((pos 0, c_str buffer), w) else ((negsuc 0, []), w)

  -- `get_node_value(path, value)`: the result and the new `*value`.
  unfoldable pub get_node_value : Zk → Text → World → (ℤ × Text) × World
  get_node_value zk path = guarded zk.zzh (negsuc 0, []) (λ h w. read (zoo_get h (c_str path) w))

  unfoldable pub w_get_node_value : Zk → Text → World → (ℤ × Text) × World
  w_get_node_value zk path = guarded zk.zzh (negsuc 0, []) (λ h w. read (zoo_wget h (c_str path) w))
