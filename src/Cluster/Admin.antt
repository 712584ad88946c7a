-- ===== src/Cluster/Admin.antt =====
-- cluster/tgp_cluster_admin.cc and tgp_zk_watcher.cc: the list of model servers that the proxy
-- sends to, and what renews it. Each operation runs under its lock, so the events come one by one.
use tgproxy.Common.{
  ℕ, zero, ◌+◌, ◌%◌, ◌^◌, Bool, true, false, List, [], ◌∷◌, Option, none, some, Text, empty, length,
  get_or, ◌==◌, if◌then◌else◌,
}
use tgproxy.Common.Int.{ℤ, pos}
use tgproxy.Conf.{Conf}
use tgproxy.Cluster.Zoo.{Zoo, State, EventType}
use tgproxy.Cluster.Zk.{
  Zk, new_zk, set_zk_address, init_zoo_log, start_zk, finalize_zk, is_connected,
}
use tgproxy.Cluster.Children.{get_chdnodes}

pub record Admin : Type 0 where
  pub zk : Zk
  pub ms_cluster : List Text
  pub count : ℕ

-- The constructor.
abbrev pub new_admin : Admin
new_admin = record { zk = new_zk; ms_cluster = []; count = 0 }

-- `++count_` of a `uint64_t`.
abbrev pub next_count : Admin → ℕ
next_count a = (a.count + 1) % 2 ^ 64

unfoldable pub served : Admin → List Text → Text × Admin
served a [] = ([], a)
served a (m ∷ ms) =
    (get_or (m ∷ ms) (next_count a % length (m ∷ ms)) [], record a { count = next_count a })

-- `getOneMsAddr(partition)`: the address and the new state. The partition is not looked at.
unfoldable pub get_one_ms_addr : Admin → Text × Admin
unfolding served
get_one_ms_addr a = served a a.ms_cluster

abbrev pub connected_ok : Option ℤ → Bool
connected_ok (some (pos zero)) = true
connected_ok _ = false

-- What `zk_watcher` does about an event.
pub data Reaction : Type 0 where
  update reconnect ignore : Reaction

abbrev pub reaction : EventType → State → Reaction
reaction EventType.session State.connected = update
reaction EventType.session State.expired_session = reconnect
reaction _ _ = ignore

abbrev pub same_handle : ℕ → Option ℕ → Bool
same_handle zh none = false
same_handle zh (some h) = zh == h

module _ (z : Zoo) (fopen : Text → Bool) (conf : Conf) where
  open z use {World, sleep, zoo_wexists}

  unfoldable pub begin_zk : Admin → Zk → World → Bool × Admin × World
  begin_zk a zk w =
      let (r, zk', w') = start_zk z zk w in (connected_ok r, record a { zk = zk' }, w')

  -- `startZkProcess()`.
  unfoldable pub start_zk_process : Admin → World → Bool × Admin × World
  unfolding begin_zk
  start_zk_process a w =
      let zk' = init_zoo_log fopen a.zk conf.zk_log_dir conf.zk_log_name in
      if empty conf.zookeeper_address
      then (false, record a { zk = zk' }, w)
      else begin_zk a (set_zk_address zk' conf.zookeeper_address) w

  -- `stopZkProcess()`.
  unfoldable pub stop_zk_process : Admin → World → Admin × World
  stop_zk_process a w = let (zk', w') = finalize_zk z a.zk w in (record a { zk = zk' }, w')

  unfoldable pub renewed : Admin → (ℤ × List Text) × World → Bool × Admin × World
  renewed a ((pos zero, n ∷ ns), w) = (true, record a { ms_cluster = n ∷ ns }, w)
  renewed a ((rc, childrens), w) = (false, a, w)

  -- `updateModelServerList()`.
  unfoldable pub update_model_server_list : Admin → World → Bool × Admin × World
  unfolding renewed
  update_model_server_list a w = renewed a (get_chdnodes z a.zk conf.ms_zk_path [] w)

  -- One round of `loopUpdateModelServerList()`, which runs them without end.
  unfoldable pub loop_round : Admin → World → Admin × World
  loop_round a w =
      let (ok, w') = is_connected z a.zk (sleep 600 w) in
      if ok
      then (let (_, a', w'') = update_model_server_list a w' in (a', w''))
      else (let (a', w'') = stop_zk_process a w' in
          let (_, a'', w''') = start_zk_process a' w'' in (a'', w'''))

  -- `tgpChildrenWatcher`: any event of the watched node.
  unfoldable pub children_watcher : Admin → World → Admin × World
  children_watcher a w = let (_, a', w') = update_model_server_list a w in (a', w')

  -- `tg_parent_watcher`: the watch on the node is set again, whatever that answers.
  unfoldable pub tg_parent_watcher : ℕ → Text → World → World
  tg_parent_watcher zh path w = (zoo_wexists zh path w).1

  unfoldable pub react : Reaction → Admin → World → Admin × World
  react update a w = let (_, a', w') = update_model_server_list a w in (a', w')
  react reconnect a w =
      let (zk', w') = finalize_zk z a.zk w in
      let (_, zk'', w'') = start_zk z zk' w' in (record a { zk = zk'' }, w'')
  react ignore a w = (a, w)

  -- `zk_watcher(zh, type, state, path, watcherCtx)`; the flag says whether the context is null.
  unfoldable pub zk_watcher : Bool → ℕ → EventType → State → Admin → World → Admin × World
  unfolding react
  zk_watcher null_ctx zh type state a w =
      if null_ctx
      then (a, w)
      else if same_handle zh a.zk.zzh
      then react (reaction type state) a w
      else (a, w)
