-- ===== src/Cluster/Zk.antt =====
-- cluster/tgp_zookeeper.cc: the connection of the class `ZK`. The fields `ctx_` and `outter_` are
-- written and never used, and the recursive mutex lets one thread at a time into each operation.
use tgproxy.Common.{
  ℕ, zero, suc, ◌+◌, Bool, true, false, ◌||◌, ◌&&◌, not, [], ◌++◌, Option, none, some, Text, codes,
  empty, ltb, if◌then◌else◌,
}
use tgproxy.Common.Int.{ℤ, pos, negsuc}
use tgproxy.Cluster.Zoo.{Zoo, State, is_connected_state}

pub record Zk : Type 0 where
  pub zzh : Option ℕ
  pub zk_addr : Text
  -- Whether `zoo_log_fp_` is an open stream.
  pub zoo_log_fp : Bool

-- The constructor.
abbrev pub new_zk : Zk
new_zk = record { zzh = none; zk_addr = []; zoo_log_fp = false }

-- `set_zk_address(addr)`: an empty address is refused.
unfoldable pub set_zk_address : Zk → Text → Zk
set_zk_address zk addr = if empty addr then zk else record zk { zk_addr = addr }

-- `init_zoo_log`: whether `fopen` of the path succeeds is the file system's.
unfoldable pub init_zoo_log : (Text → Bool) → Zk → Text → Text → Zk
init_zoo_log fopen zk log_dir zoo_log =
    if empty log_dir || empty zoo_log
    then zk
    else record zk { zoo_log_fp = fopen (log_dir ++ codes "/" ++ zoo_log) }

module _ (z : Zoo) where
  open z use {World, init, close, sleep, zoo_state}

  -- The loop of `start_zk`, with the handle, `count` and `state`; `none` would be no end.
  unfoldable pub wait_loop : ℕ → ℕ → ℕ → State → World → Option ℤ × World
  wait_loop zero h count state w = (none, w)
  wait_loop (suc fuel) h count state w = elim (is_connected_state state) [
    | true ↦ (some (pos 0), w)
    | false ↦
        let (state', w') = zoo_state h (sleep 1 w) in
        elim (not (is_connected_state state') && ltb 5 (count + 1)) [
          | true ↦ (some (negsuc 0), w')
          | false ↦ wait_loop fuel h (count + 1) state' w'
        ]
  ]

  -- `start_zk` behind the test on the handle.
  unfoldable pub opened : Zk → Option ℕ × World → Option ℤ × Zk × World
  unfolding wait_loop
  opened zk (none, w) = (some (negsuc 0), record zk { zzh = none }, w)
  opened zk (some h, w) =
      let (r, w') = wait_loop 7 h 0 State.closed w in (r, record zk { zzh = some h }, w')

  unfoldable pub started : Option ℕ → Zk → World → Option ℤ × Zk × World
  unfolding opened
  started (some h) zk w = (some (negsuc 0), zk, w)
  started none zk w = opened zk (init zk.zk_addr w)

  -- `start_zk(ctx)`: 0 for a connection, -1 otherwise.
  unfoldable pub start_zk : Zk → World → Option ℤ × Zk × World
  unfolding started
  start_zk zk w = started zk.zzh zk w

  unfoldable pub finalized : Option ℕ → Zk → World → Zk × World
  finalized none zk w = (zk, w)
  finalized (some h) zk w = (record zk { zzh = none }, close h w)

  -- `finalize_zk()`; the destructor does the same, and closes the log stream.
  unfoldable pub finalize_zk : Zk → World → Zk × World
  unfolding finalized
  finalize_zk zk w = finalized zk.zzh zk w

  unfoldable pub connected_by : Option ℕ → World → Bool × World
  connected_by none w = (false, w)
  connected_by (some h) w = let (s, w') = zoo_state h w in (is_connected_state s, w')

  -- `is_connected()`.
  unfoldable pub is_connected : Zk → World → Bool × World
  unfolding connected_by
  is_connected zk w = connected_by zk.zzh w
