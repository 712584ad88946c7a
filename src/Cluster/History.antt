-- ===== src/Cluster/History.antt =====
-- Every history of the cluster's admin: the rounds of its thread, the events of ZooKeeper, starts,
-- stops and requests for an address, in any order.
use tgproxy.Common.{
  ℕ, zero, suc, ◌+◌, ◌%◌, ◌^◌, ◌<◌, ◌≡◌, ◌≢◌, ◌⊎◌, inl, inr, refl, Bool, true, false, List, [], ◌∷◌,
  Text, empty, length, All, get_or-All, Bool-cases, arith,
}
use mathlib.Core.List.{cons-ne-nil}
use native.Mathlib.Nat.{mod-lt}
use tgproxy.Common.Int.{ℤ, pos, negsuc}
use tgproxy.Conf.{Conf}
use tgproxy.Cluster.Zoo.{Zoo, State, EventType}
use tgproxy.Cluster.Zk.{Zk, is_connected}
use tgproxy.Cluster.Children.{is_address, get_chdnodes}
use tgproxy.Cluster.Retries.{Listed, get_chdnodes_ok, Listed-All}
use tgproxy.Cluster.Admin.{
  Admin, new_admin, next_count, served, get_one_ms_addr, begin_zk, start_zk_process,
  stop_zk_process, renewed, update_model_server_list, loop_round, children_watcher, Reaction,
  update, reconnect, ignore, react, same_handle, zk_watcher,
}

module _ (z : Zoo) (fopen : Text → Bool) (conf : Conf) where
  open z use {World, sleep}

  -- An update keeps everything, or it puts the listed addresses, at least one, in the list's place.
  pub data Updates (a : Admin) (w : World) : Bool × Admin × World → Type 0 where
    failed : (w' : World) → Updates a w (false, a, w')
    listed :
        (n : Text) (ns : List Text) (w' : World)
        → Listed z a.zk conf.ms_zk_path (n ∷ ns) w'
        → Updates a w (true, record a { ms_cluster = n ∷ ns }, w')

  renewed-Updates :
      (a : Admin) (w : World) (r : (ℤ × List Text) × World)
      → get_chdnodes z a.zk conf.ms_zk_path [] w ≡ r
      → Updates a w (renewed z fopen conf a r)
  unfolding renewed
  renewed-Updates a w ((pos zero, []), w') e = failed w'
  renewed-Updates a w ((pos zero, n ∷ ns), w') e =
      listed n ns w' (get_chdnodes_ok z a.zk conf.ms_zk_path w (n ∷ ns) w' e)
  renewed-Updates a w ((pos (suc c), ns), w') e = failed w'
  renewed-Updates a w ((negsuc c, ns), w') e = failed w'

  -- `updateModelServerList` answers false and leaves the list of servers and all else as it was, or it answers
  -- true with the sorted addresses of one answer of the client, never the empty list.
  pub update_model_server_list-Updates :
      (a : Admin) (w : World) → Updates a w (update_model_server_list z fopen conf a w)
  unfolding update_model_server_list
  update_model_server_list-Updates a w = renewed-Updates a w _ refl

  -- One thing that happens to the admin.
  pub data Step : Admin × World → Admin × World → Type 0 where
    round : (a : Admin) (w : World) → Step (a, w) (loop_round z fopen conf a w)
    children_event : (a : Admin) (w : World) → Step (a, w) (children_watcher z fopen conf a w)
    session_event :
        (null_ctx : Bool) (zh : ℕ) (type : EventType) (state : State) (a : Admin) (w : World)
        → Step (a, w) (zk_watcher z fopen conf null_ctx zh type state a w)
    starts :
        (a : Admin) (w : World)
        → Step (a, w) ((start_zk_process z fopen conf a w).1, (start_zk_process z fopen conf a w).2)
    stops : (a : Admin) (w : World) → Step (a, w) (stop_zk_process z fopen conf a w)
    asks : (a : Admin) (w : World) → Step (a, w) ((get_one_ms_addr a).1, w)
    elapses : (a : Admin) (w w' : World) → Step (a, w) (a, w')

  pub data Reach (s : Admin × World) : Admin × World → Type 0 where
    here : Reach s s
    next : {t u : Admin × World} → Reach s t → Step t u → Reach s u

  -- Every address in the list is one that `get_chdnodes` lets through, and `count_` is a `uint64_t`.
  pub record IsServing (a : Admin) : Type 0 where
    pub addresses : All (λ n. is_address n ≡ true) a.ms_cluster
    pub counted : a.count < 2 ^ 64

  Updates-IsServing :
      (a : Admin) (w : World) (r : Bool × Admin × World)
      → Updates a w r
      → IsServing a
      → IsServing r.1
  Updates-IsServing a w _ (failed w') s = s
  Updates-IsServing a w _ (listed n ns w' l) s = record {
    addresses = Listed-All z a.zk conf.ms_zk_path (n ∷ ns) w' l;
    counted = s.counted;
  }

  update-IsServing :
      (a : Admin) (w : World)
      → IsServing a
      → IsServing (update_model_server_list z fopen conf a w).1
  update-IsServing a w = Updates-IsServing a w _ (update_model_server_list-Updates a w)

  zk-IsServing : (a : Admin) (zk' : Zk) → IsServing a → IsServing (record a { zk = zk' })
  zk-IsServing a zk' s = record { addresses = s.addresses; counted = s.counted }

  stop-IsServing :
      (a : Admin) (w : World) → IsServing a → IsServing (stop_zk_process z fopen conf a w).0
  unfolding stop_zk_process
  stop-IsServing a w s = zk-IsServing a _ s

  start-IsServing :
      (a : Admin) (w : World) → IsServing a → IsServing (start_zk_process z fopen conf a w).1
  unfolding start_zk_process begin_zk
  start-IsServing a w s = elim (Bool-cases (empty conf.zookeeper_address)) [
    | inl e ↦ rw e (zk-IsServing a _ s)
    | inr e ↦ rw e (zk-IsServing a _ s)
  ]

  round-IsServing :
      (a : Admin) (w : World) → IsServing a → IsServing (loop_round z fopen conf a w).0
  unfolding loop_round
  round-IsServing a w s = elim (Bool-cases (is_connected z a.zk (sleep 600 w)).0) [
    | inl e ↦ rw e (update-IsServing a _ s)
    | inr e ↦ rw e (start-IsServing _ _ (stop-IsServing a _ s))
  ]

  react-IsServing :
      (r : Reaction) (a : Admin) (w : World) → IsServing a → IsServing (react z fopen conf r a w).0
  unfolding react
  react-IsServing update a w s = update-IsServing a w s
  react-IsServing reconnect a w s = zk-IsServing a _ s
  react-IsServing ignore a w s = s

  session-IsServing :
      (null_ctx : Bool) (zh : ℕ) (type : EventType) (state : State) (a : Admin) (w : World)
      → IsServing a
      → IsServing (zk_watcher z fopen conf null_ctx zh type state a w).0
  unfolding zk_watcher
  session-IsServing true zh type state a w s = s
  session-IsServing false zh type state a w s = elim (Bool-cases (same_handle zh a.zk.zzh)) [
    | inl e ↦ rw e (react-IsServing _ a w s)
    | inr e ↦ rw e s
  ]

  served-IsServing : (a : Admin) (ms : List Text) → IsServing a → IsServing (served a ms).1
  unfolding served
  served-IsServing a [] s = s
  served-IsServing a (m ∷ ms) s = record {
    addresses = s.addresses;
    counted = mod-lt (a.count + 1) (omega arith);
  }

  pub Step-IsServing : {s t : Admin × World} → Step s t → IsServing s.0 → IsServing t.0
  Step-IsServing (round a w) h = round-IsServing a w h
  Step-IsServing (children_event a w) h = unfold children_watcher in update-IsServing a w h
  Step-IsServing (session_event null_ctx zh type state a w) h =
      session-IsServing null_ctx zh type state a w h
  Step-IsServing (starts a w) h = start-IsServing a w h
  Step-IsServing (stops a w) h = stop-IsServing a w h
  Step-IsServing (asks a w) h = unfold get_one_ms_addr in served-IsServing a a.ms_cluster h
  Step-IsServing (elapses a w w') h = h

  pub Reach-IsServing : {s t : Admin × World} → IsServing s.0 → Reach s t → IsServing t.0
  Reach-IsServing h here = h
  Reach-IsServing h (next r st) = Step-IsServing st (Reach-IsServing h r)

  -- What a request for an address gives: the empty text if and only if the list is empty.
  abbrev pub Serves : Admin → Type 0
  Serves a =
      ((a.ms_cluster ≡ []) × ((get_one_ms_addr a).0 ≡ []))
      ⊎ ((a.ms_cluster ≢ []) × (is_address (get_one_ms_addr a).0 ≡ true))

  served_cases :
      (a : Admin) (ms : List Text)
      → All (λ n. is_address n ≡ true) ms
      → ((ms ≡ []) × ((served a ms).0 ≡ [])) ⊎ ((ms ≢ []) × (is_address (served a ms).0 ≡ true))
  unfolding served
  served_cases a [] h = inl (refl, refl)
  served_cases a (m ∷ ms) h = inr (
    cons-ne-nil m ms,
    get_or-All (λ n. is_address n ≡ true) (m ∷ ms) (next_count a % length (m ∷ ms)) [] h
        (mod-lt _ (omega arith)),
  )

  -- After any history from the constructed state, whatever the client, the file system and the settings
  -- answer, `getOneMsAddr` gives the empty text exactly if the list is empty, and otherwise an address that
  -- is not empty and holds a colon.
  pub Reach-Serves : (w : World) (a : Admin) (w' : World) → Reach (new_admin, w) (a, w') → Serves a
  unfolding get_one_ms_addr
  Reach-Serves w a w' r =
      served_cases a a.ms_cluster
        (Reach-IsServing (record { addresses = tt; counted = omega arith }) r).addresses
