-- ===== src/Cluster/Start.antt =====
-- The end of `start_zk`: how long it waits, and the state it leaves.
use tgproxy.Common.{
  ℕ, zero, suc, ◌+◌, ◌<◌, ◌≡◌, inl, inr, refl, true, false, ◌&&◌, not, Option, none, some, ltb,
  lt→ltb, Bool-cases, arith,
}
use tgproxy.Common.Int.{ℤ, pos, negsuc}
use tgproxy.Cluster.Zoo.{Zoo, State, is_connected_state}
use tgproxy.Cluster.Zk.{Zk, wait_loop, start_zk, started, opened}

module _ (z : Zoo) where
  open z use {World, init, sleep, zoo_state}

  -- One round's wait and question.
  abbrev poll : ℕ → World → State × World
  poll h w = zoo_state h (sleep 1 w)

  -- A run of n polls without a connection.
  pub data Unconnected (h : ℕ) : ℕ → World → World → Type 0 where
    waited : (w : World) → Unconnected h zero w w
    polled :
        (n : ℕ) (w w' : World)
        → is_connected_state (poll h w).0 ≡ false
        → Unconnected h n (poll h w).1 w'
        → Unconnected h (suc n) w w'

  -- A connection at a poll before the n-th, or none in n polls.
  pub data Waited (h n : ℕ) (w : World) : Option ℤ × World → Type 0 where
    came :
        (k : ℕ) (u : World)
        → k < n
        → Unconnected h k w u
        → is_connected_state (poll h u).0 ≡ true
        → Waited h n w (some (pos 0), (poll h u).1)
    gave_up : (w' : World) → Unconnected h n w w' → Waited h n w (some (negsuc 0), w')

  Waited-suc :
      (h n : ℕ) (w : World) (r : Option ℤ × World)
      → is_connected_state (poll h w).0 ≡ false
      → Waited h n (poll h w).1 r
      → Waited h (suc n) w r
  Waited-suc h n w _ e (came k u lt run c) = came (suc k) u (omega arith) (polled k w u e run) c
  Waited-suc h n w _ e (gave_up w' run) = gave_up w' (polled n w w' e run)

  wait_loop_connected :
      (fuel h count : ℕ) (s : State) (w : World)
      → is_connected_state s ≡ true
      → wait_loop z (suc fuel) h count s w ≡ (some (pos 0), w)
  unfolding wait_loop
  wait_loop_connected fuel h count s w e = rw (e, wait_loop)

  wait_loop_gives_up :
      (fuel h count : ℕ) (s : State) (w : World)
      → is_connected_state s ≡ false
      → is_connected_state (poll h w).0 ≡ false
      → 5 < count + 1
      → wait_loop z (suc fuel) h count s w ≡ (some (negsuc 0), (poll h w).1)
  unfolding wait_loop
  wait_loop_gives_up fuel h count s w e f l = rw (e, f, lt→ltb 5 (count + 1) l, wait_loop)

  wait_loop_round :
      (fuel h count : ℕ) (s : State) (w : World)
      → is_connected_state s ≡ false
      → (not (is_connected_state (poll h w).0) && ltb 5 (count + 1)) ≡ false
      → wait_loop z (suc fuel) h count s w
        ≡ wait_loop z fuel h (count + 1) (poll h w).0 (poll h w).1
  unfolding wait_loop
  wait_loop_round fuel h count s w e f = rw (e, f, wait_loop)

  -- A connection at the next poll ends the loop.
  wait_loop_came :
      (n fuel h count : ℕ) (s : State) (w : World)
      → is_connected_state s ≡ false
      → is_connected_state (poll h w).0 ≡ true
      → Waited h (suc n) w (wait_loop z (suc (suc fuel)) h count s w)
  wait_loop_came n fuel h count s w e c =
      rw
        (
          wait_loop_round (suc fuel) h count s w e (rw c),
          wait_loop_connected fuel h (count + 1) (poll h w).0 (poll h w).1 c,
        )
        (came 0 w (omega arith) (waited w) c)

  -- Six polls at most, and enough fuel for them.
  wait_loop-Waited :
      (n fuel h count : ℕ) (s : State) (w : World)
      → count + suc n ≡ 6
      → suc n < fuel
      → is_connected_state s ≡ false
      → Waited h (suc n) w (wait_loop z fuel h count s w)
  wait_loop-Waited n zero h count s w c f e = absurd (omega arith)
  wait_loop-Waited n (suc zero) h count s w c f e = absurd (omega arith)
  wait_loop-Waited zero (suc (suc fuel)) h count s w c f e =
      elim (Bool-cases (is_connected_state (poll h w).0)) [
        | inl k ↦ wait_loop_came 0 fuel h count s w e k
        | inr k ↦
            rw (wait_loop_gives_up (suc fuel) h count s w e k (omega arith))
              (gave_up (poll h w).1 (polled 0 w _ k (waited _)))
      ]
  wait_loop-Waited (suc n) (suc (suc fuel)) h count s w c f e =
      elim (Bool-cases (is_connected_state (poll h w).0)) [
        | inl k ↦ wait_loop_came (suc n) fuel h count s w e k
        | inr k ↦
            let early : ltb 5 (count + 1) ≡ false = ground arith in
            rw (wait_loop_round (suc fuel) h count s w e (rw (k, early))) (
              Waited-suc h (suc n) w _ k (
                wait_loop-Waited n (suc fuel) h (count + 1) (poll h w).0 (poll h w).1 (omega arith)
                  (omega arith) k))
      ]

  -- The three ways that a start can go.
  pub data Starts (zk : Zk) (w : World) : Option ℤ × Zk × World → Type 0 where
    running : (h : ℕ) → zk.zzh ≡ some h → Starts zk w (some (negsuc 0), zk, w)
    no_handle :
        (w' : World)
        → zk.zzh ≡ none
        → init zk.zk_addr w ≡ (none, w')
        → Starts zk w (some (negsuc 0), record zk { zzh = none }, w')
    waits :
        (h : ℕ) (w' : World) (r : Option ℤ × World)
        → zk.zzh ≡ none
        → init zk.zk_addr w ≡ (some h, w')
        → Waited h 6 w' r
        → Starts zk w (r.0, record zk { zzh = some h }, r.1)

  opened-Starts :
      (zk : Zk) (w : World) (o : Option ℕ × World)
      → zk.zzh ≡ none
      → init zk.zk_addr w ≡ o
      → Starts zk w (opened z zk o)
  unfolding opened
  opened-Starts zk w (none, w') e f = no_handle w' e f
  opened-Starts zk w (some h, w') e f =
      waits h w' _ e f (wait_loop-Waited 5 7 h 0 State.closed w' (omega arith) (omega arith) refl)

  started-Starts :
      (zk : Zk) (w : World) (o : Option ℕ) → zk.zzh ≡ o → Starts zk w (started z o zk w)
  unfolding started
  started-Starts zk w none e = opened-Starts zk w (init zk.zk_addr w) e refl
  started-Starts zk w (some h) e = running h e

  -- `start_zk` always ends: with -1 and nothing changed if there is a handle; with -1 and no handle
  -- if the client gives none; else with the new handle kept, and 0 after a poll among the first six
  -- that finds the connection, or -1 after exactly six polls that do not.
  pub start_zk-Starts : (zk : Zk) (w : World) → Starts zk w (start_zk z zk w)
  unfolding start_zk
  start_zk-Starts zk w = started-Starts zk w zk.zzh refl
