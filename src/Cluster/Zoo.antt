-- ===== src/Cluster/Zoo.antt =====
-- The C client of ZooKeeper (zookeeper.h) as far as the proxy calls it. The client, the servers and
-- the clock behind `sleep` are one unknown world, which every call may change. The constants of the
-- header stand as constructors, told apart as the switch statements tell them apart.
use tgproxy.Common.{ℕ, Bool, true, false, List, Option, Text}
use tgproxy.Common.Int.{ℤ}

-- Result codes: ZOK, ZNONODE, ZNODEEXISTS, ZINVALIDSTATE, ZMARSHALLINGERROR and all others.
pub data Code : Type 0 where
  zok znonode znodeexists zinvalidstate zmarshallingerror : Code
  other_code : ℤ → Code

-- What `zoo_state` answers; `closed` is 0.
pub data State : Type 0 where
  closed connecting associating connected expired_session auth_failed : State
  other_state : ℤ → State

-- The type of an event.
pub data EventType : Type 0 where
  created deleted changed child session notwatching : EventType
  other_event : ℤ → EventType

abbrev pub is_connected_state : State → Bool
is_connected_state State.connected = true
is_connected_state _ = false

abbrev pub is_ok : Code → Bool
is_ok Code.zok = true
is_ok _ = false

pub record Zoo : Type 1 where
  pub World : Type 0
  -- `zookeeper_init(addr, zk_watcher, 10000, 0, ctx, 0)`: `none` is a null pointer.
  pub init : Text → World → Option ℕ × World
  pub close : ℕ → World → World
  pub sleep : ℕ → World → World
  pub zoo_state : ℕ → World → State × World
  pub zoo_exists : ℕ → Text → World → Code × World
  pub zoo_wexists : ℕ → Text → World → Code × World
  -- The value is `none` for a null pointer; the flag says ZOO_EPHEMERAL.
  pub zoo_create : ℕ → Text → Option Text → Bool → World → Code × World
  pub zoo_set : ℕ → Text → Text → World → Code × World
  -- The code, and what the buffer of 1024 bytes holds behind the call.
  pub zoo_get : ℕ → Text → World → (Code × Text) × World
  pub zoo_wget : ℕ → Text → World → (Code × Text) × World
  -- The children calls are made with a null handle too.
  pub zoo_get_children : Option ℕ → Text → World → (Code × List Text) × World
  pub zoo_wget_children : Option ℕ → Text → World → (Code × List Text) × World
