-- ===== src/Cluster/Names.antt =====
-- cluster/tgp_zookeeper.cc: the texts of states and event types in the log.
use tgproxy.Common.{Text, codes}
use tgproxy.Cluster.Zoo.{State, EventType}

unfoldable pub state_to_string : State → Text
state_to_string State.closed = codes "CLOSED_STATE"
state_to_string State.connecting = codes "CONNECTING_STATE"
state_to_string State.associating = codes "ASSOCIATING_STATE"
state_to_string State.connected = codes "CONNECTED_STATE"
state_to_string State.expired_session = codes "EXPIRED_SESSION_STATE"
state_to_string State.auth_failed = codes "AUTH_FAILED_STATE"
state_to_string (State.other_state s) = codes "INVALID_STATE"

unfoldable pub type_to_string : EventType → Text
type_to_string EventType.created = codes "CREATED_EVENT"
type_to_string EventType.deleted = codes "DELETED_EVENT"
type_to_string EventType.changed = codes "CHANGED_EVENT"
type_to_string EventType.child = codes "CHILD_EVENT"
type_to_string EventType.session = codes "SESSION_EVENT"
type_to_string EventType.notwatching = codes "NOTWATCHING_EVENT"
type_to_string (EventType.other_event t) = codes "UNKNOWN_EVENT_TYPE"
