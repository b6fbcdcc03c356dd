-- ===== src/Registry/Zk/Events.antt =====
-- listenEvent of zk.go, whose watcher is the registry of registry_zk.go.
pub mod Lost
pub mod Heard
pub mod Client
use go_moa.Base.{
  Bool, true, false, Text, Option, none, some, List, [], ◌∷◌, ◌||◌, if◌then◌else◌, any, has_infix,
}
use go_moa.Zookeeper.{Conn, Ran, done, panicked}
use go_moa.Registry.Zk.{Json, ZkRegistry}
use go_moa.Registry.Zk.Index.{node_change, on_session_expired}

-- The types and states of zk.Event that the loop tells apart.
pub data EventType : Type 0 where
  session node_deleted node_created node_children_changed other_type : EventType

pub data EventState : Type 0 where
  expired disconnected other_state : EventState

pub record Event : Type 0 where
  pub event_type : EventType
  pub state : EventState
  pub path : Text

abbrev pub is_lost : EventState → Bool
is_lost expired = true
is_lost disconnected = true
is_lost other_state = false

module _ (conn : Conn) (json : Json) where
  open conn use {State, children_w, exists_w}

  -- Every watched path calls its watcher, which is this registry.
  expire : List Text → ZkRegistry → State → Ran State ZkRegistry
  expire [] r s = done r s
  expire (path ∷ paths) r s = elim (on_session_expired conn json r s) [
    | done b s1 ↦ expire paths r s1
    | panicked s1 ↦ panicked s1
  ]

  pub children_changed : ZkRegistry → Text → Option (List Text) → State → Ran State ZkRegistry
  children_changed r path none s = done r s
  children_changed r path (some childnodes) s = node_change conn json r path childnodes s

  on_event : Event → ZkRegistry → State → Ran State ZkRegistry
  unfolding expire children_changed
  on_event e r s = elim e.event_type [
    | session ↦ if is_lost e.state then expire r.watched r s else done r s
    | node_deleted ↦ node_change conn json r e.path [] (exists_w e.path s).1
    | node_created ↦ children_changed r e.path (children_w e.path s).0 (children_w e.path s).1
    | node_children_changed ↦
        children_changed r e.path (children_w e.path s).0 (children_w e.path s).1
    | other_type ↦ done r s
  ]

  -- One round of the loop. An event has a watcher if its path contains a watched one.
  unfoldable pub listen_event : Event → ZkRegistry → State → Ran State ZkRegistry
  unfolding on_event
  listen_event e r s = if any (λ k. has_infix e.path k) r.watched then on_event e r s else done r s

  -- The rounds of the loop, until the manager is closed or one panics.
  unfoldable pub listen_events : List Event → ZkRegistry → State → Ran State ZkRegistry
  unfolding listen_event
  listen_events [] r s = done r s
  listen_events (e ∷ es) r s = elim r.is_close [
    | true ↦ done r s
    | false ↦ elim (listen_event e r s) [
      | done r1 s1 ↦ listen_events es r1 s1
      | panicked s1 ↦ panicked s1
    ]
  ]
