-- ===== src/Registry.antt =====
-- central_server/registry/nodes.py: the node registry. A clock read is the argument `now`; the token
-- table and the nodes are insertion-ordered dicts.
pub mod Laws
pub mod Invariant
pub mod Kept
use agentic_juggling.Prelude.{
  String, Bool, true, false, not, Option, none, some, List, map, ◌==◌, if◌then◌else◌, keep, is_some,
}
use agentic_juggling.Prelude.Int.{ℤ}
use agentic_juggling.Prelude.Dict.{Dict, lookup, insert, modify, values}

pub data NodeState : Type 0 where
  connected ready running disconnected : NodeState

-- `==` of the enum
unfoldable pub same_state : NodeState → NodeState → Bool
same_state NodeState.connected NodeState.connected = true
same_state NodeState.ready NodeState.ready = true
same_state NodeState.running NodeState.running = true
same_state NodeState.disconnected NodeState.disconnected = true
same_state _ _ = false

pub record NodeRecord : Type 0 where
  pub node_id : String
  pub hostname : String
  pub ip : String
  pub state : NodeState
  pub zmq_identity : Option String
  pub connected_at : ℤ
  pub last_seen : ℤ

pub record NodeRegistry : Type 0 where
  pub allowed_tokens : Dict String
  pub nodes : Dict NodeRecord

-- `NodeRegistry(allowed_tokens)`
unfoldable pub new_registry : Dict String → NodeRegistry
new_registry tokens = record { allowed_tokens = tokens; nodes = List.[] }

unfoldable pub authenticate : String → String → NodeRegistry → Bool
authenticate node_id token r = elim (lookup node_id r.allowed_tokens) [
  | none ↦ false
  | some expected ↦ expected == token
]

-- the record that `register` leaves under the node's id, given the one that was there
unfoldable pub registered : String → String → String → String → ℤ → Option NodeRecord → NodeRecord
registered node_id hostname ip identity now (some node) = record node {
  hostname = hostname;
  ip = ip;
  zmq_identity = some identity;
  last_seen = now;
  state = NodeState.connected;
}
registered node_id hostname ip identity now none = record {
  node_id = node_id;
  hostname = hostname;
  ip = ip;
  state = NodeState.connected;
  zmq_identity = some identity;
  connected_at = now;
  last_seen = now;
}

-- The record, whether the node was known, and the registry afterwards.
unfoldable pub register :
    String → String → String → String → ℤ → NodeRegistry → NodeRecord × Bool × NodeRegistry
register node_id hostname ip identity now r =
    let prev = lookup node_id r.nodes in
    let node = registered node_id hostname ip identity now prev in
    (node, is_some prev, record r { nodes = insert node_id node r.nodes })

abbrev pub set_state : NodeState → ℤ → NodeRecord → NodeRecord
set_state state now node = record node { state = state; last_seen = now }

-- A node that is not there is left alone.
unfoldable pub update_state : String → NodeState → ℤ → NodeRegistry → NodeRegistry
update_state node_id state now r = record r { nodes = modify node_id (set_state state now) r.nodes }

abbrev pub seen_at : ℤ → NodeRecord → NodeRecord
seen_at now node = record node { last_seen = now }

unfoldable pub touch : String → ℤ → NodeRegistry → NodeRegistry
touch node_id now r = record r { nodes = modify node_id (seen_at now) r.nodes }

unfoldable pub get : String → NodeRegistry → Option NodeRecord
get node_id r = lookup node_id r.nodes

unfoldable pub all_in_state : NodeState → NodeRegistry → List NodeRecord
unfolding same_state
all_in_state state r = keep (λ n. same_state n.state state) (values r.nodes)

unfoldable pub all_connected : NodeRegistry → List NodeRecord
unfolding same_state
all_connected r = keep (λ n. not (same_state n.state NodeState.disconnected)) (values r.nodes)

unfoldable pub identity_for : String → NodeRegistry → Option String
identity_for node_id r = elim (lookup node_id r.nodes) [
  | none ↦ none
  | some node ↦ node.zmq_identity
]

-- the ids of a list of records, `{n.node_id for n in records}`
abbrev pub ids : List NodeRecord → List String
ids = map (λ n. n.node_id)
