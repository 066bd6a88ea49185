-- ===== src/Manager/Readiness.antt =====
-- The readiness of the nodes around a stop (central_server/match/manager.py).
use agentic_juggling.Prelude.{String, Bool, true, ◌≡◌, refl, List, [], ◌∷◌, arith}
use agentic_juggling.Prelude.Int.{ℤ}
use agentic_juggling.Primitives.{Primitives}
use agentic_juggling.Match.Config.{NodeAssignment}
use agentic_juggling.Registry
use agentic_juggling.Registry.{NodeState, NodeRegistry, same_state, ids}
use agentic_juggling.Registry.Laws.{get-update_state}
use agentic_juggling.Registry.Invariant.{IsValid, test, elem-all_in_state}
use agentic_juggling.Registry.Kept.{Anyone, valid}
use agentic_juggling.Manager.Registered.{stop_nodes-kept}
use agentic_juggling.Server.{Server}
use agentic_juggling.Server.Wire.{Message}
use agentic_juggling.Server.Router.{send}
use agentic_juggling.Manager.{all_ready, stop_node, stop_nodes}

-- the node's record is there, in state READY
abbrev pub is_ready : String → NodeRegistry → Bool
is_ready id r = test (λ n. same_state n.state NodeState.ready) (Registry.get id r)

ready-update_state :
    (k j : String) (now : ℤ) (r : NodeRegistry)
    → is_ready j r ≡ true
    → is_ready j (Registry.update_state k NodeState.ready now r) ≡ true
unfolding same_state
ready-update_state k j now r h = ground (arith, get-update_state k j r now NodeState.ready)

registry-send : (id : String) (m : Message) (s : Server) → (send id m s).1.registry ≡ s.registry
unfolding send
registry-send id m s = ground arith

module _ (p : Primitives) (now : ℤ) (match_id : String) where
  ready-stop_node :
      (j : String) (na : NodeAssignment) (s : Server)
      → is_ready j s.registry ≡ true
      → is_ready j (stop_node p now match_id na s).registry ≡ true
  unfolding stop_node send
  ready-stop_node j na s h = ground (arith, ready-update_state na.node_id j now s.registry h)

  ready-stop_nodes :
      (j : String) (nas : List NodeAssignment) (s : Server)
      → is_ready j s.registry ≡ true
      → is_ready j (stop_nodes p now match_id nas s).registry ≡ true
  unfolding stop_nodes
  ready-stop_nodes j [] s h = h
  ready-stop_nodes j (na ∷ nas) s h =
      ready-stop_nodes j nas (stop_node p now match_id na s) (ready-stop_node j na s h)

-- In valid registries, if each ready node of the one is ready in the other, so is a set of nodes.
all_ready_mono :
    (es : List String) (s s' : Server)
    → IsValid s.registry
    → IsValid s'.registry
    → ((j : String) → is_ready j s.registry ≡ true → is_ready j s'.registry ≡ true)
    → all_ready es s ≡ true
    → all_ready es s' ≡ true
unfolding all_ready
all_ready_mono [] s s' v v' keep h = refl
all_ready_mono (e ∷ es) s s' v v' keep h = ground (
  arith,
  elem-all_in_state s.registry e NodeState.ready v,
  elem-all_in_state s'.registry e NodeState.ready v',
  keep e,
  all_ready_mono es s s' v v' keep,
)

-- Once stopped, the nodes that a waiting `start` expects are still all ready.
pub all_ready-stop_nodes :
    (p : Primitives) (now : ℤ) (match_id : String) (es : List String) (nas : List NodeAssignment)
    (s : Server)
    → IsValid s.registry
    → all_ready es s ≡ true
    → all_ready es (stop_nodes p now match_id nas s) ≡ true
all_ready-stop_nodes p now match_id es nas s v h =
    all_ready_mono es s (stop_nodes p now match_id nas s) v
      (stop_nodes-kept (valid Anyone) p now match_id nas s v)
      (λ j. ready-stop_nodes p now match_id j nas s) h
