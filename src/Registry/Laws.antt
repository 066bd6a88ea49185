-- ===== src/Registry/Laws.antt =====
-- The operations of central_server/registry/nodes.py, record by record.
use agentic_juggling.Prelude.{
  String, true, false, ◌≡◌, ◌↔◌, none, some, arith, ◌==◌, eq_iff, if◌then◌else◌,
}
use agentic_juggling.Prelude.Int.{ℤ}
use agentic_juggling.Prelude.Dict.{lookup, map_option, lookup-modify}
use agentic_juggling.Registry.{NodeState, NodeRegistry, authenticate, set_state, update_state, get}

-- A node is authenticated exactly when its token is the one configured under its id.
pub authenticate_iff :
    (node_id token : String) (r : NodeRegistry)
    → (authenticate node_id token r ≡ true) ↔ (lookup node_id r.allowed_tokens ≡ some token)
unfolding authenticate
authenticate_iff node_id token r =
    elim (lookup node_id r.allowed_tokens)
      as (λ o.
        ((elim o [ none ↦ false | some expected ↦ expected == token ]) ≡ true) ↔ (o ≡ some token)) [
          | none ↦ (λ h. ground arith, λ h. ground arith)
          | some e ↦ (λ h. ground (arith, eq_iff e token), λ h. ground (arith, eq_iff e token))
        ]

pub get-update_state :
    (k j : String) (r : NodeRegistry) (now : ℤ) (s : NodeState)
    → get j (update_state k s now r)
      ≡ (if k == j then map_option (set_state s now) (get j r) else get j r)
unfolding get update_state
get-update_state k j r now s = rw lookup-modify
