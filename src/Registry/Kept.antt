-- ===== src/Registry/Kept.antt =====
-- What the other parts of the central server may rely on: a property of the node registry
-- (central_server/registry/nodes.py) that every operation keeps.
use mathlib.Core.Path.{subst}
use agentic_juggling.Prelude.{
  String, true, false, ◌≡◌, refl, some, arith, eq_iff, ◌==◌, Bool-cases, inl, inr,
}
use agentic_juggling.Registry.Laws.{authenticate_iff}
use agentic_juggling.Prelude.Int.{ℤ}
use agentic_juggling.Prelude.Dict.{Dict, lookup, has_key, lookup-insert, lookup-modify}
use agentic_juggling.Registry.{
  NodeState, NodeRegistry, NodeRecord, same_state, authenticate, registered, register, set_state,
  update_state, seen_at, touch, new_registry,
}
use agentic_juggling.Registry.Invariant.{
  IsValid, register-IsValid, update_state-IsValid, touch-IsValid,
}

-- `register` is called for a node that has been authenticated, with an id and a token that `A` is about, and no call sets
-- DISCONNECTED.
pub record Kept (A : String → String → Type 0) (I : NodeRegistry → Type 0) : Type 0 where
  pub register_keeps :
      (r : NodeRegistry)
      → I r
      → (id token host ip identity : String) (now : ℤ) → authenticate id token r ≡ true
      → A id token
      → I (register id host ip identity now r).2
  pub update_state_keeps :
      (r : NodeRegistry)
      → I r
      → (id : String) (s : NodeState) (now : ℤ) → same_state s NodeState.disconnected ≡ false
      → I (update_state id s now r)
  pub touch_keeps : (r : NodeRegistry) → I r → (id : String) (now : ℤ) → I (touch id now r)

-- no condition on who registers
abbrev pub Anyone : String → String → Type 0
Anyone id token = Unit

pub valid : (A : String → String → Type 0) → Kept A IsValid
valid A = record {
  register_keeps =
      λ r h id token host ip identity now _ _. register-IsValid r h id host ip identity now;
  update_state_keeps = update_state-IsValid;
  touch_keeps = touch-IsValid;
}

-- the configured tokens, and P holds of every node in the registry
abbrev pub Admitted : Dict String → (String → Type 0) → NodeRegistry → Type 0
Admitted tokens P r = (r.allowed_tokens ≡ tokens) × ((j : String) → has_key j r.nodes ≡ true → P j)

module _ (A : String → String → Type 0) (tokens : Dict String) (P : String → Type 0)
    (join : (id token : String) → lookup id tokens ≡ some token → A id token → P id) where
  register-Admitted :
      (r : NodeRegistry)
      → Admitted tokens P r
      → (id token host ip identity : String) (now : ℤ) → authenticate id token r ≡ true
      → A id token
      → Admitted tokens P (register id host ip identity now r).2
  unfolding register
  register-Admitted r h id token host ip identity now known a = (
    h.0,
    λ j k. elim (Bool-cases (id == j)) [
      | inl e ↦ subst P ((eq_iff id j).0 e) (join id token configured a)
      | inr e ↦ h.1 j (ground (arith, e, k, lookup-insert id j node r.nodes))
    ],
  )
    where
      node : NodeRecord
      node = registered id host ip identity now (lookup id r.nodes)

      configured : lookup id tokens ≡ some token
      configured = subst (λ t. lookup id t ≡ some token) h.0 ((authenticate_iff id token r).0 known)

  update_state-Admitted :
      (r : NodeRegistry)
      → Admitted tokens P r
      → (id : String) (s : NodeState) (now : ℤ) → Admitted tokens P (update_state id s now r)
  unfolding update_state
  update_state-Admitted r h id s now =
      (h.0, λ j k. h.1 j (ground (arith, k, lookup-modify id j (set_state s now) r.nodes)))

  touch-Admitted :
      (r : NodeRegistry)
      → Admitted tokens P r
      → (id : String) (now : ℤ) → Admitted tokens P (touch id now r)
  unfolding touch
  touch-Admitted r h id now =
      (h.0, λ j k. h.1 j (ground (arith, k, lookup-modify id j (seen_at now) r.nodes)))

  pub admitted : Kept A (Admitted tokens P)
  admitted = record {
    register_keeps = register-Admitted;
    update_state_keeps = λ r h id s now _. update_state-Admitted r h id s now;
    touch_keeps = touch-Admitted;
  }

pub new_registry-Admitted :
    (tokens : Dict String) (P : String → Type 0) → Admitted tokens P (new_registry tokens)
unfolding new_registry lookup
new_registry-Admitted tokens P = (refl, λ j k. absurd (ground arith))
