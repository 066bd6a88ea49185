-- ===== src/Server/Router/Registered.antt =====
-- The node registry under the handlers of central_server/network/router.py.
use agentic_juggling.Prelude.{
  ℕ, String, Bool, ◌≡◌, ◌==◌, eq_iff, refl, List, [], ◌∷◌, arith, or_default, Bool-cases, inl, inr,
}
use agentic_juggling.Prelude.Int.{ℤ}
use agentic_juggling.Primitives.{Primitives}
use agentic_juggling.Registry
use agentic_juggling.Registry.{NodeState, NodeRegistry, same_state}
use agentic_juggling.Registry.Kept.{Kept}
use agentic_juggling.Server.{Server}
use agentic_juggling.Server.Wire.{Payload, Raw, malformed, other_json, object}
use agentic_juggling.Server.Router.{
  handle_register, push_scores, on_metrics, on_hook, handle_metrics, handle_hook, dispatch_object,
  dispatch,
}

-- the frames are those of a REGISTER message with the id and the token
abbrev pub Presents : (String → Raw) → List String → String → String → Type 0
Presents loads [] id token = ⊥
Presents loads (x ∷ []) id token = ⊥
Presents loads (x ∷ y ∷ []) id token = ⊥
Presents loads (x ∷ kind ∷ raw ∷ _) id token =
    (m : Payload) × (kind ≡ "REGISTER")
    × (loads raw ≡ object m)
    × (or_default m.node_id "" ≡ id)
    × (or_default m.token "" ≡ token)

module _ {A : String → String → Type 0} {I : NodeRegistry → Type 0} (K : Kept A I) (p : Primitives)
    (alive : ℕ → Bool) (now : ℤ) where
  handle_register-kept :
      (identity : String) (m : Payload) (s : Server)
      → A (or_default m.node_id "") (or_default m.token "")
      → I s.registry
      → I (handle_register p alive now identity m s).1.registry
  unfolding handle_register same_state
  handle_register-kept identity m s a h =
      let id = or_default m.node_id "" in
      let token = or_default m.token "" in
      let host = or_default m.hostname "" in
      let ip = or_default m.ip "" in
      let reg = (Registry.register id host ip identity now s.registry).2 in
      elim (Bool-cases (Registry.authenticate id token s.registry)) [
        | inl known ↦
            let after : I reg =
              K.register_keeps s.registry h id token host ip identity now known a in
            let then_ready : I (Registry.update_state id NodeState.ready now reg) =
              K.update_state_keeps reg after id NodeState.ready now refl in
            ground (arith, known, after, then_ready)
        | inr refused ↦ ground (arith, refused)
      ]

  handle_metrics-kept :
      (m : Payload) (s : Server) → I s.registry → I (handle_metrics p alive now m s).registry
  unfolding handle_metrics on_metrics push_scores
  handle_metrics-kept m s h =
      ground (arith, K.touch_keeps s.registry h (or_default m.node_id "") now)

  handle_hook-kept :
      (m : Payload) (s : Server) → I s.registry → I (handle_hook p alive now m s).registry
  unfolding handle_hook on_hook
  handle_hook-kept m s h = ground (arith, K.touch_keeps s.registry h (or_default m.node_id "") now)

  dispatch_object-kept :
      (identity kind : String) (raw : Raw) (s : Server)
      → ((m : Payload)
          → kind ≡ "REGISTER"
          → raw ≡ object m
          → A (or_default m.node_id "") (or_default m.token ""))
      → I s.registry
      → I (dispatch_object p alive now identity kind raw s).1.registry
  unfolding dispatch_object
  dispatch_object-kept identity kind malformed s a h = h
  dispatch_object-kept identity kind other_json s a h = ground arith
  dispatch_object-kept identity kind (object m) s a h = elim (Bool-cases (kind == "REGISTER")) [
    | inl e ↦ rw e (handle_register-kept identity m s (a m ((eq_iff kind "REGISTER").0 e) refl) h)
    | inr e ↦ ground (arith, e, handle_metrics-kept m s h, handle_hook-kept m s h)
  ]

  pub dispatch-kept :
      (loads : String → Raw) (frames : List String) (s : Server)
      → ((id token : String) → Presents loads frames id token → A id token)
      → I s.registry
      → I (dispatch p alive now loads frames s).1.registry
  unfolding dispatch
  dispatch-kept loads [] s a h = h
  dispatch-kept loads (x ∷ []) s a h = h
  dispatch-kept loads (x ∷ y ∷ []) s a h = h
  dispatch-kept loads (x ∷ y ∷ z ∷ _) s a h =
      dispatch_object-kept x y (loads z) s (λ m k e. a _ _ (m, k, e, refl, refl)) h
