-- ===== src/Server/Router/Register.antt =====
-- Registration, `_handle_register` of central_server/network/router.py.
use agentic_juggling.Prelude.{
  ℕ, String, Bool, false, ◌≡◌, ◌≢◌, Option, none, some, [], ◌∷◌, ◌++◌, arith, ◌==◌, eq_refl,
  or_default, if◌then◌else◌, is_some,
}
use agentic_juggling.Prelude.Int.{ℤ}
use agentic_juggling.Prelude.Dict.{lookup, insert, lookup-insert, lookup-modify}
use agentic_juggling.Prelude.Outcome.{Error, ok, err}
use agentic_juggling.Primitives.{Primitives}
use agentic_juggling.Registry
use agentic_juggling.Registry.{NodeState, NodeRecord, same_state, set_state}
use agentic_juggling.Registry.Laws.{authenticate_iff}
use agentic_juggling.Crypto.{establish_session, has_session}
use agentic_juggling.Crypto.Handshake.{establish_session_failure}
use agentic_juggling.Server.{Server}
use agentic_juggling.Server.Wire.{Payload, register_ok, register_fail}
use agentic_juggling.Server.Router.{handle_register, transmit, was_running}

abbrev pub claimed_id : Payload → String
claimed_id m = or_default m.node_id ""

abbrev pub claimed_token : Payload → String
claimed_token m = or_default m.token ""

abbrev pub claimed_key : Payload → String
claimed_key m = or_default m.ecdh_pubkey ""

-- the state of a node's record
abbrev pub node_state : Option NodeRecord → Option NodeState
node_state none = none
node_state (some n) = some n.state

module _ (p : Primitives) (alive : ℕ → Bool) (now : ℤ) (identity : String) (m : Payload)
    (s : Server) where
  -- A node whose token is not the one configured for its id gets REGISTER_FAIL, and nothing else of the
  -- server changes.
  handle_register_unauthorised :
      lookup (claimed_id m) s.registry.allowed_tokens ≢ some (claimed_token m)
      → handle_register p alive now identity m s
        ≡ (ok tt, transmit identity (register_fail "invalid token") s)
  unfolding handle_register
  handle_register_unauthorised h =
      ground (arith, h, (authenticate_iff (claimed_id m) (claimed_token m) s.registry).0)

  -- The answer to a node that authenticates and whose key exchange succeeds says whether it was known,
  -- whether it was running, and the server's key. Its record has the new identity; it is READY, but
  -- CONNECTED where it was running.
  pub handle_register_accepted :
      {reply : String}
      → lookup (claimed_id m) s.registry.allowed_tokens ≡ some (claimed_token m)
      → (claimed_key m == "") ≡ false
      → (establish_session p (claimed_id m) (claimed_key m) s.crypto).0 ≡ ok reply
      → let (r, s') = handle_register p alive now identity m s in
        let before = Registry.get (claimed_id m) s.registry in
        (r ≡ ok tt)
        × (s'.sent
            ≡ s.sent
              ++ record {
                identity = identity;
                message = register_ok (is_some before) (was_running before) reply;
              }
                ∷ [])
        × (Registry.identity_for (claimed_id m) s'.registry ≡ some identity)
        × (node_state (Registry.get (claimed_id m) s'.registry)
            ≡ some (if was_running before then NodeState.connected else NodeState.ready))
  unfolding handle_register Registry.register Registry.update_state Registry.get
      Registry.identity_for Registry.registered
  handle_register_accepted known key fine =
      let id = claimed_id m in
      let node =
        Registry.registered id (or_default m.hostname "") (or_default m.ip "") identity now
          (lookup id s.registry.nodes) in
      ground (
        arith,
        eq_refl id,
        (authenticate_iff id (claimed_token m) s.registry).1 known,
        lookup-insert id id node s.registry.nodes,
        lookup-modify id id (set_state NodeState.ready now) (insert id node s.registry.nodes),
      )

  -- what the key exchange has left, whether it succeeded or not
  pub handle_register_crypto :
      lookup (claimed_id m) s.registry.allowed_tokens ≡ some (claimed_token m)
      → (claimed_key m == "") ≡ false
      → (handle_register p alive now identity m s).1.crypto
        ≡ (establish_session p (claimed_id m) (claimed_key m) s.crypto).1
  unfolding handle_register Registry.register Registry.update_state
  handle_register_crypto known key =
      ground (arith, (authenticate_iff (claimed_id m) (claimed_token m) s.registry).1 known)

  -- The registration of a node that authenticates and sends a key, but fails in the key exchange,
  -- raises: the node gets no answer, its record is CONNECTED, and it has no session.
  pub handle_register_bad_key :
      {e : Error}
      → lookup (claimed_id m) s.registry.allowed_tokens ≡ some (claimed_token m)
      → (claimed_key m == "") ≡ false
      → (establish_session p (claimed_id m) (claimed_key m) s.crypto).0 ≡ err e
      → let (r, s') = handle_register p alive now identity m s in
        (r ≡ err e)
        × (s'.sent ≡ s.sent)
        × (has_session (claimed_id m) s'.crypto ≡ false)
        × (node_state (Registry.get (claimed_id m) s'.registry) ≡ some NodeState.connected)
  unfolding handle_register Registry.register Registry.get Registry.registered has_session
  handle_register_bad_key known key fails =
      let id = claimed_id m in
      let node =
        Registry.registered id (or_default m.hostname "") (or_default m.ip "") identity now
          (lookup id s.registry.nodes) in
      ground (
        arith,
        eq_refl id,
        (authenticate_iff id (claimed_token m) s.registry).1 known,
        lookup-insert id id node s.registry.nodes,
        establish_session_failure p id (claimed_key m) s.crypto fails id,
      )
