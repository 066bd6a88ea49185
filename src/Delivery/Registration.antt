-- ===== src/Delivery/Registration.antt =====
-- The registration of a node, from node/connection.py through central_server/network/router.py and back.
use agentic_juggling.Prelude.{
  ℕ, String, Bool, true, false, ◌≡◌, refl, ◌∙◌, ap, some, [], ◌∷◌, ◌++◌, ◌==◌, is_some,
  if◌then◌else◌,
}
use agentic_juggling.Prelude.Int.{ℤ}
use agentic_juggling.Prelude.Dict.{lookup}
use agentic_juggling.Prelude.Outcome.{ok}
use agentic_juggling.Codec.Utf8.{text}
use agentic_juggling.Primitives.{Bytes, Primitives, Lawful}
use agentic_juggling.Registry
use agentic_juggling.Registry.{NodeState}
use agentic_juggling.Crypto.Handshake.{establish_session-derive_session_key}
use agentic_juggling.NodeCrypto.{pubkey_b64, derive_session_key}
use agentic_juggling.Server.{Server}
use agentic_juggling.Server.Wire.{Message, Payload, Raw, register_ok}
use agentic_juggling.Server.Wire.Text.{frame, msg_type}
use agentic_juggling.Server.Wire.Request.{payload_of, loads_payload}
use agentic_juggling.Server.Router
use agentic_juggling.Server.Router.{handle_register, was_running}
use agentic_juggling.Server.Router.Register.{
  node_state, handle_register_accepted, handle_register_crypto,
}
use agentic_juggling.Node.{Node}
use agentic_juggling.Node.Connection.{Reply, Registered, connect_and_register}
use agentic_juggling.Node.Connection.Answer.{
  register_fields, register_frame, loads_reply, loads_payload-register_frame, loads_reply-frame,
}

module _ (p : Primitives) (l : Lawful p) (agent : String) (alive : ℕ → Bool) where
  dispatch-handle_register :
      (now : ℤ) (identity raw : String) (m : Payload) (s : Server)
      → loads_payload raw ≡ Raw.object m
      → Router.dispatch p alive now loads_payload (identity ∷ "REGISTER" ∷ raw ∷ []) s
        ≡ handle_register p alive now identity m s
  unfolding Router.dispatch Router.dispatch_object
  dispatch-handle_register now identity raw m s h = rw (h, Router.dispatch) refl

  connect-derive :
      (key : String) (running : Bool) (k : Bytes) (n : Node)
      → derive_session_key p key n.crypto ≡ (ok tt, record n.crypto { session_key = some k })
      → connect_and_register p agent
          (some (record {
            msg_type = "REGISTER_OK";
            server_ecdh_pubkey = some key;
            was_running = some running;
          }))
          n
        ≡ (
          ok (Registered.pair true running),
          record n { crypto = record n.crypto { session_key = some k } },
        )
  unfolding connect_and_register
  connect-derive key running k n h = rw h refl

  -- A node joins over the wire. It has generated its key, and its token is the one configured for its id. The text of
  -- its REGISTER message makes the server answer it, and from the text of this answer the node takes that it is
  -- registered and whether it was running before. Both then have the same session key, the server knows the
  -- node under the identity from which it wrote, and its record is READY, but CONNECTED where it was running.
  pub register-connect_and_register :
      (node_id token hostname ip identity : String) (now : ℤ) (i : ℕ) (s : Server) (n : Node)
      → n.crypto.private_key ≡ p.generate i
      → (pubkey_b64 p n.crypto == "") ≡ false
      → lookup node_id s.registry.allowed_tokens ≡ some token
      → (raw : String) × (back : String) × (answer : Message) × (reply : Reply) × (k : Bytes)
        × (text (register_frame p node_id token hostname ip n.crypto) ≡ some raw)
        × (let (r, s') =
              Router.dispatch p alive now loads_payload (identity ∷ "REGISTER" ∷ raw ∷ []) s in
            let before = was_running (Registry.get node_id s.registry) in
            (r ≡ ok tt)
            × (s'.sent ≡ s.sent ++ record { identity = identity; message = answer } ∷ [])
            × (lookup node_id s'.crypto.sessions
                ≡ some (record { node_id = node_id; session_key = k }))
            × (Registry.identity_for node_id s'.registry ≡ some identity)
            × (node_state (Registry.get node_id s'.registry)
                ≡ some (if before then NodeState.connected else NodeState.ready))
            × (text (frame answer) ≡ some back)
            × (loads_reply (msg_type answer) back ≡ ok reply)
            × (connect_and_register p agent (some reply) n ≡ (
              ok (Registered.pair true before),
              record n { crypto = record n.crypto { session_key = some k } },
            )))
  unfolding msg_type payload_of
  register-connect_and_register node_id token hostname ip identity now i s n hp hk ht =
      let m = payload_of (register_fields p node_id token hostname ip n.crypto) in
      let (raw, written, loaded) =
        loads_payload-register_frame p node_id token hostname ip n.crypto in
      let (key, k, established, stored, derived) =
        establish_session-derive_session_key p l node_id i s.crypto n.crypto hp in
      let (done, sent, known, state) =
        handle_register_accepted p alive now identity m s ht hk established in
      let before = Registry.get node_id s.registry in
      let (back, answered, read) = loads_reply-frame (is_some before) (was_running before) key in
      (
        raw,
        back,
        register_ok (is_some before) (was_running before) key,
        record {
          msg_type = "REGISTER_OK";
          server_ecdh_pubkey = some key;
          was_running = some (was_running before);
        },
        k,
        written,
        rw (dispatch-handle_register now identity raw m s loaded) (
          done,
          sent,
          ap (λ c. lookup node_id c.sessions)
                (handle_register_crypto p alive now identity m s ht hk)
              ∙ stored,
          known,
          state,
          answered,
          read,
          connect-derive key (was_running before) k n derived,
        ),
      )
