-- ===== src/Crypto/Handshake.antt =====
-- The registration handshake of central_server/crypto/session.py and node/crypto.py.
use agentic_juggling.Prelude.{ℕ, String, ◌≡◌, refl, none, some, arith, ◌==◌, eq_refl, if◌then◌else◌}
use agentic_juggling.Prelude.Dict.{lookup, lookup-erase, dict_laws}
use agentic_juggling.Prelude.Outcome.{Error, ok, err}
use agentic_juggling.Codec.Base64.{b64e, b64d}
use agentic_juggling.Codec.Base64.RoundTrip.{b64d-b64e}
use agentic_juggling.Primitives.{Bytes, Primitives, Lawful}
use agentic_juggling.Crypto.{CryptoManager, establish_session}
use agentic_juggling.NodeCrypto.{NodeCrypto, pubkey_b64, derive_session_key}

module _ (p : Primitives) (l : Lawful p) where
  b64d-public : (k : Bytes) → b64d (b64e (p.public_bytes k)) ≡ some (p.public_bytes k)
  b64d-public k = b64d-b64e (p.public_bytes k) (l.public_bytes-IsBytes k)

  -- With lawful primitives, when a node with a generated key registers, the server's reply lets the
  -- node derive the very session key that the server has stored under the node's id.
  pub establish_session-derive_session_key :
      (node_id : String) (i : ℕ) (c : CryptoManager) (n : NodeCrypto)
      → n.private_key ≡ p.generate i
      → (reply : String) × (k : Bytes) × ((establish_session p node_id (pubkey_b64 p n) c).0
          ≡ ok reply)
        × (lookup node_id (establish_session p node_id (pubkey_b64 p n) c).1.sessions
            ≡ some (record { node_id = node_id; session_key = k }))
        × (derive_session_key p reply n ≡ (ok tt, record n { session_key = some k }))
  unfolding establish_session pubkey_b64 derive_session_key
  establish_session-derive_session_key node_id i c n h = (
    b64e (p.public_bytes (p.generate c.draws)),
    p.derive (l.secret i c.draws),
    rw (h, b64d-public, l.from_public_bytes_lem, l.exchange_right) refl,
    rw (h, b64d-public, l.from_public_bytes_lem, l.exchange_right) (simp (dict_laws, eq_refl)),
    rw (b64d-public, l.from_public_bytes_lem, h, l.exchange_left) refl,
  )

module _ (p : Primitives) where
  -- A key exchange that raises takes the session that the node had with it; the other nodes keep
  -- theirs.
  pub establish_session_failure :
      (node_id pubkey : String) (c : CryptoManager) {e : Error}
      → (establish_session p node_id pubkey c).0 ≡ err e
      → (j : String)
      → lookup j (establish_session p node_id pubkey c).1.sessions
        ≡ (if node_id == j then none else lookup j c.sessions)
  unfolding establish_session
  establish_session_failure node_id pubkey c h j = ground (arith, lookup-erase node_id j c.sessions)
