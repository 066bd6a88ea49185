-- ===== src/NodeCrypto.antt =====
-- node/crypto.py: the node's side of the key exchange, of the match key and of the prompts.
use agentic_juggling.Prelude.{ℕ, String, Option, none, some, [], take, drop}
use agentic_juggling.Prelude.Dict.{Dict, lookup, insert, erase}
use agentic_juggling.Prelude.Outcome.{Error, or_raise, Exec, lift, gets, update, ◌>>=◌}
use agentic_juggling.Codec.Base64.{b64e, b64d}
use agentic_juggling.Codec.Utf8.{utf8, text}
use agentic_juggling.Primitives.{Bytes, Primitives}

pub record NodeCrypto : Type 0 where
  pub private_key : Bytes
  pub session_key : Option Bytes
  pub match_keys : Dict Bytes

unfoldable pub revoke_match_key : String → NodeCrypto → NodeCrypto
revoke_match_key match_id n = record n { match_keys = erase match_id n.match_keys }

module _ (p : Primitives) where
  -- `NodeCrypto()`, whose private key is the i-th that is generated
  unfoldable pub new_node_crypto : ℕ → NodeCrypto
  new_node_crypto i = record { private_key = p.generate i; session_key = none; match_keys = [] }

  unfoldable pub pubkey_b64 : NodeCrypto → String
  pubkey_b64 n = b64e (p.public_bytes n.private_key)

  unfoldable pub derive_session_key : String → Exec NodeCrypto (Unit {0})
  derive_session_key server_pubkey_b64 = do
    raw ← lift (or_raise (b64d server_pubkey_b64) Error.decode_error)
    server_pubkey ← lift (or_raise (p.from_public_bytes raw) Error.invalid_key)
    private ← gets (λ n. n.private_key)
    shared_secret ← lift (or_raise (p.exchange private server_pubkey) Error.invalid_key)
    update (λ n. record n { session_key = some (p.derive shared_secret) })

  -- `AESGCM(None)` raises a TypeError.
  unfoldable pub unwrap_match_key : String → String → Exec NodeCrypto (Unit {0})
  unwrap_match_key match_id encrypted_match_key_b64 = do
    blob ← lift (or_raise (b64d encrypted_match_key_b64) Error.decode_error)
    key ← (λ n. (or_raise n.session_key Error.type_error, n))
    match_key ← lift (or_raise (p.decrypt key (take 12 blob) (drop 12 blob) none) Error.invalid_tag)
    update (λ n. record n { match_keys = insert match_id match_key n.match_keys })

  unfoldable pub decrypt_prompt : String → String → Exec NodeCrypto String
  decrypt_prompt match_id encrypted_prompt_b64 = do
    match_key ← (λ n. (or_raise (lookup match_id n.match_keys) Error.value_error, n))
    blob ← lift (or_raise (b64d encrypted_prompt_b64) Error.decode_error)
    plain ← lift (
        or_raise (p.decrypt match_key (take 12 blob) (drop 12 blob) (some (utf8 match_id)))
          Error.invalid_tag)
    lift (or_raise (text plain) Error.decode_error)
