-- ===== src/Crypto.antt =====
-- central_server/crypto/session.py: the server's sessions, match keys and prompt encryption. Each
-- draw of randomness advances the counter `draws`, so that no two draws are one call.
pub mod Handshake
pub mod Wrap
use agentic_juggling.Prelude.{
  ℕ, ◌+◌, String, Bool, Option, none, some, List, [], ◌∷◌, ◌++◌, if◌then◌else◌,
}
use agentic_juggling.Prelude.Int.{ℤ}
use agentic_juggling.Prelude.Dict.{Dict, lookup, insert, erase, has_key}
use agentic_juggling.Prelude.Outcome.{
  Error, Outcome, ok, err, or_raise, Exec, pure, raise, lift, gets, update, ◌>>=◌, ◌>>◌,
}
use agentic_juggling.Codec.Base64.{b64e, b64d}
use agentic_juggling.Codec.Utf8.{utf8}
use agentic_juggling.Primitives.{Bytes, Primitives}

pub record NodeSession : Type 0 where
  pub node_id : String
  pub session_key : Bytes

pub record CryptoManager : Type 0 where
  pub sessions : Dict NodeSession
  pub match_keys : Dict Bytes
  pub draws : ℕ

-- `CryptoManager()`
unfoldable pub new_crypto : CryptoManager
new_crypto = record { sessions = []; match_keys = []; draws = 0 }

-- an entry of the schedule as the operator wrote it, and as it is sent
pub record PlainEntry : Type 0 where
  pub delay : ℤ
  pub prompt : String

pub record SealedEntry : Type 0 where
  pub delay : ℤ
  pub encrypted_prompt : String

unfoldable pub has_session : String → CryptoManager → Bool
has_session node_id c = has_key node_id c.sessions

unfoldable pub revoke_match_key : String → CryptoManager → CryptoManager
revoke_match_key match_id c = record c { match_keys = erase match_id c.match_keys }

module _ (p : Primitives) where
  -- one draw of randomness
  abbrev pub draw : (ℕ → Bytes) → Exec CryptoManager Bytes
  draw source c = (ok (source c.draws), record c { draws = c.draws + 1 })

  -- The old session goes before the new key is looked at: a bad key leaves none.
  unfoldable pub establish_session : String → String → Exec CryptoManager String
  establish_session node_id node_pubkey_b64 = do
    update (λ c. record c { sessions = erase node_id c.sessions })
    raw ← lift (or_raise (b64d node_pubkey_b64) Error.decode_error)
    node_pubkey ← lift (or_raise (p.from_public_bytes raw) Error.invalid_key)
    server_private ← draw p.generate
    shared_secret ← lift (or_raise (p.exchange server_private node_pubkey) Error.invalid_key)
    update (λ c. record c {
      sessions =
          insert node_id (record { node_id = node_id; session_key = p.derive shared_secret })
            c.sessions;
    })
    pure (b64e (p.public_bytes server_private))

  unfoldable pub generate_match_key : String → Exec CryptoManager (Unit {0})
  generate_match_key match_id c =
      if has_key match_id c.match_keys
      then raise Error.value_error c
      else (do
        key ← draw (p.urandom 32)
        update (λ c'. record c' { match_keys = insert match_id key c'.match_keys }))
          c

  unfoldable pub encrypt_match_key_for_node : String → String → Exec CryptoManager String
  encrypt_match_key_for_node match_id node_id = do
    match_key ← (λ c. (or_raise (lookup match_id c.match_keys) Error.value_error, c))
    session ← (λ c. (or_raise (lookup node_id c.sessions) Error.value_error, c))
    nonce ← draw (p.urandom 12)
    pure (b64e (nonce ++ p.encrypt session.session_key nonce match_key none))

  unfoldable pub encrypt_prompt : String → String → Exec CryptoManager String
  encrypt_prompt match_id prompt = do
    match_key ← (λ c. (or_raise (lookup match_id c.match_keys) Error.value_error, c))
    nonce ← draw (p.urandom 12)
    pure (b64e (nonce ++ p.encrypt match_key nonce (utf8 prompt) (some (utf8 match_id))))

  unfoldable pub encrypt_schedule : String → List PlainEntry → Exec CryptoManager (List SealedEntry)
  encrypt_schedule match_id [] = pure []
  encrypt_schedule match_id (entry ∷ rest) =
      let others = encrypt_schedule match_id rest in
      do
        blob ← encrypt_prompt match_id entry.prompt
        tail ← others
        pure (record { delay = entry.delay; encrypted_prompt = blob } ∷ tail)
