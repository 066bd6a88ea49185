-- ===== src/Crypto/Wrap.antt =====
-- Match keys and prompts, sealed by central_server/crypto/session.py and opened by node/crypto.py.
use agentic_juggling.Prelude.{
  ℕ, ◌+◌, String, ◌≡◌, ◌≢◌, refl, ap, Option, All-append, none, some, List, [], ◌∷◌, ◌++◌, arith,
  length, take, drop, take-append, drop-append,
}
use agentic_juggling.Prelude.Dict.{lookup, insert}
use agentic_juggling.Prelude.Outcome.{Error, Outcome, ok, err}
use agentic_juggling.Codec.Base64.{b64e, b64d}
use agentic_juggling.Codec.Base64.RoundTrip.{b64d-b64e}
use agentic_juggling.Codec.Utf8.RoundTrip.{text-utf8}
use agentic_juggling.Codec.Utf8.{utf8}
use agentic_juggling.Primitives.{Bytes, Primitives, Lawful, Authenticates}
use agentic_juggling.Crypto.{
  NodeSession, CryptoManager, PlainEntry, SealedEntry, encrypt_match_key_for_node, encrypt_prompt,
  encrypt_schedule,
}
use agentic_juggling.NodeCrypto.{NodeCrypto, unwrap_match_key, decrypt_prompt}

module _ (p : Primitives) where
  -- Each entry keeps its delay and decrypts to its prompt.
  abbrev pub Opens : String → NodeCrypto → List PlainEntry → List SealedEntry → Type 0
  Opens match_id n [] [] = Unit
  Opens match_id n [] (_ ∷ _) = ⊥
  Opens match_id n (_ ∷ _) [] = ⊥
  Opens match_id n (e ∷ es) (s ∷ ss) =
      (s.delay ≡ e.delay)
      × ((decrypt_prompt p match_id s.encrypted_prompt n).0 ≡ ok e.prompt)
      × Opens match_id n es ss

module _ (p : Primitives) (l : Lawful p) where
  -- The blob cut at twelve bytes gives back the nonce and the ciphertext.
  cut_nonce : (i : ℕ) (ct : Bytes) → take 12 (p.urandom 12 i ++ ct) ≡ p.urandom 12 i
  cut_nonce i ct = take-append 12 (p.urandom 12 i) ct (l.urandom_length 12 i)

  cut_text : (i : ℕ) (ct : Bytes) → drop 12 (p.urandom 12 i ++ ct) ≡ ct
  cut_text i ct = drop-append 12 (p.urandom 12 i) ct (l.urandom_length 12 i)

  -- A blob is made of bytes, so base64 keeps it.
  b64d-blob :
      (i : ℕ) (k n m : Bytes) (aad : Option Bytes)
      → b64d (b64e (p.urandom 12 i ++ p.encrypt k n m aad))
        ≡ some (p.urandom 12 i ++ p.encrypt k n m aad)
  b64d-blob i k n m aad =
      b64d-b64e _
        (All-append _ (p.urandom 12 i) _ (l.urandom-IsBytes 12 i) (l.encrypt-IsBytes k n m aad))

  -- A node that shares the session key unwraps exactly the match key that the server wrapped.
  pub encrypt_match_key-unwrap :
      (match_id node_id : String) (c : CryptoManager) (n : NodeCrypto) {key : Bytes}
      {s : NodeSession}
      → lookup match_id c.match_keys ≡ some key
      → lookup node_id c.sessions ≡ some s
      → n.session_key ≡ some s.session_key
      → (blob : String) × ((encrypt_match_key_for_node p match_id node_id c).0 ≡ ok blob)
        × (unwrap_match_key p match_id blob n
            ≡ (ok tt, record n { match_keys = insert match_id key n.match_keys }))
  unfolding encrypt_match_key_for_node unwrap_match_key
  encrypt_match_key-unwrap match_id node_id c n {key} {s} hk hs hn =
      let nonce = p.urandom 12 c.draws in
      (
        b64e (nonce ++ p.encrypt s.session_key nonce key none),
        rw (hk, hs) refl,
        rw (b64d-blob, hn, cut_nonce, cut_text, l.decrypt-encrypt) refl,
      )

  -- A node that holds the match key decrypts a prompt to what the operator wrote.
  encrypt_prompt-decrypt_prompt :
      (match_id prompt : String) (c : CryptoManager) (n : NodeCrypto) {key : Bytes}
      → lookup match_id c.match_keys ≡ some key
      → lookup match_id n.match_keys ≡ some key
      → (blob : String) × (encrypt_prompt p match_id prompt c
          ≡ (ok blob, record c { draws = c.draws + 1 }))
        × (decrypt_prompt p match_id blob n ≡ (ok prompt, n))
  unfolding encrypt_prompt decrypt_prompt
  encrypt_prompt-decrypt_prompt match_id prompt c n {key} hc hn =
      let nonce = p.urandom 12 c.draws in
      (
        b64e (nonce ++ p.encrypt key nonce (utf8 prompt) (some (utf8 match_id))),
        rw hc refl,
        rw (hn, b64d-blob, cut_nonce, cut_text, l.decrypt-encrypt, text-utf8) refl,
      )

  -- With lawful primitives that authenticate the associated data, the ciphertext of a prompt of one
  -- match does not open under the id of another, even on a node that has the same key for both.
  pub encrypt_prompt_replay :
      (a b prompt : String) (c : CryptoManager) (n : NodeCrypto) {key : Bytes}
      → Authenticates p
      → a ≢ b
      → lookup a c.match_keys ≡ some key
      → lookup b n.match_keys ≡ some key
      → (blob : String) × ((encrypt_prompt p a prompt c).0 ≡ ok blob)
        × (decrypt_prompt p b blob n ≡ (err Error.invalid_tag, n))
  unfolding encrypt_prompt decrypt_prompt
  encrypt_prompt_replay a b prompt c n {key} auth ne hc hn =
      let nonce = p.urandom 12 c.draws in
      (
        b64e (nonce ++ p.encrypt key nonce (utf8 prompt) (some (utf8 a))),
        rw hc refl,
        rw (hn, b64d-blob, cut_nonce, cut_text, auth key nonce (utf8 prompt) a b ne) refl,
      )

  -- The whole schedule: as many entries, in order, with one draw of randomness for each.
  pub encrypt_schedule-Opens :
      (match_id : String) (es : List PlainEntry) (c : CryptoManager) (n : NodeCrypto) {key : Bytes}
      → lookup match_id c.match_keys ≡ some key
      → lookup match_id n.match_keys ≡ some key
      → (ss : List SealedEntry) × (encrypt_schedule p match_id es c
          ≡ (ok ss, record c { draws = c.draws + length es }))
        × Opens p match_id n es ss
  unfolding encrypt_schedule
  encrypt_schedule-Opens match_id [] c n hc hn = ([], ground arith, tt)
  encrypt_schedule-Opens match_id (e ∷ es) c n hc hn =
      let (blob, sealed, opened) = encrypt_prompt-decrypt_prompt match_id e.prompt c n hc hn in
      let (ss, rest, opens) =
        encrypt_schedule-Opens match_id es (record c { draws = c.draws + 1 }) n hc hn in
      (
        record { delay = e.delay; encrypted_prompt = blob } ∷ ss,
        rw (sealed, rest) (ground arith),
        (refl, ap (λ (t : Outcome String × NodeCrypto). t.0) opened, opens),
      )
