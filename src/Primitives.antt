-- ===== src/Primitives.antt =====
-- What central_server/crypto/session.py and node/crypto.py call and do not implement: the package
-- `cryptography` (X25519, HKDF, AES-GCM) and the operating system's random bytes; and the binary arithmetic of
-- Python's floats, where it decides. The operations are an
-- argument of the model, the documented behaviour that the code relies on is `Lawful`.
pub mod Toy
use agentic_juggling.Prelude.{ℕ, ◌≡◌, ◌≢◌, String, Option, none, some, length}
use agentic_juggling.Metrics.Scoring.{Ties}
use agentic_juggling.Codec.{IsBytes}
use agentic_juggling.Codec.Utf8.{utf8}
pub use agentic_juggling.Codec.{Bytes}

pub record Primitives : Type 0 where
  -- `os.urandom(n)`, at its i-th call
  pub urandom : ℕ → ℕ → Bytes
  -- `X25519PrivateKey.generate()`, at its i-th call, `.public_key().public_bytes(Raw, Raw)`,
  -- `X25519PublicKey.from_public_bytes` (`none`: it raises), `.exchange`
  pub generate : ℕ → Bytes
  pub public_bytes : Bytes → Bytes
  pub from_public_bytes : Bytes → Option Bytes
  pub exchange : Bytes → Bytes → Option Bytes
  -- `HKDF(SHA256, 32, None, b"agentic-juggling-session-v1").derive`
  pub derive : Bytes → Bytes
  -- the binary side of the floats in central_server/metrics/scoring.py, where it matters
  pub ties : Ties
  -- `AESGCM(key).encrypt(nonce, text, aad)` and `.decrypt` (`none`: InvalidTag)
  pub encrypt : Bytes → Bytes → Bytes → Option Bytes → Bytes
  pub decrypt : Bytes → Bytes → Bytes → Option Bytes → Option Bytes

-- Documented behaviour: what is random, a public key or a ciphertext is made of bytes; an AES-GCM ciphertext
-- opens under its own key, nonce and associated data; both ends of an X25519 exchange between generated keys get
-- one secret.
pub record Lawful (p : Primitives) : Type 0 where
  pub urandom_length : (n i : ℕ) → length (p.urandom n i) ≡ n
  pub urandom-IsBytes : (n i : ℕ) → IsBytes (p.urandom n i)
  pub public_bytes-IsBytes : (k : Bytes) → IsBytes (p.public_bytes k)
  pub encrypt-IsBytes : (k n m : Bytes) (aad : Option Bytes) → IsBytes (p.encrypt k n m aad)
  pub decrypt-encrypt :
      (k n m : Bytes) (aad : Option Bytes) → p.decrypt k n (p.encrypt k n m aad) aad ≡ some m
  pub from_public_bytes_lem :
      (i : ℕ)
      → p.from_public_bytes (p.public_bytes (p.generate i)) ≡ some (p.public_bytes (p.generate i))
  pub secret : ℕ → ℕ → Bytes
  pub exchange_left :
      (i j : ℕ) → p.exchange (p.generate i) (p.public_bytes (p.generate j)) ≡ some (secret i j)
  pub exchange_right :
      (i j : ℕ) → p.exchange (p.generate j) (p.public_bytes (p.generate i)) ≡ some (secret i j)

-- AES-GCM authenticates the associated data: under any other it does not open.
abbrev pub Authenticates : Primitives → Type 0
Authenticates p =
    (k n m : Bytes) (a b : String)
    → a ≢ b
    → p.decrypt k n (p.encrypt k n m (some (utf8 a))) (some (utf8 b)) ≡ none
