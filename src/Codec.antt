-- ===== src/Codec.antt =====
-- `bytes` and characters, and the two codecs of central_server/crypto/session.py and node/crypto.py: base64 and UTF-8.
pub mod Base64
pub mod Utf8
use Prim.Native.Nat.{Ordering, compare}
use Prim.Native.Char.{Char, char, code, IsScalar}
use agentic_juggling.Prelude.{
  ℕ, ◌<◌, ◌⊎◌, inl, inr, ◌≡◌, refl, ap, Option, none, some, List, All, arith,
}

-- `bytes`
abbrev pub Bytes : Type 0
Bytes = List ℕ

abbrev pub IsBytes : Bytes → Type 0
IsBytes = All (λ b. b < 256)

abbrev Both : Ordering → Ordering → Type 0
Both Ordering.lt Ordering.lt = Unit
Both Ordering.lt _ = ⊥
Both Ordering.eq _ = ⊥
Both Ordering.gt _ = ⊥

abbrev map_some {ℓ κ} : {A : Type ℓ} {B : Type κ} → (A → B) → Option A → Option B
map_some f none = none
map_some f (some a) = some (f a)

-- the three comparisons of `IsScalar`
abbrev Scalar : Ordering → Ordering → Ordering → Type 0
Scalar Ordering.lt _ _ = Unit
Scalar Ordering.eq b c = Both b c
Scalar Ordering.gt b c = Both b c

abbrev decide_Both : (b c : Ordering) → Option (Both b c)
decide_Both Ordering.lt Ordering.lt = some tt
decide_Both _ _ = none

abbrev decide_scalar : (a b c : Ordering) → Option (Scalar a b c)
decide_scalar Ordering.lt b c = some tt
decide_scalar Ordering.eq b c = decide_Both b c
decide_scalar Ordering.gt b c = decide_Both b c

decide_Both_lem : (b c : Ordering) (q : Both b c) → decide_Both b c ≡ some q
decide_Both_lem Ordering.lt Ordering.lt q = refl
decide_Both_lem Ordering.lt Ordering.eq q = elim q [ ]
decide_Both_lem Ordering.lt Ordering.gt q = elim q [ ]
decide_Both_lem Ordering.eq c q = elim q [ ]
decide_Both_lem Ordering.gt c q = elim q [ ]

decide_scalar_lem : (a b c : Ordering) (q : Scalar a b c) → decide_scalar a b c ≡ some q
decide_scalar_lem Ordering.lt b c q = refl
decide_scalar_lem Ordering.eq b c q = decide_Both_lem b c q
decide_scalar_lem Ordering.gt b c q = decide_Both_lem b c q

-- `chr(n)`, of a Unicode scalar value
unfoldable pub to_char : ℕ → Option Char
to_char n =
    map_some (λ (q : IsScalar n). char n q)
      (decide_scalar (compare n 55296) (compare 57343 n) (compare n 1114112))

pub to_char-code : (c : Char) → to_char (code c) ≡ some c
unfolding to_char
to_char-code (char n q) =
    ap (map_some (λ (s : IsScalar n). char n s))
      (decide_scalar_lem (compare n 55296) (compare 57343 n) (compare n 1114112) q)

below : (n : ℕ) → n < 55296 → compare n 55296 ≡ Ordering.lt
below n h = ground arith

decided_lt :
    (a b c : Ordering) → a ≡ Ordering.lt → (q : Scalar a b c) × (decide_scalar a b c ≡ some q)
decided_lt Ordering.lt b c h = (tt, refl)
decided_lt Ordering.eq b c h = absurd (cc)
decided_lt Ordering.gt b c h = absurd (cc)

-- every number below the surrogates is a character
pub to_char-lt : (n : ℕ) → n < 55296 → (c : Char) × (to_char n ≡ some c) × (code c ≡ n)
unfolding to_char
to_char-lt n h =
    let (q, e) = decided_lt (compare n 55296) (compare 57343 n) (compare n 1114112) (below n h) in
    (char n q, ap (map_some (λ (s : IsScalar n). char n s)) e, refl)

-- a Unicode scalar value
scalar_cases :
    (n : ℕ) (a b c : Ordering)
    → compare n 55296 ≡ a
    → compare 57343 n ≡ b
    → compare n 1114112 ≡ c
    → Scalar a b c
    → (n < 55296) ⊎ ((57343 < n) × (n < 1114112))
scalar_cases n Ordering.lt b c h k l q = inl (ground arith)
scalar_cases n Ordering.eq Ordering.lt Ordering.lt h k l q = inr (ground arith, ground arith)
scalar_cases n Ordering.eq Ordering.lt Ordering.eq h k l q = elim q [ ]
scalar_cases n Ordering.eq Ordering.lt Ordering.gt h k l q = elim q [ ]
scalar_cases n Ordering.eq Ordering.eq c h k l q = elim q [ ]
scalar_cases n Ordering.eq Ordering.gt c h k l q = elim q [ ]
scalar_cases n Ordering.gt Ordering.lt Ordering.lt h k l q = inr (ground arith, ground arith)
scalar_cases n Ordering.gt Ordering.lt Ordering.eq h k l q = elim q [ ]
scalar_cases n Ordering.gt Ordering.lt Ordering.gt h k l q = elim q [ ]
scalar_cases n Ordering.gt Ordering.eq c h k l q = elim q [ ]
scalar_cases n Ordering.gt Ordering.gt c h k l q = elim q [ ]

pub code_scalar : (c : Char) → (code c < 55296) ⊎ ((57343 < code c) × (code c < 1114112))
code_scalar (char n q) =
    scalar_cases n (compare n 55296) (compare 57343 n) (compare n 1114112) refl refl refl q

pub code-lt : (c : Char) → code c < 1114112
code-lt c = elim (code_scalar c) [ inl h ↦ omega arith | inr h ↦ h.1 ]
