-- ===== src/Codec/Base64.antt =====
-- `_b64e` and `_b64d` of central_server/crypto/session.py and node/crypto.py: base64 as Python's `base64` and `binascii` have
-- it, not strict.
pub mod RoundTrip
use Prim.Native.Char.{Char, code}
use Prim.Native.Nat.{◌*◌}
use agentic_juggling.Prelude.{
  ℕ, ◌+◌, ◌-◌, ◌/◌, ◌%◌, Bool, ◌&&◌, Option, none, some, List, [], ◌∷◌, String, ltb, leb, nat_eq,
  if◌then◌else◌, or_default, all_of,
}
use agentic_juggling.Prelude.Unicode.{codes}
use agentic_juggling.Codec.{Bytes, to_char}

-- the alphabet: `A` to `Z`, `a` to `z`, the digits, `+` and `/`
abbrev symbol_code : ℕ → ℕ
symbol_code v =
    if ltb v 26
    then 65 + v
    else if ltb v 52
    then 71 + v
    else if ltb v 62
    then v - 4
    else if nat_eq v 62
    then 43
    else 47

unfoldable pub symbol : ℕ → Char
unfolding to_char
symbol v = or_default (to_char (symbol_code v)) "A"

-- the six bits of a character of the alphabet
unfoldable pub value : ℕ → Option ℕ
value c =
    if leb 65 c && leb c 90
    then some (c - 65)
    else if leb 97 c && leb c 122
    then some (c - 71)
    else if leb 48 c && leb c 57
    then some (c + 4)
    else if nat_eq c 43
    then some 62
    else if nat_eq c 47
    then some 63
    else none

-- three bytes make four characters; the last ones are padded
unfoldable pub b64e : Bytes → String
unfolding symbol
b64e [] = String.[]
b64e (a ∷ []) =
    String.◌∷◌ (symbol (a / 4))
      (String.◌∷◌ (symbol (a % 4 * 16)) (String.◌∷◌ "=" (String.◌∷◌ "=" String.[])))
b64e (a ∷ b ∷ []) = String.◌∷◌ (symbol (a / 4)) (
    String.◌∷◌ (symbol (a % 4 * 16 + b / 16))
      (String.◌∷◌ (symbol (b % 16 * 4)) (String.◌∷◌ "=" String.[])))
b64e (a ∷ b ∷ c ∷ rest) = String.◌∷◌ (symbol (a / 4)) (
    String.◌∷◌ (symbol (a % 4 * 16 + b / 16))
      (String.◌∷◌ (symbol (b % 16 * 4 + c / 64)) (String.◌∷◌ (symbol (c % 64)) (b64e rest))))

-- how far the reader is in a group of four, with the bits that it has not put out, and whether a `=` has come
pub data Quad : Type 0 where
  start : Quad
  one : ℕ → Quad
  two : ℕ → Quad
  padded : ℕ → Quad
  three : ℕ → Quad

pub data Step : Type 0 where
  goes : Bytes → Quad → Step
  stops : Step

-- a character that is not in the alphabet is passed over
abbrev pub take_value : Quad → Option ℕ → Step
take_value q none = Step.goes [] q
take_value Quad.start (some v) = Step.goes [] (Quad.one v)
take_value (Quad.one x) (some v) = Step.goes ((x * 4 + v / 16) ∷ []) (Quad.two (v % 16))
take_value (Quad.two x) (some v) = Step.goes ((x * 16 + v / 4) ∷ []) (Quad.three (v % 4))
take_value (Quad.padded x) (some v) = Step.goes ((x * 16 + v / 4) ∷ []) (Quad.three (v % 4))
take_value (Quad.three x) (some v) = Step.goes ((x * 64 + v) ∷ []) Quad.start

-- `=`: what follows a full padding is not read
abbrev pub pad : Quad → Step
pad Quad.start = Step.goes [] Quad.start
pad (Quad.one x) = Step.goes [] (Quad.one x)
pad (Quad.two x) = Step.goes [] (Quad.padded x)
pad (Quad.padded x) = Step.stops
pad (Quad.three x) = Step.stops

unfoldable pub step : Quad → ℕ → Step
unfolding value
step q c = if nat_eq c 61 then pad q else take_value q (value c)

abbrev pub put_out : Bytes → Option Bytes → Option Bytes
put_out [] o = o
put_out (b ∷ bs) none = none
put_out (b ∷ bs) (some rest) = some (b ∷ rest)

-- a group that is not whole at the end is an error
abbrev finish : Quad → Option Bytes
finish Quad.start = some []
finish _ = none

unfoldable pub decode : Quad → List ℕ → Option Bytes
unfolding step
decode q [] = finish q
decode q (c ∷ cs) = elim (step q c) [
  | Step.goes out q' ↦ put_out out (decode q' cs)
  | Step.stops ↦ some []
]

-- a text that is not ASCII is an error; `none`: it raises
unfoldable pub b64d : String → Option Bytes
unfolding decode
b64d s = let cs = codes s in if all_of (λ c. ltb c 128) cs then decode Quad.start cs else none
