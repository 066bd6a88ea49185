-- ===== src/Codec/Utf8.antt =====
-- `str.encode()` and `bytes.decode()`, strict UTF-8.
pub mod RoundTrip
use Prim.Native.Char.{Char, code}
use agentic_juggling.Prelude.{
  ℕ, ◌+◌, ◌-◌, ◌*◌, ◌/◌, ◌%◌, Bool, ◌&&◌, Option, none, some, List, [], ◌∷◌, ◌++◌, String, ltb, leb,
  nat_eq, if◌then◌else◌,
}
use agentic_juggling.Codec.{Bytes, to_char}

-- the bytes of a code point
unfoldable pub encoded : ℕ → Bytes
encoded n =
    if ltb n 128
    then n ∷ []
    else if ltb n 2_048
    then (192 + n / 64) ∷ (128 + n % 64) ∷ []
    else if ltb n 65_536
    then (224 + n / 4_096) ∷ (128 + n / 64 % 64) ∷ (128 + n % 64) ∷ []
    else (240 + n / 262_144) ∷ (128 + n / 4_096 % 64) ∷ (128 + n / 64 % 64) ∷ (128 + n % 64) ∷ []

unfoldable pub utf8 : String → Bytes
unfolding encoded
utf8 String.[] = []
utf8 (String.◌∷◌ c s) = encoded (code c) ++ utf8 s

-- between two characters, or within one: how many bytes are to come, the least number that needs so many, the number so far
pub data Mode : Type 0 where
  between : Mode
  within : ℕ → ℕ → ℕ → Mode

pub data Step : Type 0 where
  goes : Mode → Step
  emits : ℕ → Step
  fails : Step

-- the first byte of a character
abbrev lead : ℕ → Step
lead b =
    if ltb b 128
    then Step.emits b
    else if ltb b 192
    then Step.fails
    else if ltb b 224
    then Step.goes (Mode.within 1 128 (b - 192))
    else if ltb b 240
    then Step.goes (Mode.within 2 2_048 (b - 224))
    else if ltb b 248
    then Step.goes (Mode.within 3 65_536 (b - 240))
    else Step.fails

-- an overlong form is an error
abbrev complete : ℕ → ℕ → Step
complete least n = if leb least n then Step.emits n else Step.fails

unfoldable pub step : Mode → ℕ → Step
step Mode.between b = lead b
step (Mode.within more least acc) b =
    let n = 64 * acc + (b - 128) in
    if leb 128 b && ltb b 192
    then (if nat_eq more 1 then complete least n else Step.goes (Mode.within (more - 1) least n))
    else Step.fails

-- a number that is no scalar value is an error
abbrev pub cons_char : Option Char → Option String → Option String
cons_char (some c) (some s) = some (String.◌∷◌ c s)
cons_char (some c) none = none
cons_char none o = none

abbrev finish : Mode → Option String
finish Mode.between = some String.[]
finish (Mode.within more least acc) = none

unfoldable pub decode : Mode → Bytes → Option String
unfolding step to_char
decode m [] = finish m
decode m (b ∷ bs) = elim (step m b) [
  | Step.goes m' ↦ decode m' bs
  | Step.emits n ↦ cons_char (to_char n) (decode Mode.between bs)
  | Step.fails ↦ none
]

-- `none`: a UnicodeDecodeError
unfoldable pub text : Bytes → Option String
unfolding decode
text bs = decode Mode.between bs
