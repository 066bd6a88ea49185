-- ===== src/Json/Text.antt =====
-- Strings in JSON texts, as Python's `json` writes and reads them: code points on both sides, the text in ASCII.
pub mod Ascii
use agentic_juggling.Prelude.{
  ℕ, ◌+◌, ◌-◌, ◌*◌, ◌/◌, ◌%◌, Bool, ◌&&◌, Option, none, some, List, [], ◌∷◌, ◌++◌, nat_eq, ltb, leb,
  if◌then◌else◌,
}

-- a digit of `'{0:04x}'`
abbrev pub hex_digit : ℕ → ℕ
hex_digit d = if ltb d 10 then 48 + d else 87 + d

-- `\u` and four digits
abbrev pub unicode_escape : ℕ → List ℕ
unicode_escape v =
    92
    ∷ 117
    ∷ hex_digit (v / 4_096)
    ∷ hex_digit (v / 256 % 16)
    ∷ hex_digit (v / 16 % 16)
    ∷ hex_digit (v % 16)
    ∷ []

-- the letter of a short escape
abbrev pub short : ℕ → Option ℕ
short c =
    if nat_eq c 34
    then some 34
    else if nat_eq c 92
    then some 92
    else if nat_eq c 10
    then some 110
    else if nat_eq c 13
    then some 114
    else if nat_eq c 9
    then some 116
    else if nat_eq c 12
    then some 102
    else if nat_eq c 8
    then some 98
    else none

abbrev pub high_of : ℕ → ℕ
high_of c = 55_296 + (c - 65_536) / 1_024

abbrev pub low_of : ℕ → ℕ
low_of c = 56_320 + (c - 65_536) % 1_024

-- a character that has no short escape: as it is, or by its number, beyond U+FFFF by two surrogates
abbrev pub long : ℕ → List ℕ
long c =
    if leb 32 c && leb c 126
    then c ∷ []
    else if ltb c 65_536
    then unicode_escape c
    else unicode_escape (high_of c) ++ unicode_escape (low_of c)

abbrev pub escape_by : Option ℕ → ℕ → List ℕ
escape_by none c = long c
escape_by (some letter) c = 92 ∷ letter ∷ []

unfoldable pub escape : ℕ → List ℕ
escape c = escape_by (short c) c

-- `json.dumps` of a string, without its quotes
unfoldable pub escape_all : List ℕ → List ℕ
escape_all [] = []
escape_all (c ∷ cs) = escape c ++ escape_all cs

-- Where the reader is in a string: among its characters, behind a backslash, in the digits of a `\u` (how many are to
-- come, the number so far), or behind a high surrogate. The surrogate that waits for its partner goes along.
pub data Mode : Type 0 where
  text : Mode
  backslash : Option ℕ → Mode
  hex : Option ℕ → ℕ → ℕ → Mode
  high : ℕ → Mode

-- what one character does: characters come out, the string ends, or it is an error
pub data Step : Type 0 where
  goes : List ℕ → Mode → Step
  closes : List ℕ → Step
  fails : Step

abbrev pub waiting : Option ℕ → List ℕ
waiting none = []
waiting (some h) = h ∷ []

abbrev pub is_high : ℕ → Bool
is_high v = leb 55_296 v && leb v 56_319

abbrev pub is_low : ℕ → Bool
is_low v = leb 56_320 v && leb v 57_343

abbrev pub join : ℕ → ℕ → ℕ
join h l = 65_536 + ((h - 55_296) * 1_024 + (l - 56_320))

-- the number of a `\u` is complete
abbrev pub numbered : Option ℕ → ℕ → Step
numbered none v = if is_high v then Step.goes [] (Mode.high v) else Step.goes (v ∷ []) Mode.text
numbered (some h) v =
    if is_low v
    then Step.goes (join h v ∷ []) Mode.text
    else if is_high v
    then Step.goes (h ∷ []) (Mode.high v)
    else Step.goes (h ∷ v ∷ []) Mode.text

abbrev pub hex_value : ℕ → Option ℕ
hex_value c =
    if leb 48 c && leb c 57
    then some (c - 48)
    else if leb 97 c && leb c 102
    then some (c - 87)
    else if leb 65 c && leb c 70
    then some (c - 55)
    else none

-- the character of a short escape
abbrev pub short_of : ℕ → Option ℕ
short_of c =
    if nat_eq c 34
    then some 34
    else if nat_eq c 92
    then some 92
    else if nat_eq c 47
    then some 47
    else if nat_eq c 98
    then some 8
    else if nat_eq c 102
    then some 12
    else if nat_eq c 110
    then some 10
    else if nat_eq c 114
    then some 13
    else if nat_eq c 116
    then some 9
    else none

-- a control character is an error
abbrev pub in_text : Option ℕ → ℕ → Step
in_text h c =
    if nat_eq c 34
    then Step.closes (waiting h)
    else if nat_eq c 92
    then Step.goes [] (Mode.backslash h)
    else if ltb c 32
    then Step.fails
    else Step.goes (waiting h ++ c ∷ []) Mode.text

abbrev pub escaped : Option ℕ → Option ℕ → Step
escaped h none = Step.fails
escaped h (some d) = Step.goes (waiting h ++ d ∷ []) Mode.text

abbrev pub digit : Option ℕ → ℕ → ℕ → Option ℕ → Step
digit h more v none = Step.fails
digit h more v (some d) =
    if nat_eq more 1
    then numbered h (16 * v + d)
    else Step.goes [] (Mode.hex h (more - 1) (16 * v + d))

unfoldable pub step : Mode → ℕ → Step
step Mode.text c = in_text none c
step (Mode.high h) c = in_text (some h) c
step (Mode.backslash h) c =
    if nat_eq c 117 then Step.goes [] (Mode.hex h 4 0) else escaped h (short_of c)
step (Mode.hex h more v) c = digit h more v (hex_value c)

abbrev pub emit : List ℕ → Option (List ℕ × List ℕ) → Option (List ℕ × List ℕ)
emit out none = none
emit out (some (cs, rest)) = some (out ++ cs, rest)

-- the string up to its closing quote, and what follows it
unfoldable pub scan : Mode → List ℕ → Option (List ℕ × List ℕ)
unfolding step
scan m [] = none
scan m (c ∷ cs) = elim (step m c) [
  | Step.goes out m' ↦ emit out (scan m' cs)
  | Step.closes out ↦ some (out, cs)
  | Step.fails ↦ none
]
