-- ===== src/Prelude/Unicode.antt =====
-- Texts as lists of code points, the classes of characters that Python's `re` and `int` know (the database
-- of Unicode 14.0), and `int` on a text.
use Prim.Native.Char.{code}
use agentic_juggling.Prelude.{
  ℕ, ◌+◌, ◌-◌, ◌*◌, Bool, true, false, not, ◌||◌, ◌&&◌, Option, none, some, List, [], ◌∷◌, ◌++◌,
  String, length, keep, nat_eq, ltb, leb, if◌then◌else◌,
}
use agentic_juggling.Prelude.Int.{ℤ, pos, sub_ℕ}
use agentic_juggling.Prelude.Outcome.{Error, Outcome, or_raise}

abbrev pub codes : String → List ℕ
codes String.[] = []
codes (String.◌∷◌ c s) = code c ∷ codes s

abbrev pub member : ℕ → List ℕ → Bool
member c [] = false
member c (d ∷ ds) = nat_eq c d || member c ds

-- `\s`, and what `str.strip` takes away
abbrev pub is_space : ℕ → Bool
is_space c =
    leb 9 c && leb c 13
    || leb 28 c && leb c 32
    || leb 8192 c && leb c 8202
    || member c (133 ∷ 160 ∷ 5760 ∷ 8232 ∷ 8233 ∷ 8239 ∷ 8287 ∷ 12288 ∷ [])

-- the zero of each run of ten decimal digits
abbrev zeros : List ℕ
zeros =
    48 ∷ 1632 ∷ 1776 ∷ 1984 ∷ 2406 ∷ 2534 ∷ 2662 ∷ 2790 ∷ 2918 ∷ 3046 ∷ 3174 ∷ 3302 ∷ 3430 ∷ 3558
    ∷ 3664 ∷ 3792 ∷ 3872 ∷ 4160 ∷ 4240 ∷ 6112 ∷ 6160 ∷ 6470 ∷ 6608 ∷ 6784 ∷ 6800 ∷ 6992 ∷ 7088
    ∷ 7232 ∷ 7248 ∷ 42528 ∷ 43216 ∷ 43264 ∷ 43472 ∷ 43504 ∷ 43600 ∷ 44016 ∷ 65296 ∷ 66720 ∷ 68912
    ∷ 69734 ∷ 69872 ∷ 69942 ∷ 70096 ∷ 70384 ∷ 70736 ∷ 70864 ∷ 71248 ∷ 71360 ∷ 71472 ∷ 71904 ∷ 72016
    ∷ 72784 ∷ 73040 ∷ 73120 ∷ 92768 ∷ 92864 ∷ 93008 ∷ 120782 ∷ 120792 ∷ 120802 ∷ 120812 ∷ 120822
    ∷ 123200 ∷ 123632 ∷ 125264 ∷ 130032 ∷ []

digit_in : ℕ → List ℕ → Option ℕ
digit_in c [] = none
digit_in c (z ∷ zs) =
    let later = digit_in c zs in if leb z c && ltb c (z + 10) then some (c - z) else later

-- the value of a decimal digit, `\d`
unfoldable pub digit_value : ℕ → Option ℕ
unfolding digit_in
digit_value c = digit_in c zeros

abbrev drop_spaces : List ℕ → List ℕ
drop_spaces [] = []
drop_spaces (c ∷ cs) = let rest = drop_spaces cs in if is_space c then rest else c ∷ cs

abbrev reverse : List ℕ → List ℕ
reverse [] = []
reverse (c ∷ cs) = reverse cs ++ c ∷ []

abbrev strip : List ℕ → List ℕ
strip cs = reverse (drop_spaces (reverse (drop_spaces cs)))

abbrev underscore : ℕ
underscore = 95

-- digits with single underscores between them; the flag: a digit came last
digits_value : Bool → ℕ → List ℕ → Option ℕ
unfolding digit_value
digits_value true acc [] = some acc
digits_value false acc [] = none
digits_value after acc (c ∷ cs) =
    let skipped = digits_value false acc cs in
    if nat_eq c underscore
    then (if after then skipped else none)
    else (elim (digit_value c) [ none ↦ none | some d ↦ digits_value true (10 * acc + d) cs ])

-- more than 4300 digits are refused
natural : List ℕ → Option ℕ
unfolding digits_value
natural cs =
    if ltb 4_300 (length (keep (λ c. not (nat_eq c underscore)) cs))
    then none
    else digits_value false 0 cs

abbrev negate : Option ℕ → Option ℤ
negate none = none
negate (some n) = some (sub_ℕ 0 n)

abbrev positive : Option ℕ → Option ℤ
positive none = none
positive (some n) = some (pos n)

signed : List ℕ → Option ℤ
unfolding natural
signed [] = none
signed (c ∷ cs) =
    if nat_eq c 45
    then negate (natural cs)
    else if nat_eq c 43
    then positive (natural cs)
    else positive (natural (c ∷ cs))

-- `int(text)`
unfoldable pub int_of_text : String → Outcome ℤ
unfolding signed
int_of_text s = or_raise (signed (strip (codes s))) Error.value_error
