-- ===== src/Json/Text/Ascii.antt =====
-- A string is written in printable ASCII.
use mathlib.Core.Path.{subst}
use agentic_juggling.Prelude.{
  ℕ, ◌/◌, ◌%◌, ◌<◌, ◌≡◌, sym, ◌&&◌, Bool-cases, inl, inr, some, Option-cases, List, [], ◌∷◌, ◌++◌,
  String, All, arith, leb, ltb,
}
use Prim.Native.Char.{code}
use agentic_juggling.Prelude.Unicode.{codes}
use agentic_juggling.Codec.{code-lt}
use agentic_juggling.Json.Text.{
  hex_digit, unicode_escape, short, high_of, low_of, long, escape_by, escape, escape_all,
}

abbrev pub Ascii : List ℕ → Type 0
Ascii = All (λ b. (31 < b) × (b < 127))

pub Ascii-append : (xs ys : List ℕ) → Ascii xs → Ascii ys → Ascii (xs ++ ys)
Ascii-append [] ys h k = k
Ascii-append (x ∷ xs) ys h k = (h.0, Ascii-append xs ys h.1 k)

hex_digit-Ascii : (d : ℕ) → d < 16 → (31 < hex_digit d) × (hex_digit d < 127)
hex_digit-Ascii d h = (ground arith, ground arith)

unicode_escape-Ascii : (v : ℕ) → v < 65_536 → Ascii (unicode_escape v)
unicode_escape-Ascii v h = (
  (omega arith, omega arith),
  (
    (omega arith, omega arith),
    (
      hex_digit-Ascii (v / 4_096) (omega arith),
      (
        hex_digit-Ascii (v / 256 % 16) (omega arith),
        (hex_digit-Ascii (v / 16 % 16) (omega arith), (hex_digit-Ascii (v % 16) (omega arith), tt)),
      ),
    ),
  ),
)

long-Ascii : (c : ℕ) → c < 1_114_112 → Ascii (long c)
long-Ascii c h = elim (Bool-cases (leb 32 c && leb c 126)) [
  | inl e ↦ rw e ((ground arith, ground arith), tt)
  | inr e ↦ rw e (elim (Bool-cases (ltb c 65_536)) [
    | inl l ↦ rw l (unicode_escape-Ascii c (ground arith))
    | inr l ↦ rw l (
        Ascii-append (unicode_escape (high_of c)) (unicode_escape (low_of c))
          (unicode_escape-Ascii (high_of c) (ground arith))
          (unicode_escape-Ascii (low_of c) (omega arith)))
  ])
]

short-Ascii : (c letter : ℕ) → short c ≡ some letter → (31 < letter) × (letter < 127)
short-Ascii c letter h = (ground arith, ground arith)

escape-Ascii : (c : ℕ) → c < 1_114_112 → Ascii (escape c)
unfolding escape
escape-Ascii c h = elim (Option-cases (short c)) [
  | inl e ↦ subst (λ o. Ascii (escape_by o c)) (sym e) (long-Ascii c h)
  | inr (letter, e) ↦
      subst (λ o. Ascii (escape_by o c)) (sym e)
        ((omega arith, omega arith), (short-Ascii c letter e, tt))
]

pub escape_all-Ascii : (s : String) → Ascii (escape_all (codes s))
unfolding escape_all
escape_all-Ascii String.[] = tt
escape_all-Ascii (String.◌∷◌ c s) =
    Ascii-append (escape (code c)) (escape_all (codes s)) (escape-Ascii (code c) (code-lt c))
      (escape_all-Ascii s)
