-- ===== src/Node/Lines.antt =====
-- Newlines in byte strings, `b"\n" in buf` and `buf.split(b"\n", 1)`, for node/window.py and
-- node/agent_runner.py.
use agentic_juggling.Prelude.{
  ℕ, true, false, ◌≡◌, refl, Option, none, some, [], ◌∷◌, ◌++◌, arith, nat_eq, if◌then◌else◌,
  Option-cases, inl, inr,
}
use agentic_juggling.Primitives.{Bytes}

abbrev pub newline : ℕ
newline = 10

-- the first part with a byte before it
abbrev pub before : ℕ → Option (Bytes × Bytes) → Option (Bytes × Bytes)
before b none = none
before b (some (line, rest)) = some (b ∷ line, rest)

-- the bytes before the first newline and those after it, if there is one
unfoldable pub split_line : Bytes → Option (Bytes × Bytes)
split_line [] = none
split_line (b ∷ bs) =
    let later = before b (split_line bs) in if nat_eq b newline then some ([], bs) else later

pub split_line-append :
    (buf more : Bytes) {line rest : Bytes}
    → split_line buf ≡ some (line, rest)
    → split_line (buf ++ more) ≡ some (line, rest ++ more)
unfolding split_line
split_line-append [] more h = cc
split_line-append (b ∷ bs) more {line} {rest} h = elim (Option-cases (split_line bs)) [
  | inl e ↦ ground arith
  | inr ((l, r), e) ↦ ground (arith, split_line-append bs more e)
]

pub split_line-newline :
    (line rest : Bytes) (b : ℕ)
    → split_line line ≡ none
    → nat_eq b newline ≡ true
    → split_line (line ++ b ∷ rest) ≡ some (line, rest)
unfolding split_line
split_line-newline [] rest b h k = rw k refl
split_line-newline (c ∷ cs) rest b h k = ground (arith, split_line-newline cs rest b)

pub split_line-snoc :
    (line : Bytes) (b : ℕ)
    → split_line line ≡ none
    → nat_eq b newline ≡ false
    → split_line (line ++ b ∷ []) ≡ none
unfolding split_line
split_line-snoc [] b h k = rw k refl
split_line-snoc (c ∷ cs) b h k = ground (arith, split_line-snoc cs b)
