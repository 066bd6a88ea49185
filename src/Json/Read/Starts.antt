-- ===== src/Json/Read/Starts.antt =====
-- How the text of a value begins.
use agentic_juggling.Prelude.{
  ℕ, suc, Bool, true, false, not, ◌&&◌, ◌||◌, ◌≡◌, refl, ◌∙◌, ap, List, [], ◌∷◌, nat_eq, arith,
}
use agentic_juggling.Json.{Json, null, flag, int, num, str, arr, obj}
use agentic_juggling.Json.Number.{read_number}
use agentic_juggling.Json.Number.Back.{begins, write_int_head, write_float_head}
use agentic_juggling.Json.Write.{write}
use agentic_juggling.Json.Read.{on_value, skip, Kind, kind, by_kind, of_number, value}

-- a character with which a value begins is no blank and no closing bracket
abbrev pub solid : ℕ → Bool
solid c =
    not (nat_eq c 32 || nat_eq c 10 || nat_eq c 13 || nat_eq c 9)
    && not (nat_eq c 93 || nat_eq c 125)

begins-solid : (c : ℕ) → begins c ≡ true → solid c ≡ true
begins-solid c h = ground arith

begins-kind : (c : ℕ) → begins c ≡ true → kind c ≡ Kind.number
begins-kind c h = ground arith

abbrev pub Solid : List ℕ → Type 0
Solid cs = (c : ℕ) × (rest : List ℕ) × (cs ≡ c ∷ rest) × (solid c ≡ true)

pub write-Solid : (j : Json) (out : List ℕ) → Solid (write j out)
unfolding write
write-Solid null out = (110, _, refl, refl)
write-Solid (flag true) out = (116, _, refl, refl)
write-Solid (flag false) out = (102, _, refl, refl)
write-Solid (int z) out = let (c, cs, e, h) = write_int_head z out in (c, cs, e, begins-solid c h)
write-Solid (num z) out = let (c, cs, e, h) = write_float_head z out in (c, cs, e, begins-solid c h)
write-Solid (str s) out = (34, _, refl, refl)
write-Solid (arr xs) out = (91, _, refl, refl)
write-Solid (obj fs) out = (123, _, refl, refl)

skip-Solid : (cs : List ℕ) → Solid cs → skip cs ≡ cs
skip-Solid [] h = refl
skip-Solid (x ∷ xs) (c, rest, e, h) = ground (arith, ap head_of e)
  where
    head_of : List ℕ → ℕ
    head_of [] = 0
    head_of (y ∷ ys) = y

pub skip-write : (j : Json) (out : List ℕ) → skip (write j out) ≡ write j out
skip-write j out = skip-Solid (write j out) (write-Solid j out)

pub value_number :
    (fuel : ℕ) (cs rest : List ℕ) (c : ℕ)
    → cs ≡ c ∷ rest
    → begins c ≡ true
    → value (suc fuel) cs ≡ on_value of_number (read_number cs)
value_number fuel [] rest c e h = absurd (cc)
value_number fuel (x ∷ xs) rest c e h =
    let same : x ≡ c = cc in
    unfold value by_kind in
    ap (λ k. by_kind (value fuel) fuel k x xs) (ap kind same ∙ begins-kind c h)
