-- ===== src/Json/Read/Strings.antt =====
-- Strings and keys of a JSON text are read back.
use agentic_juggling.Prelude.{ℕ, ◌≡◌, refl, ◌∙◌, ap, some, List, ◌∷◌, ◌++◌, String, All}
use agentic_juggling.Prelude.Unicode.{codes}
use agentic_juggling.Codec.{to_char-code, code_scalar}
use agentic_juggling.Json.Text.{escape_all}
use agentic_juggling.Json.RoundTrip.{Scalar, scan-escape_all}
use agentic_juggling.Json.Write.{quoted}
use agentic_juggling.Json.Read.{skip, string_of, scanned, read_string, colon, blanks, read_key}

codes-Scalar : (s : String) → All Scalar (codes s)
codes-Scalar String.[] = tt
codes-Scalar (String.◌∷◌ c s) = (code_scalar c, codes-Scalar s)

pub string_of-codes : (s : String) → string_of (codes s) ≡ some s
string_of-codes String.[] = refl
string_of-codes (String.◌∷◌ c s) = rw (to_char-code c, string_of-codes s) refl

-- behind its opening quote
pub read_string-codes :
    (s : String) (out : List ℕ) → read_string (escape_all (codes s) ++ 34 ∷ out) ≡ some (s, out)
unfolding read_string
read_string-codes s out =
    ap scanned (scan-escape_all (codes s) out (codes-Scalar s)) ∙ rw (string_of-codes s) refl

pub read_key-quoted :
    (k : String) (out : List ℕ) → read_key (quoted k (58 ∷ 32 ∷ out)) ≡ some (k, skip out)
unfolding read_key
read_key-quoted k out = ap (λ p. colon (blanks p)) (read_string-codes k (58 ∷ 32 ∷ out))
