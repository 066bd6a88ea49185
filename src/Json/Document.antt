-- ===== src/Json/Document.antt =====
-- `json.dumps(document).encode()` and `json.loads` of bytes. Bytes in UTF-16 or UTF-32, which `json.loads` would
-- detect by a byte order mark or a null byte, are read as UTF-8 here.
use agentic_juggling.Prelude.{◌≡◌, refl, ◌∙◌, ap, Option, none, some, [], ◌∷◌, String, arith}
use agentic_juggling.Prelude.Outcome.{Error, Outcome, ok, err, or_raise}
use agentic_juggling.Prelude.Unicode.{codes}
use agentic_juggling.Codec.{Bytes, to_char-lt}
use agentic_juggling.Codec.Utf8.{decode, step, text}
use agentic_juggling.Json.{Json}
use agentic_juggling.Json.Text.Ascii.{Ascii}
use agentic_juggling.Json.Write.{dumps}
use agentic_juggling.Json.Write.Ascii.{dumps-Ascii}
use agentic_juggling.Json.Read.{loads}
use agentic_juggling.Json.Read.{string_of}
use agentic_juggling.Json.Read.Strings.{string_of-codes}
use agentic_juggling.Prelude.{or_default, sym}
use agentic_juggling.Json.Read.Back.{Distinct, loads-dumps}

-- UnicodeDecodeError is a ValueError, JSONDecodeError is the one that the code catches
abbrev document : Option String → Outcome Json
document none = err Error.value_error
document (some s) = or_raise (loads (codes s)) Error.decode_error

unfoldable pub loads_bytes : Bytes → Outcome Json
unfolding loads text
loads_bytes bs = document (text bs)

-- a text of ASCII is its own bytes
unfoldable pub dumps_bytes : Json → Bytes
unfolding dumps
dumps_bytes j = dumps j

text-Ascii : (bs : Bytes) → Ascii bs → (s : String) × (text bs ≡ some s) × (codes s ≡ bs)
unfolding text decode step
text-Ascii [] h = (String.[], refl, refl)
text-Ascii (b ∷ bs) h =
    let (s, e, k) = text-Ascii bs h.1 in
    let (c, f, g) = to_char-lt b (omega arith) in
    (String.◌∷◌ c s, ground (arith, e, f), ap (λ n. n ∷ codes s) g ∙ ap (λ r. b ∷ r) k)

pub dumps_bytes-Ascii : (j : Json) → Ascii (dumps_bytes j)
unfolding dumps_bytes
dumps_bytes-Ascii j = dumps-Ascii j

-- The bytes of a document that has no key twice in an object are read as that document.
pub loads_bytes-dumps_bytes : (j : Json) → Distinct j → loads_bytes (dumps_bytes j) ≡ ok j
unfolding loads_bytes dumps_bytes
loads_bytes-dumps_bytes j d =
    let (s, e, k) = text-Ascii (dumps j) (dumps-Ascii j) in
    ap document e
    ∙ ap (λ cs. or_raise (loads cs) Error.decode_error) k
    ∙ ap (λ o. or_raise o Error.decode_error) (loads-dumps j d)

-- the text as a `str`
unfoldable pub dumps_text : Json → String
unfolding dumps
dumps_text j = or_default (string_of (dumps j)) ""

pub codes-dumps_text : (j : Json) → codes (dumps_text j) ≡ dumps j
unfolding dumps_text
codes-dumps_text j =
    let (s, e, k) = text-Ascii (dumps j) (dumps-Ascii j) in
    ap (λ cs. codes (or_default (string_of cs) "")) (sym k)
    ∙ ap (λ o. codes (or_default o "")) (string_of-codes s)
    ∙ k

pub text-dumps_bytes :
    (j : Json)
    → Distinct j
    → (s : String) × (text (dumps_bytes j) ≡ some s) × (loads (codes s) ≡ some j)
unfolding dumps_bytes
text-dumps_bytes j d =
    let (s, e, k) = text-Ascii (dumps j) (dumps-Ascii j) in (s, e, ap loads k ∙ loads-dumps j d)
