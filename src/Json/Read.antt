-- ===== src/Json/Read.antt =====
-- `json.loads` of a text, as code points. A text with a lone surrogate, NaN and the infinities, which it also reads, are
-- not among the documents here.
pub mod Strings
pub mod Starts
pub mod Back
use agentic_juggling.Prelude.{
  ℕ, zero, suc, ◌+◌, Bool, true, false, ◌||◌, Option, none, some, List, [], ◌∷◌, String, ◌==◌,
  nat_eq, length, if◌then◌else◌,
}
use agentic_juggling.Prelude.Unicode.{codes}
use agentic_juggling.Codec.{to_char}
use agentic_juggling.Codec.Utf8.{cons_char}
use agentic_juggling.Json.{
  Json, Items, Fields, null, flag, int, num, str, arr, obj, nil, cons, end, field,
}
use agentic_juggling.Json.Text.{Mode, scan}
use agentic_juggling.Json.Number.{Number, read_number}

abbrev pub Parsed : Type 0 → Type 0
Parsed A = Option (A × List ℕ)

abbrev pub on_value : {A B : Type 0} → (A → B) → Parsed A → Parsed B
on_value f none = none
on_value f (some (a, rest)) = some (f a, rest)

-- blanks, tabs, newlines
abbrev pub skip : List ℕ → List ℕ
skip [] = []
skip (c ∷ cs) =
    let rest = skip cs in
    if nat_eq c 32 || nat_eq c 10 || nat_eq c 13 || nat_eq c 9 then rest else c ∷ cs

abbrev pub string_of : List ℕ → Option String
string_of [] = some String.[]
string_of (c ∷ cs) = cons_char (to_char c) (string_of cs)

abbrev as_string : Option String → List ℕ → Parsed String
as_string none rest = none
as_string (some s) rest = some (s, rest)

abbrev pub scanned : Parsed (List ℕ) → Parsed String
scanned none = none
scanned (some (cs, rest)) = as_string (string_of cs) rest

-- behind the opening quote
unfoldable pub read_string : List ℕ → Parsed String
unfolding scan to_char
read_string cs = scanned (scan Mode.text cs)

abbrev pub word : {A : Type 0} → A → List ℕ → List ℕ → Parsed A
word a [] cs = some (a, cs)
word a (x ∷ xs) [] = none
word a (x ∷ xs) (c ∷ cs) = let more = word a xs cs in if nat_eq x c then more else none

-- what stands behind an item or a member
pub data Next : Type 0 where
  more : List ℕ → Next
  ends : List ℕ → Next
  wrong : Next

abbrev pub separator : ℕ → List ℕ → Next
separator close [] = wrong
separator close (c ∷ cs) =
    if nat_eq c 44 then more (skip cs) else if nat_eq c close then ends cs else wrong

-- a key with its colon
abbrev pub colon : Parsed String → Parsed String
colon none = none
colon (some (k, [])) = none
colon (some (k, c ∷ cs)) = if nat_eq c 58 then some (k, skip cs) else none

abbrev pub blanks : Parsed String → Parsed String
blanks none = none
blanks (some (k, cs)) = some (k, skip cs)

unfoldable pub read_key : List ℕ → Parsed String
unfolding read_string
read_key [] = none
read_key (c ∷ cs) = if nat_eq c 34 then colon (blanks (read_string cs)) else none

abbrev pub get : String → Fields → Option Json
get k end = none
get k (field j v fs) = if j == k then some v else get k fs

abbrev pub remove : String → Fields → Fields
remove k end = end
remove k (field j v fs) = let rest = remove k fs in if j == k then rest else field j v rest

-- a key that comes again keeps its place and takes the last value
abbrev pub put : String → Json → Fields → Fields
put k v fs = elim (get k fs) [ none ↦ field k v fs | some w ↦ field k w (remove k fs) ]

-- behind an item: `again` reads the items that follow
abbrev pub next_item : (List ℕ → Parsed Items) → Json → Next → Parsed Items
next_item again j (more rest) = on_value (cons j) (again rest)
next_item again j (ends rest) = some (cons j nil, rest)
next_item again j wrong = none

abbrev pub with_item : (List ℕ → Parsed Items) → Parsed Json → Parsed Items
with_item again none = none
with_item again (some (j, rest)) = next_item again j (separator 93 (skip rest))

abbrev pub next_field : (List ℕ → Parsed Fields) → String → Json → Next → Parsed Fields
next_field again k j (more rest) = on_value (put k j) (again rest)
next_field again k j (ends rest) = some (field k j end, rest)
next_field again k j wrong = none

abbrev pub with_value : (List ℕ → Parsed Fields) → String → Parsed Json → Parsed Fields
with_value again k none = none
with_value again k (some (j, rest)) = next_field again k j (separator 125 (skip rest))

module _ (value : List ℕ → Parsed Json) where
  unfoldable pub read_items : ℕ → List ℕ → Parsed Items
  read_items zero cs = none
  read_items (suc fuel) cs = with_item (read_items fuel) (value cs)

  abbrev pub with_key : (List ℕ → Parsed Fields) → Parsed String → Parsed Fields
  with_key again none = none
  with_key again (some (k, rest)) = with_value again k (value rest)

  unfoldable pub read_fields : ℕ → List ℕ → Parsed Fields
  unfolding read_key
  read_fields zero cs = none
  read_fields (suc fuel) cs = with_key (read_fields fuel) (read_key cs)

  -- an empty array or object, or one that begins
  abbrev pub open_items : ℕ → List ℕ → Parsed Items
  open_items fuel [] = none
  open_items fuel (c ∷ cs) = if nat_eq c 93 then some (nil, cs) else read_items fuel (c ∷ cs)

  abbrev pub open_fields : ℕ → List ℕ → Parsed Fields
  open_fields fuel [] = none
  open_fields fuel (c ∷ cs) = if nat_eq c 125 then some (end, cs) else read_fields fuel (c ∷ cs)

pub data Kind : Type 0 where
  quote bracket brace letter_n letter_t letter_f number : Kind

abbrev pub kind : ℕ → Kind
kind c =
    if nat_eq c 34
    then quote
    else if nat_eq c 91
    then bracket
    else if nat_eq c 123
    then brace
    else if nat_eq c 110
    then letter_n
    else if nat_eq c 116
    then letter_t
    else if nat_eq c 102
    then letter_f
    else number

abbrev pub of_number : Number → Json
of_number (Number.int z) = int z
of_number (Number.float z) = num z

-- by the first character, with the reader of the values inside
unfoldable pub by_kind : (List ℕ → Parsed Json) → ℕ → Kind → ℕ → List ℕ → Parsed Json
unfolding read_string read_items read_fields read_number
by_kind inner fuel quote c cs = on_value str (read_string cs)
by_kind inner fuel bracket c cs = on_value arr (open_items inner fuel (skip cs))
by_kind inner fuel brace c cs = on_value obj (open_fields inner fuel (skip cs))
by_kind inner fuel letter_n c cs = word null (codes "ull") cs
by_kind inner fuel letter_t c cs = word (flag true) (codes "rue") cs
by_kind inner fuel letter_f c cs = word (flag false) (codes "alse") cs
by_kind inner fuel number c cs = on_value of_number (read_number (c ∷ cs))

-- A value takes at least a character, and so does an item and a member.
unfoldable pub value : ℕ → List ℕ → Parsed Json
unfolding by_kind
value zero cs = none
value (suc fuel) [] = none
value (suc fuel) (c ∷ cs) = by_kind (value fuel) fuel (kind c) c cs

-- nothing but blanks may follow
abbrev pub alone : Parsed Json → Option Json
alone none = none
alone (some (j, rest)) = elim (skip rest) [ [] ↦ some j | c ∷ cs ↦ none ]

unfoldable pub loads : List ℕ → Option Json
unfolding value
loads cs = alone (value (length cs + 1) (skip cs))
