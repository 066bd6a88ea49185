-- ===== src/Json/Write.antt =====
-- `json.dumps` of a document, as code points: the separators are ", " and ": ", and all is ASCII.
pub mod Length
pub mod Ascii
use agentic_juggling.Prelude.{true, false, List, [], ◌∷◌, ◌++◌, String}
use agentic_juggling.Prelude.Unicode.{codes}
use agentic_juggling.Prelude.{ℕ}
use agentic_juggling.Json.{
  Json, Items, Fields, null, flag, int, num, str, arr, obj, nil, cons, end, field,
}
use agentic_juggling.Json.Text.{escape_all}
use agentic_juggling.Json.Number.{write_int, write_float}

abbrev pub quoted : String → List ℕ → List ℕ
quoted s out = 34 ∷ (escape_all (codes s) ++ 34 ∷ out)

-- each function has what follows as its last argument
unfoldable mutual
  unfolding write_int write_float escape_all

  pub write : Json → List ℕ → List ℕ
  write null out = codes "null" ++ out
  write (flag true) out = codes "true" ++ out
  write (flag false) out = codes "false" ++ out
  write (int z) out = write_int z out
  write (num z) out = write_float z out
  write (str s) out = quoted s out
  write (arr xs) out = 91 ∷ write_items xs out
  write (obj fs) out = 123 ∷ write_fields fs out

  -- up to the closing bracket, from the start and after an item
  pub write_items : Items → List ℕ → List ℕ
  write_items nil out = 93 ∷ out
  write_items (cons x xs) out = write x (more_items xs out)

  pub more_items : Items → List ℕ → List ℕ
  more_items nil out = 93 ∷ out
  more_items (cons x xs) out = 44 ∷ 32 ∷ write x (more_items xs out)

  pub write_fields : Fields → List ℕ → List ℕ
  write_fields end out = 125 ∷ out
  write_fields (field k v fs) out = quoted k (58 ∷ 32 ∷ write v (more_fields fs out))

  pub more_fields : Fields → List ℕ → List ℕ
  more_fields end out = 125 ∷ out
  more_fields (field k v fs) out = 44 ∷ 32 ∷ quoted k (58 ∷ 32 ∷ write v (more_fields fs out))

unfoldable pub dumps : Json → List ℕ
unfolding write
dumps j = write j []
