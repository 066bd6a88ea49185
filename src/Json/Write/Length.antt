-- ===== src/Json/Write/Length.antt =====
-- The text of a document has a character for each value in it.
use agentic_juggling.Prelude.{
  ℕ, suc, ◌+◌, ◌≤◌, ◌<◌, true, false, List, ◌∷◌, String, length, length-append, arith,
}
use agentic_juggling.Prelude.Unicode.{codes}
use agentic_juggling.Json.{
  Json, Items, Fields, null, flag, int, num, str, arr, obj, nil, cons, end, field,
}
use agentic_juggling.Json.Text.{escape_all}
use agentic_juggling.Json.Number.Length.{length-write_int, length-write_float}
use agentic_juggling.Json.Write.{write, more_items, more_fields, quoted}

abbrev mutual
  pub size : Json → ℕ
  size null = 0
  size (flag b) = 0
  size (int z) = 0
  size (num z) = 0
  size (str s) = 0
  size (arr xs) = suc (size_items xs)
  size (obj fs) = suc (size_fields fs)

  pub size_items : Items → ℕ
  size_items nil = 0
  size_items (cons x xs) = suc (size x + size_items xs)

  pub size_fields : Fields → ℕ
  size_fields end = 0
  size_fields (field k v fs) = suc (size v + size_fields fs)

length-quoted : (s : String) (out : List ℕ) → length out ≤ length (quoted s out)
length-quoted s out = omega (arith, length-append (escape_all (codes s)) (34 ∷ out))

mutual
  unfolding write

  pub size-write : (j : Json) (out : List ℕ) → size j + length out ≤ length (write j out)
  size-write null out = omega (arith)
  size-write (flag true) out = omega (arith)
  size-write (flag false) out = omega (arith)
  size-write (int z) out = omega (arith, length-write_int z out)
  size-write (num z) out = omega (arith, length-write_float z out)
  size-write (str s) out = omega (arith, length-quoted s out)
  size-write (arr nil) out = omega arith
  size-write (arr (cons x xs)) out =
      omega (arith, size-write x (more_items xs out), size-more_items xs out)
  size-write (obj end) out = omega arith
  size-write (obj (field k v fs)) out =
      let inner = 58 ∷ 32 ∷ write v (more_fields fs out) in
      omega
        (arith, length-quoted k inner, size-write v (more_fields fs out), size-more_fields fs out)

  size-more_items :
      (xs : Items) (out : List ℕ) → size_items xs + length out < length (more_items xs out)
  size-more_items nil out = omega arith
  size-more_items (cons x xs) out =
      omega (arith, size-write x (more_items xs out), size-more_items xs out)

  size-more_fields :
      (fs : Fields) (out : List ℕ) → size_fields fs + length out < length (more_fields fs out)
  size-more_fields end out = omega arith
  size-more_fields (field k v fs) out =
      let inner = 58 ∷ 32 ∷ write v (more_fields fs out) in
      omega
        (arith, length-quoted k inner, size-write v (more_fields fs out), size-more_fields fs out)
