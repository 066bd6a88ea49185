-- ===== src/Json/Write/Ascii.antt =====
-- The text of a document is printable ASCII on one line.
use agentic_juggling.Prelude.{ℕ, true, false, List, [], ◌∷◌, String, arith}
use agentic_juggling.Prelude.Unicode.{codes}
use agentic_juggling.Json.{
  Json, Items, Fields, null, flag, int, num, str, arr, obj, nil, cons, end, field,
}
use agentic_juggling.Json.Text.{escape_all}
use agentic_juggling.Json.Write.{write, more_items, more_fields, quoted, dumps}
use agentic_juggling.Json.Text.Ascii.{Ascii, Ascii-append, escape_all-Ascii}
use agentic_juggling.Json.Number.Ascii.{write_int-Ascii, write_float-Ascii}

quoted-Ascii : (s : String) (out : List ℕ) → Ascii out → Ascii (quoted s out)
quoted-Ascii s out h = (
  (omega arith, omega arith),
  Ascii-append (escape_all (codes s)) (34 ∷ out) (escape_all-Ascii s)
      ((omega arith, omega arith), h),
)

mutual
  unfolding write

  write-Ascii : (j : Json) (out : List ℕ) → Ascii out → Ascii (write j out)
  write-Ascii null out h = (
    (omega arith, omega arith),
    ((omega arith, omega arith), ((omega arith, omega arith), ((omega arith, omega arith), h))),
  )
  write-Ascii (flag true) out h = (
    (omega arith, omega arith),
    ((omega arith, omega arith), ((omega arith, omega arith), ((omega arith, omega arith), h))),
  )
  write-Ascii (flag false) out h = (
    (omega arith, omega arith),
    (
      (omega arith, omega arith),
      ((omega arith, omega arith), ((omega arith, omega arith), ((omega arith, omega arith), h))),
    ),
  )
  write-Ascii (int z) out h = write_int-Ascii z out h
  write-Ascii (num z) out h = write_float-Ascii z out h
  write-Ascii (str s) out h = quoted-Ascii s out h
  write-Ascii (arr nil) out h = ((omega arith, omega arith), ((omega arith, omega arith), h))
  write-Ascii (arr (cons x xs)) out h =
      ((omega arith, omega arith), write-Ascii x (more_items xs out) (more_items-Ascii xs out h))
  write-Ascii (obj end) out h = ((omega arith, omega arith), ((omega arith, omega arith), h))
  write-Ascii (obj (field k v fs)) out h = (
    (omega arith, omega arith),
    quoted-Ascii k (58 ∷ 32 ∷ write v (more_fields fs out)) (
      (omega arith, omega arith),
      ((omega arith, omega arith), write-Ascii v (more_fields fs out) (more_fields-Ascii fs out h)),
    ),
  )

  more_items-Ascii : (xs : Items) (out : List ℕ) → Ascii out → Ascii (more_items xs out)
  more_items-Ascii nil out h = ((omega arith, omega arith), h)
  more_items-Ascii (cons x xs) out h = (
    (omega arith, omega arith),
    ((omega arith, omega arith), write-Ascii x (more_items xs out) (more_items-Ascii xs out h)),
  )

  more_fields-Ascii : (fs : Fields) (out : List ℕ) → Ascii out → Ascii (more_fields fs out)
  more_fields-Ascii end out h = ((omega arith, omega arith), h)
  more_fields-Ascii (field k v fs) out h = (
    (omega arith, omega arith),
    (
      (omega arith, omega arith),
      quoted-Ascii k (58 ∷ 32 ∷ write v (more_fields fs out)) (
        (omega arith, omega arith),
        (
          (omega arith, omega arith),
          write-Ascii v (more_fields fs out) (more_fields-Ascii fs out h),
        ),
      ),
    ),
  )

pub dumps-Ascii : (j : Json) → Ascii (dumps j)
unfolding dumps
dumps-Ascii j = write-Ascii j [] tt
