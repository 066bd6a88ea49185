-- ===== src/Json/Number/Ascii.antt =====
-- A number is written in printable ASCII.
use agentic_juggling.Prelude.{
  ℕ, zero, suc, ◌+◌, ◌/◌, ◌%◌, ◌<◌, Bool-cases, inl, inr, List, ◌∷◌, ◌++◌, arith, ltb, nat_eq,
}
use agentic_juggling.Prelude.Int.{ℤ, pos, negsuc}
use agentic_juggling.Json.Number.{digits_from, digits, places, magnitude, write_int, write_float}
use agentic_juggling.Json.Text.Ascii.{Ascii, Ascii-append}

digits_from-Ascii : (fuel n : ℕ) (out : List ℕ) → Ascii out → Ascii (digits_from fuel n out)
unfolding digits_from
digits_from-Ascii zero n out h = h
digits_from-Ascii (suc fuel) n out h =
    let longer =
      digits_from-Ascii fuel (n / 10) ((48 + n % 10) ∷ out) ((omega arith, omega arith), h) in
    elim (Bool-cases (ltb n 10)) [
      | inl e ↦ rw e ((omega arith, ground arith), h)
      | inr e ↦ rw e longer
    ]

places-Ascii : (r : ℕ) → r < 10_000 → Ascii (places r)
places-Ascii r h = elim (Bool-cases (nat_eq (r % 1_000) 0)) [
  | inl a ↦ rw a (first, tt)
  | inr a ↦ rw a (elim (Bool-cases (nat_eq (r % 100) 0)) [
    | inl b ↦ rw b (first, (digit (r / 100), tt))
    | inr b ↦ rw b (elim (Bool-cases (nat_eq (r % 10) 0)) [
      | inl c ↦ rw c (first, (digit (r / 100), (digit (r / 10), tt)))
      | inr c ↦ rw c (first, (digit (r / 100), (digit (r / 10), (digit r, tt))))
    ])
  ])
]
  where
    first : (31 < 48 + r / 1_000) × (48 + r / 1_000 < 127)
    first = (omega arith, omega arith)

    digit : (n : ℕ) → (31 < 48 + n % 10) × (48 + n % 10 < 127)
    digit n = (omega arith, omega arith)

magnitude-Ascii : (n : ℕ) (out : List ℕ) → Ascii out → Ascii (magnitude n out)
unfolding digits
magnitude-Ascii n out h =
    digits_from-Ascii (n / 10_000 + 1) (n / 10_000) (46 ∷ (places (n % 10_000) ++ out)) (
      (omega arith, omega arith),
      Ascii-append (places (n % 10_000)) out (places-Ascii (n % 10_000) (omega arith)) h,
    )

pub write_int-Ascii : (z : ℤ) (out : List ℕ) → Ascii out → Ascii (write_int z out)
unfolding write_int digits
write_int-Ascii (pos n) out h = digits_from-Ascii (n + 1) n out h
write_int-Ascii (negsuc n) out h =
    ((omega arith, omega arith), digits_from-Ascii (n + 1 + 1) (n + 1) out h)

pub write_float-Ascii : (z : ℤ) (out : List ℕ) → Ascii out → Ascii (write_float z out)
unfolding write_float
write_float-Ascii (pos n) out h = magnitude-Ascii n out h
write_float-Ascii (negsuc n) out h = ((omega arith, omega arith), magnitude-Ascii (n + 1) out h)
