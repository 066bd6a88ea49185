-- ===== src/Json/Number/Length.antt =====
-- A number is written before what follows it.
use agentic_juggling.Prelude.{ℕ, zero, suc, ◌+◌, ◌/◌, ◌%◌, ◌≤◌, List, ◌∷◌, ◌++◌, length, arith}
use agentic_juggling.Prelude.Int.{ℤ, pos, negsuc}
use agentic_juggling.Prelude.{length-append}
use agentic_juggling.Json.Number.{digits_from, digits, places, magnitude, write_int, write_float}

length-digits_from : (fuel n : ℕ) (out : List ℕ) → length out ≤ length (digits_from fuel n out)
unfolding digits_from
length-digits_from zero n out = omega arith
length-digits_from (suc fuel) n out =
    let longer = length-digits_from fuel (n / 10) ((48 + n % 10) ∷ out) in ground arith

length-magnitude : (n : ℕ) (out : List ℕ) → length out ≤ length (magnitude n out)
unfolding digits
length-magnitude n out =
    let rest = 46 ∷ (places (n % 10_000) ++ out) in
    omega (
      arith,
      length-append (places (n % 10_000)) out,
      length-digits_from (n / 10_000 + 1) (n / 10_000) rest,
    )

pub length-write_int : (z : ℤ) (out : List ℕ) → length out ≤ length (write_int z out)
unfolding write_int digits
length-write_int (pos n) out = length-digits_from (n + 1) n out
length-write_int (negsuc n) out = omega (arith, length-digits_from (n + 1 + 1) (n + 1) out)

pub length-write_float : (z : ℤ) (out : List ℕ) → length out ≤ length (write_float z out)
unfolding write_float
length-write_float (pos n) out = length-magnitude n out
length-write_float (negsuc n) out = omega (arith, length-magnitude (n + 1) out)
