-- ===== src/Json/Number/Back.antt =====
-- A number that is written in a JSON text is read back from it.
use agentic_juggling.Prelude.{
  ℕ, zero, suc, ◌+◌, ◌/◌, ◌%◌, Bool, true, false, ◌||◌, ◌≡◌, refl, ◌∙◌, ap, some, List, [], ◌∷◌,
  ◌++◌, nat_eq, arith,
}
use agentic_juggling.Prelude.Int.{ℤ, pos, negsuc}
use agentic_juggling.Json.Number.{
  digits_from, digits, places, magnitude, write_int, write_float, is_digit, read_whole, read_places,
  Exponent, read_exponent, with_sign, Number, finish, after_whole, read_number, some_places,
}
use agentic_juggling.Json.Number.Digits.{Stops, Stops-NoDigit, digits_from_head, read_whole-digits}
use agentic_juggling.Json.Number.Fraction.{read_digits-places}

-- behind the digits of a number comes no exponent
read_exponent_end : (cs : List ℕ) → Stops cs → read_exponent cs ≡ Exponent.absent
read_exponent_end [] h = refl
read_exponent_end (c ∷ cs) h = ground arith

read_places_end :
    (n : ℕ) (cs : List ℕ)
    → Stops cs
    → read_places n cs ≡ record { value = n; count = 0; is_float = false; rest = cs }
read_places_end n [] h = refl
read_places_end n (c ∷ cs) h = ground arith

after_whole-int :
    (minus : Bool) (n : ℕ) (out : List ℕ)
    → Stops out
    → after_whole minus (read_whole (digits n out)) ≡ some (Number.int (with_sign minus n), out)
after_whole-int minus n out h =
    ap (after_whole minus) (read_whole-digits n out (Stops-NoDigit out h))
    ∙ rw (read_places_end n out h, read_exponent_end out h) refl

after_whole-float :
    (minus : Bool) (n : ℕ) (out : List ℕ)
    → Stops out
    → after_whole minus (read_whole (magnitude n out))
      ≡ some (Number.float (with_sign minus n), out)
after_whole-float minus n out h =
    let (v, k, back, exact) =
      read_digits-places (n / 10_000) (n % 10_000) out (omega arith) (Stops-NoDigit out h) in
    ap (after_whole minus) (read_whole-digits (n / 10_000) (46 ∷ (places (n % 10_000) ++ out)) refl)
    ∙ ap
        (λ t.
          let p = some_places (n / 10_000) (46 ∷ (places (n % 10_000) ++ out)) t in
          some (finish minus p (read_exponent p.rest)))
        back
    ∙ rw (read_exponent_end out h)
        (ap (λ (m : ℕ). some (Number.float (with_sign minus m), out)) (exact ∙ omega arith))

-- how a number begins
abbrev pub begins : ℕ → Bool
begins c = is_digit c || nat_eq c 45

digits_head :
    (n : ℕ) (out : List ℕ)
    → (c : ℕ) × (cs : List ℕ) × (digits n out ≡ c ∷ cs)
      × (nat_eq c 45 ≡ false)
      × (is_digit c ≡ true)
unfolding digits
digits_head zero out = (48, out, unfold digits_from in refl, refl, refl)
digits_head (suc n) out =
    let (c, cs, e, l, u) = digits_from_head (suc n + 1) (suc n) out (omega arith) (omega arith) in
    (c, cs, e, ground arith, ground arith)

pub write_int_head :
    (z : ℤ) (out : List ℕ)
    → (c : ℕ) × (cs : List ℕ) × (write_int z out ≡ c ∷ cs) × (begins c ≡ true)
unfolding write_int
write_int_head (pos n) out = let (c, cs, e, h, k) = digits_head n out in (c, cs, e, ground arith)
write_int_head (negsuc n) out = (45, digits (n + 1) out, refl, refl)

pub write_float_head :
    (z : ℤ) (out : List ℕ)
    → (c : ℕ) × (cs : List ℕ) × (write_float z out ≡ c ∷ cs) × (begins c ≡ true)
unfolding write_float
write_float_head (pos n) out =
    let (c, cs, e, h, k) = digits_head (n / 10_000) (46 ∷ (places (n % 10_000) ++ out)) in
    (c, cs, e, ground arith)
write_float_head (negsuc n) out = (45, magnitude (n + 1) out, refl, refl)

unsigned :
    (xs : List ℕ) (c : ℕ) (cs : List ℕ)
    → xs ≡ c ∷ cs
    → nat_eq c 45 ≡ false
    → read_number xs ≡ after_whole false (read_whole xs)
unfolding read_number
unsigned [] c cs e h = absurd (cc)
unsigned (x ∷ xs) c cs e h =
    let same : x ≡ c = cc in
    let plain : nat_eq x 45 ≡ false = ground (arith, same, h) in rw plain refl

unsigned_digits :
    (n : ℕ) (out : List ℕ)
    → read_number (digits n out) ≡ after_whole false (read_whole (digits n out))
unsigned_digits n out = let (c, cs, e, h, k) = digits_head n out in unsigned (digits n out) c cs e h

-- An int and a float are read back, whatever follows that is no part of a number.
pub read_number-write_int :
    (z : ℤ) (out : List ℕ) → Stops out → read_number (write_int z out) ≡ some (Number.int z, out)
unfolding write_int
read_number-write_int (pos n) out h = unsigned_digits n out ∙ after_whole-int false n out h
read_number-write_int (negsuc n) out h =
    unfold read_number in
    after_whole-int true (n + 1) out h ∙ ap (λ (z : ℤ). some (Number.int z, out)) (ground arith)

pub read_number-write_float :
    (z : ℤ) (out : List ℕ)
    → Stops out
    → read_number (write_float z out) ≡ some (Number.float z, out)
unfolding write_float
read_number-write_float (pos n) out h =
    unsigned_digits (n / 10_000) (46 ∷ (places (n % 10_000) ++ out))
    ∙ after_whole-float false n out h
read_number-write_float (negsuc n) out h =
    unfold read_number in
    after_whole-float true (n + 1) out h ∙ ap (λ (z : ℤ). some (Number.float z, out)) (ground arith)
