-- ===== src/Json/Number/Fraction.antt =====
-- The places of a float are read back.
use agentic_juggling.Prelude.{
  ℕ, suc, ◌+◌, ◌*◌, ◌/◌, ◌%◌, ◌<◌, ◌≡◌, ◌∙◌, List, [], ◌∷◌, ◌++◌, nat_eq, Bool-cases, inl, inr,
  arith,
}
use agentic_juggling.Json.Number.{places, read_digits, ticks}
use agentic_juggling.Json.Number.Digits.{NoDigit, read_digits_end, read_digits_next}

ticks_one : (v : ℕ) → ticks v 1 0 0 ≡ 1_000 * v
ticks_one v = ground arith

ticks_two : (v : ℕ) → ticks v 2 0 0 ≡ 100 * v
ticks_two v = ground arith

ticks_three : (v : ℕ) → ticks v 3 0 0 ≡ 10 * v
ticks_three v = ground arith

ticks_four : (v : ℕ) → ticks v 4 0 0 ≡ v
ticks_four v = ground arith

-- the places of r ticks behind n units are read with them
abbrev pub ReadsPlaces : ℕ → ℕ → List ℕ → List ℕ → Type 0
ReadsPlaces n r written out =
    (v : ℕ) × (k : ℕ) × (read_digits n 0 (written ++ out) ≡ (v, suc k, out))
    × (ticks v (suc k) 0 0 ≡ 10_000 * n + r)

module _ (n r : ℕ) (out : List ℕ) (h : r < 10_000) (s : NoDigit out) where
  abbrev with_one : ℕ
  with_one = 10 * n + r / 1_000

  abbrev with_two : ℕ
  with_two = 10 * with_one + r / 100 % 10

  abbrev with_three : ℕ
  with_three = 10 * with_two + r / 10 % 10

  abbrev with_four : ℕ
  with_four = 10 * with_three + r % 10

  one_place : r % 1_000 ≡ 0 → ReadsPlaces n r ((48 + r / 1_000) ∷ []) out
  one_place e = (
    with_one,
    0,
    read_digits_next n 0 (r / 1_000) out (omega arith) ∙ read_digits_end with_one 1 out s,
    ticks_one with_one ∙ omega arith,
  )

  two_places : r % 100 ≡ 0 → ReadsPlaces n r ((48 + r / 1_000) ∷ (48 + r / 100 % 10) ∷ []) out
  two_places e = (
    with_two,
    1,
    read_digits_next n 0 (r / 1_000) ((48 + r / 100 % 10) ∷ out) (omega arith)
        ∙ read_digits_next with_one 1 (r / 100 % 10) out (omega arith)
        ∙ read_digits_end with_two 2 out s,
    ticks_two with_two ∙ omega arith,
  )

  three_places :
      r % 10 ≡ 0
      → ReadsPlaces n r ((48 + r / 1_000) ∷ (48 + r / 100 % 10) ∷ (48 + r / 10 % 10) ∷ []) out
  three_places e = (
    with_three,
    2,
    read_digits_next n 0 (r / 1_000) ((48 + r / 100 % 10) ∷ (48 + r / 10 % 10) ∷ out) (omega arith)
        ∙ read_digits_next with_one 1 (r / 100 % 10) ((48 + r / 10 % 10) ∷ out) (omega arith)
        ∙ read_digits_next with_two 2 (r / 10 % 10) out (omega arith)
        ∙ read_digits_end with_three 3 out s,
    ticks_three with_three ∙ omega arith,
  )

  four_places :
      ReadsPlaces n r
        ((48 + r / 1_000) ∷ (48 + r / 100 % 10) ∷ (48 + r / 10 % 10) ∷ (48 + r % 10) ∷ [])
        out
  four_places = (
    with_four,
    3,
    read_digits_next n 0 (r / 1_000)
          ((48 + r / 100 % 10) ∷ (48 + r / 10 % 10) ∷ (48 + r % 10) ∷ out) (omega arith)
        ∙ read_digits_next with_one 1 (r / 100 % 10) ((48 + r / 10 % 10) ∷ (48 + r % 10) ∷ out)
            (omega arith)
        ∙ read_digits_next with_two 2 (r / 10 % 10) ((48 + r % 10) ∷ out) (omega arith)
        ∙ read_digits_next with_three 3 (r % 10) out (omega arith)
        ∙ read_digits_end with_four 4 out s,
    ticks_four with_four ∙ omega arith,
  )

  pub read_digits-places : ReadsPlaces n r (places r) out
  read_digits-places = elim (Bool-cases (nat_eq (r % 1_000) 0)) [
    | inl e ↦ rw e (one_place (ground arith))
    | inr e ↦ rw e (elim (Bool-cases (nat_eq (r % 100) 0)) [
      | inl f ↦ rw f (two_places (ground arith))
      | inr f ↦ rw f (elim (Bool-cases (nat_eq (r % 10) 0)) [
        | inl g ↦ rw g (three_places (ground arith))
        | inr g ↦ rw g four_places
      ])
    ])
  ]
