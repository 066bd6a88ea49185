-- ===== src/Json/Number/Digits.antt =====
-- The digits of a number are read back.
use agentic_juggling.Prelude.{
  ℕ, zero, suc, ◌+◌, ◌*◌, ◌/◌, ◌%◌, ◌<◌, true, false, ◌||◌, ◌≡◌, refl, ◌∙◌, ap, some, List, [], ◌∷◌,
  nat_eq, ltb, Bool-cases, inl, inr, arith,
}
use agentic_juggling.Json.Number.{digits_from, digits, is_digit, read_digits, read_whole}

-- a text that does not go on with a digit, and one that does not go on with a part of a number
abbrev pub NoDigit : List ℕ → Type 0
NoDigit [] = Unit
NoDigit (c ∷ cs) = is_digit c ≡ false

abbrev pub Stops : List ℕ → Type 0
Stops [] = Unit
Stops (c ∷ cs) = (is_digit c || nat_eq c 46 || nat_eq c 101 || nat_eq c 69) ≡ false

pub Stops-NoDigit : (cs : List ℕ) → Stops cs → NoDigit cs
Stops-NoDigit [] h = tt
Stops-NoDigit (c ∷ cs) h = ground arith

pub read_digits_end : (a k : ℕ) (cs : List ℕ) → NoDigit cs → read_digits a k cs ≡ (a, k, cs)
read_digits_end a k [] h = refl
read_digits_end a k (c ∷ cs) h = rw h refl

pub read_digits_next :
    (a k d : ℕ) (cs : List ℕ)
    → d < 10
    → read_digits a k ((48 + d) ∷ cs) ≡ read_digits (10 * a + d) (k + 1) cs
read_digits_next a k d cs h =
    let digit : is_digit (48 + d) ≡ true = ground arith in
    rw digit (ap (λ (x : ℕ). read_digits (10 * a + x) (k + 1) cs) (omega arith))

read_digits-digits_from :
    (fuel n : ℕ) (out : List ℕ)
    → n < fuel
    → (k : ℕ) × (read_digits 0 0 (digits_from fuel n out) ≡ read_digits n k out)
unfolding digits_from
read_digits-digits_from zero n out h = absurd (omega arith)
read_digits-digits_from (suc fuel) n out h = elim (Bool-cases (ltb n 10)) [
  | inl e ↦ (
    1,
    rw e (
        read_digits_next 0 0 n out (ground arith)
        ∙ ap (λ (x : ℕ). read_digits x 1 out) (omega arith)),
  )
  | inr e ↦
      let (k, back) = read_digits-digits_from fuel (n / 10) ((48 + n % 10) ∷ out) (ground arith) in
      (
        k + 1,
        rw e (
            back
            ∙ read_digits_next (n / 10) k (n % 10) out (omega arith)
            ∙ ap (λ (x : ℕ). read_digits x (k + 1) out) (omega arith)),
      )
]

-- the first digit of a number that is not 0
pub digits_from_head :
    (fuel n : ℕ) (out : List ℕ)
    → 0 < n
    → n < fuel
    → (c : ℕ) × (cs : List ℕ) × (digits_from fuel n out ≡ c ∷ cs) × (48 < c) × (c < 58)
unfolding digits_from
digits_from_head zero n out p h = absurd (omega arith)
digits_from_head (suc fuel) n out p h = elim (Bool-cases (ltb n 10)) [
  | inl e ↦ (48 + n, out, rw e refl, omega arith, ground arith)
  | inr e ↦
      let (c, cs, q, l, u) =
        digits_from_head fuel (n / 10) ((48 + n % 10) ∷ out) (ground arith) (ground arith) in
      (c, cs, rw e q, l, u)
]

read_whole_digits :
    (cs rest : List ℕ) (c n k : ℕ) (tail : List ℕ)
    → cs ≡ c ∷ tail
    → 48 < c
    → c < 58
    → read_digits 0 0 cs ≡ (n, k, rest)
    → read_whole cs ≡ some (n, rest)
read_whole_digits [] rest c n k tail e l u h = absurd (cc)
read_whole_digits (x ∷ xs) rest c n k tail e l u h =
    let same : x ≡ c = cc in
    let nonzero : nat_eq x 48 ≡ false = ground arith in
    let digit : is_digit x ≡ true = ground arith in
    rw (nonzero, digit) (ap (λ (t : ℕ × ℕ × List ℕ). some (t.0, t.2)) (rw digit at h))

pub read_whole-digits :
    (n : ℕ) (out : List ℕ) → NoDigit out → read_whole (digits n out) ≡ some (n, out)
unfolding digits
read_whole-digits zero out h = unfold digits_from in refl
read_whole-digits (suc n) out h =
    let (c, cs, e, l, u) = digits_from_head (suc n + 1) (suc n) out (omega arith) (omega arith) in
    let (k, back) = read_digits-digits_from (suc n + 1) (suc n) out (omega arith) in
    read_whole_digits _ out c (suc n) k cs e l u (back ∙ read_digits_end (suc n) k out h)
