-- ===== src/Node/Text/Distinct.antt =====
-- The terminal ids of a schedule are distinct: a decimal number is read back from its digits.
use Prim.Native.Char.{code}
use Prim.Native.String
use text.Mathlib.TextLemmas.{nil-append, cons-append}
use agentic_juggling.Prelude.{
  ℕ, zero, suc, ◌+◌, ◌-◌, ◌*◌, ◌/◌, ◌%◌, ◌<◌, ◌≡◌, refl, ◌∙◌, sym, ap, String, ltb, Bool-cases, inl,
  inr, arith,
}
use agentic_juggling.Node.Text.{digit, decimal_from, decimal}

-- the number behind `acc` whose digits go on with the text
value : ℕ → String → ℕ
value acc String.[] = acc
value acc (String.◌∷◌ c s) = value (10 * acc + (code c - 48)) s

value-append : (acc : ℕ) (s t : String) → value acc (String.◌++◌ s t) ≡ value (value acc s) t
unfolding value
value-append acc String.[] t = ap (value acc) (nil-append t)
value-append acc (String.◌∷◌ c s) t =
    ap (value acc) (cons-append c s t) ∙ value-append (10 * acc + (code c - 48)) s t

value-digit : (acc d : ℕ) → d < 10 → value acc (digit d) ≡ 10 * acc + d
unfolding value digit
value-digit acc zero h = refl
value-digit acc (suc zero) h = refl
value-digit acc (suc (suc zero)) h = refl
value-digit acc (suc (suc (suc zero))) h = refl
value-digit acc (suc (suc (suc (suc zero)))) h = refl
value-digit acc (suc (suc (suc (suc (suc zero))))) h = refl
value-digit acc (suc (suc (suc (suc (suc (suc zero)))))) h = refl
value-digit acc (suc (suc (suc (suc (suc (suc (suc zero))))))) h = refl
value-digit acc (suc (suc (suc (suc (suc (suc (suc (suc zero)))))))) h = refl
value-digit acc (suc (suc (suc (suc (suc (suc (suc (suc (suc zero))))))))) h = refl
value-digit acc (suc (suc (suc (suc (suc (suc (suc (suc (suc (suc n)))))))))) h =
    absurd (omega arith)

value-decimal_from : (fuel n : ℕ) → n < fuel → value 0 (decimal_from fuel n) ≡ n
unfolding decimal_from
value-decimal_from zero n h = absurd (omega arith)
value-decimal_from (suc fuel) n h = elim (Bool-cases (ltb n 10)) [
  | inl e ↦ rw e (value-digit 0 n (ground arith) ∙ omega arith)
  | inr e ↦ rw e (
      value-append 0 (decimal_from fuel (n / 10)) (digit (n % 10))
      ∙ (value-digit (value 0 (decimal_from fuel (n / 10))) (n % 10) (omega arith)
          ∙ omega (arith, value-decimal_from fuel (n / 10) (ground arith))))
]

pub decimal_injective : (m n : ℕ) → decimal m ≡ decimal n → m ≡ n
unfolding decimal
decimal_injective m n h =
    sym (value-decimal_from (m + 1) m (omega arith))
    ∙ (ap (value 0) h ∙ value-decimal_from (n + 1) n (omega arith))
