-- ===== src/Sorting.antt =====
-- Sorting by a number, as `sorted` with a key (central_server/metrics/scoring.py) and ORDER BY
-- (central_server/match/store.py, central_server/metrics/store.py) do it: entries with one key keep their order.
pub mod Laws
use agentic_juggling.Prelude.{
  Bool, true, false, ◌≡◌, List, [], ◌∷◌, arith, if◌then◌else◌, nat_eq, ◌+◌,
}
use agentic_juggling.Prelude.Int.{ℤ, ltb_ℤ, pos_part, neg_part}

-- whether an entry with the one key has to stand before one with the other
abbrev pub rising : ℤ → ℤ → Bool
rising a b = ltb_ℤ a b

abbrev pub falling : ℤ → ℤ → Bool
falling a b = ltb_ℤ b a

-- the two keys are the same number
abbrev pub same_key : ℤ → ℤ → Bool
same_key a b = nat_eq (pos_part a + neg_part b) (pos_part b + neg_part a)

-- What sorting needs of such a test.
pub record Order (first : ℤ → ℤ → Bool) : Type 0 where
  pub one_way : (a b : ℤ) → first a b ≡ true → first b a ≡ false
  pub through : (a b c : ℤ) → first a b ≡ false → first b c ≡ false → first a c ≡ false
  pub alike : (z a b : ℤ) → same_key z a ≡ true → same_key z b ≡ true → first a b ≡ false

pub rising-Order : Order rising
rising-Order = record {
  one_way = λ a b h. ground arith;
  through = λ a b c h k. ground arith;
  alike = λ z a b h k. ground arith;
}

pub falling-Order : Order falling
falling-Order = record {
  one_way = λ a b h. ground arith;
  through = λ a b c h k. ground arith;
  alike = λ z a b h k. ground arith;
}

module _ {ℓ} {A : Type ℓ} (first : ℤ → ℤ → Bool) (key : A → ℤ) where
  -- into a sorted list, before the first entry that need not stand before it
  unfoldable pub insert_by : A → List A → List A
  insert_by x [] = x ∷ []
  insert_by x (y ∷ ys) =
      let later = y ∷ insert_by x ys in if first (key y) (key x) then later else x ∷ y ∷ ys

  unfoldable pub sort_by : List A → List A
  unfolding insert_by
  sort_by [] = []
  sort_by (x ∷ xs) = insert_by x (sort_by xs)
