-- ===== src/Sorting/Laws.antt =====
-- What a sorted list holds, and in which order.
use mathlib.Core.List.{Perm, perm_append_singleton}
use mathlib.Core.List.Perm
use agentic_juggling.Prelude.{
  Bool, false, ◌≡◌, refl, ◌∙◌, ap, List, [], ◌∷◌, ◌++◌, arith, if◌then◌else◌, All, keep, Bool-cases,
  inl, inr,
}
use agentic_juggling.Prelude.Int.{ℤ}
use agentic_juggling.Sorting.{Order, same_key, insert_by, sort_by}

-- no entry has to stand before one that stands before it
abbrev pub Sorted {ℓ} : {A : Type ℓ} → (ℤ → ℤ → Bool) → (A → ℤ) → List A → Type 0
Sorted first key [] = Unit
Sorted first key (x ∷ xs) = All (λ y. first (key y) (key x) ≡ false) xs × Sorted first key xs

module _ {ℓ} {A : Type ℓ} (first : ℤ → ℤ → Bool) (key : A → ℤ) where
  insert_by-perm : (x : A) (xs : List A) → Perm (insert_by first key x xs) (x ∷ xs)
  unfolding insert_by
  insert_by-perm x [] = Perm.rfl
  insert_by-perm x (y ∷ ys) = elim (Bool-cases (first (key y) (key x))) [
    | inl e ↦ rw e (Perm.trans (Perm.cons y (insert_by-perm x ys)) (Perm.swap x y ys))
    | inr e ↦ rw e Perm.rfl
  ]

  pub sort_by-perm : (xs : List A) → Perm (sort_by first key xs) xs
  unfolding sort_by
  sort_by-perm [] = Perm.rfl
  sort_by-perm (x ∷ xs) =
      Perm.trans (insert_by-perm x (sort_by first key xs)) (Perm.cons x (sort_by-perm xs))

  -- One more entry at the end joins the sorted list.
  pub sort_by-snoc :
      (x : A) (xs : List A) → Perm (sort_by first key (xs ++ x ∷ [])) (x ∷ sort_by first key xs)
  sort_by-snoc x xs =
      Perm.trans (sort_by-perm (xs ++ x ∷ []))
        (Perm.trans (perm_append_singleton x xs) (Perm.cons x (Perm.symm (sort_by-perm xs))))

module _ {ℓ} {A : Type ℓ} (first : ℤ → ℤ → Bool) (o : Order first) (key : A → ℤ) where
  All-through :
      (a b : ℤ) (xs : List A)
      → first b a ≡ false
      → All (λ y. first (key y) b ≡ false) xs
      → All (λ y. first (key y) a ≡ false) xs
  All-through a b [] h k = tt
  All-through a b (x ∷ xs) h k = (o.through (key x) b a k.0 h, All-through a b xs h k.1)

  All-insert_by :
      (a : ℤ) (x : A) (xs : List A)
      → first (key x) a ≡ false
      → All (λ y. first (key y) a ≡ false) xs
      → All (λ y. first (key y) a ≡ false) (insert_by first key x xs)
  unfolding insert_by
  All-insert_by a x [] h k = (h, tt)
  All-insert_by a x (y ∷ ys) h k = elim (Bool-cases (first (key y) (key x))) [
    | inl e ↦ rw e (k.0, All-insert_by a x ys h k.1)
    | inr e ↦ rw e (h, k)
  ]

  insert_by-Sorted :
      (x : A) (xs : List A) → Sorted first key xs → Sorted first key (insert_by first key x xs)
  unfolding insert_by
  insert_by-Sorted x [] h = (tt, tt)
  insert_by-Sorted x (y ∷ ys) h = elim (Bool-cases (first (key y) (key x))) [
    | inl e ↦
        rw e
          (All-insert_by (key y) x ys (o.one_way (key y) (key x) e) h.0, insert_by-Sorted x ys h.1)
    | inr e ↦ rw e ((e, All-through (key x) (key y) ys e h.0), h)
  ]

  pub sort_by-Sorted : (xs : List A) → Sorted first key (sort_by first key xs)
  unfolding sort_by
  sort_by-Sorted [] = tt
  sort_by-Sorted (x ∷ xs) = insert_by-Sorted x (sort_by first key xs) (sort_by-Sorted xs)

  keep-insert_by :
      (z : ℤ) (x : A) (xs : List A)
      → keep (λ a. same_key z (key a)) (insert_by first key x xs)
        ≡ keep (λ a. same_key z (key a)) (x ∷ xs)
  unfolding insert_by
  keep-insert_by z x [] = refl
  keep-insert_by z x (y ∷ ys) = ground (arith, keep-insert_by z x ys, o.alike z (key y) (key x))

  pub keep-sort_by :
      (z : ℤ) (xs : List A)
      → keep (λ a. same_key z (key a)) (sort_by first key xs) ≡ keep (λ a. same_key z (key a)) xs
  unfolding sort_by
  keep-sort_by z [] = refl
  keep-sort_by z (x ∷ xs) =
      keep-insert_by z x (sort_by first key xs)
      ∙ ap (λ (l : List A). if same_key z (key x) then x ∷ l else l) (keep-sort_by z xs)
