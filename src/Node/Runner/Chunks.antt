-- ===== src/Node/Runner/Chunks.antt =====
-- TOKEN_RE on a text that goes on: matches do not reach over a character that no part of the pattern takes.
use mathlib.Core.List.{map-append}
use mathlib.Core.Path.{subst}
use agentic_juggling.Prelude.{
  ℕ, zero, suc, ◌+◌, ◌-◌, ◌≤◌, Bool, false, ◌≡◌, refl, ◌∙◌, sym, ap, Option, none, some, List, [],
  ◌∷◌, ◌++◌, arith, length, length-append, take, map, Bool-cases, inl, inr, Option-cases,
}
use agentic_juggling.Node.Runner.Pattern.{
  Re, Found, each, after_many, rests, found_at, first_end, first_found, match, find_groups,
}

-- no class of the pattern takes the character
abbrev pub Avoids : Re → ℕ → Type 0
Avoids (Re.class p) x = p x ≡ false
Avoids (Re.seq r t) x = Avoids r x × Avoids t x
Avoids (Re.alt r t) x = Avoids r x × Avoids t x
Avoids (Re.maybe r) x = Avoids r x
Avoids (Re.many p) x = p x ≡ false

module _ (x : ℕ) (v : List ℕ) where
  -- a rest of the text, with what follows
  abbrev more : List (List ℕ) → List (List ℕ)
  more = map (λ t. t ++ x ∷ v)

  each-more :
      (f : List ℕ → List (List ℕ)) (ss : List (List ℕ))
      → ((s : List ℕ) → f (s ++ x ∷ v) ≡ more (f s))
      → each f (more ss) ≡ more (each f ss)
  each-more f [] h = refl
  each-more f (s ∷ ss) h =
      rw (h s, each-more f ss h, map-append (λ t. t ++ x ∷ v) (f s) (each f ss)) refl

  after_many-more :
      (p : ℕ → Bool) (s : List ℕ) → p x ≡ false → after_many p (s ++ x ∷ v) ≡ more (after_many p s)
  after_many-more p [] h = rw h refl
  after_many-more p (c ∷ cs) h = elim (Bool-cases (p c)) [
    | inl e ↦
        rw
          (
            e,
            after_many-more p cs h,
            map-append (λ t. t ++ x ∷ v) (after_many p cs) ((c ∷ cs) ∷ []),
          )
          refl
    | inr e ↦ rw e refl
  ]

  pub rests-more : (r : Re) (s : List ℕ) → Avoids r x → rests r (s ++ x ∷ v) ≡ more (rests r s)
  unfolding rests
  rests-more (Re.class p) [] h = rw h refl
  rests-more (Re.class p) (c ∷ cs) h = elim (Bool-cases (p c)) [
    | inl e ↦ rw e refl
    | inr e ↦ rw e refl
  ]
  rests-more (Re.seq r t) s h =
      ap (each (rests t)) (rests-more r s h.0)
      ∙ each-more (rests t) (rests r s) (λ u. rests-more t u h.1)
  rests-more (Re.alt r t) s h =
      rw
        (
          rests-more r s h.0,
          rests-more t s h.1,
          map-append (λ t. t ++ x ∷ v) (rests r s) (rests t s),
        )
        refl
  rests-more (Re.maybe r) s h =
      rw (rests-more r s h, map-append (λ t. t ++ x ∷ v) (rests r s) (s ∷ [])) refl
  rests-more (Re.many p) [] h = rw h refl
  rests-more (Re.many p) (c ∷ cs) h = elim (Bool-cases (p c)) [
    | inl e ↦ rw (e, after_many-more p cs h) refl
    | inr e ↦ rw e refl
  ]

  take_more : (n : ℕ) (s : List ℕ) → n ≤ length s → take n (s ++ x ∷ v) ≡ take n s
  take_more zero s h = refl
  take_more (suc n) [] h = absurd (omega arith)
  take_more (suc n) (c ∷ cs) h = ap (λ t. c ∷ t) (take_more n cs (omega arith))

  longer : (s : List ℕ) → length (s ++ x ∷ v) ≡ length s + length (x ∷ v)
  longer s = length-append s (x ∷ v)

  same_length : (s to : List ℕ) → length (s ++ x ∷ v) - length (to ++ x ∷ v) ≡ length s - length to
  same_length s to = omega (arith, longer s, longer to)

  found_at-more :
      (s from to : List ℕ)
      → found_at (s ++ x ∷ v) (from ++ x ∷ v) (to ++ x ∷ v) ≡ found_at s from to
  found_at-more s from to =
      rw
        (
          same_length s to,
          same_length from to,
          take_more (length from - length to) from (omega arith),
        )
        refl

  first_end-more :
      (s from : List ℕ) (tos : List (List ℕ)) {a b : Option Found}
      → a ≡ b
      → first_end (s ++ x ∷ v) (from ++ x ∷ v) (more tos) a ≡ first_end s from tos b
  first_end-more s from [] h = h
  first_end-more s from (to ∷ tos) h = ap some (found_at-more s from to)

  first_found-more :
      (g : Re) (s : List ℕ) (froms : List (List ℕ))
      → Avoids g x
      → first_found g (s ++ x ∷ v) (more froms) ≡ first_found g s froms
  first_found-more g s [] h = refl
  first_found-more g s (from ∷ froms) h =
      ap
        (λ tos.
          first_end (s ++ x ∷ v) (from ++ x ∷ v) tos (first_found g (s ++ x ∷ v) (more froms)))
        (rests-more g from h)
      ∙ first_end-more s from (rests g from) (first_found-more g s froms h)

  match-more :
      (before group : Re) (s : List ℕ)
      → Avoids before x
      → Avoids group x
      → match before group (s ++ x ∷ v) ≡ match before group s
  unfolding match
  match-more before group s h k =
      ap (first_found group (s ++ x ∷ v)) (rests-more before s h)
      ∙ first_found-more group s (rests before s) k

-- a match is no longer than the text
abbrev Fits : List ℕ → Option Found → Type 0
Fits s none = Unit
Fits s (some m) = m.size ≤ length s

first_end-Fits :
    (s from : List ℕ) (tos : List (List ℕ)) (later : Option Found)
    → Fits s later
    → Fits s (first_end s from tos later)
first_end-Fits s from [] later h = h
first_end-Fits s from (to ∷ tos) later h = omega arith

first_found-Fits : (g : Re) (s : List ℕ) (froms : List (List ℕ)) → Fits s (first_found g s froms)
first_found-Fits g s [] = tt
first_found-Fits g s (from ∷ froms) =
    first_end-Fits s from (rests g from) (first_found g s froms) (first_found-Fits g s froms)

module _ (before group : Re) (x : ℕ) (v : List ℕ) where
  find_groups-none :
      (c : ℕ) (cs : List ℕ)
      → match before group (c ∷ cs) ≡ none
      → find_groups before group 0 (c ∷ cs) ≡ find_groups before group 0 cs
  unfolding find_groups
  find_groups-none c cs h = ground (arith, h)

  find_groups-some :
      (c : ℕ) (cs : List ℕ) (m : Found)
      → match before group (c ∷ cs) ≡ some m
      → find_groups before group 0 (c ∷ cs) ≡ m.group ∷ find_groups before group (m.size - 1) cs
  unfolding find_groups
  find_groups-some c cs m h = ground (arith, h)

  match-Fits : (s : List ℕ) (m : Found) → match before group s ≡ some m → m.size ≤ length s
  unfolding match
  match-Fits s m h = subst (Fits s) h (first_found-Fits group s (rests before s))

  -- The matches of a text that goes on after a character that the pattern avoids: those of the text, and those of
  -- what follows.
  pub find_groups-append :
      (skip : ℕ) (u : List ℕ)
      → Avoids before x
      → Avoids group x
      → match before group [] ≡ none
      → skip ≤ length u
      → find_groups before group skip (u ++ x ∷ v)
        ≡ find_groups before group skip u ++ find_groups before group 0 v
  unfolding find_groups
  find_groups-append zero [] h k e l = find_groups-none x v (match-more x v before group [] h k ∙ e)
  find_groups-append (suc skip) [] h k e l = absurd (omega arith)
  find_groups-append (suc skip) (c ∷ cs) h k e l = find_groups-append skip cs h k e (omega arith)
  find_groups-append zero (c ∷ cs) h k e l = elim (Option-cases (match before group (c ∷ cs))) [
    | inl i ↦
        find_groups-none c (cs ++ x ∷ v) (match-more x v before group (c ∷ cs) h k ∙ i)
        ∙ find_groups-append 0 cs h k e (omega arith)
        ∙ ap (λ gs. gs ++ find_groups before group 0 v) (sym (find_groups-none c cs i))
    | inr (m, i) ↦
        find_groups-some c (cs ++ x ∷ v) m (match-more x v before group (c ∷ cs) h k ∙ i)
        ∙ ap (λ gs. m.group ∷ gs)
            (find_groups-append (m.size - 1) cs h k e (omega (arith, match-Fits (c ∷ cs) m i)))
        ∙ ap (λ gs. gs ++ find_groups before group 0 v) (sym (find_groups-some c cs m i))
  ]
