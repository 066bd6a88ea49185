-- ===== src/Node/Runner/Pattern.antt =====
-- The regular expressions of Python's `re` as node/agent_runner.py uses them: backtracking, with what
-- each part consumes tried in order of preference.
use agentic_juggling.Prelude.{
  ℕ, zero, suc, ◌-◌, Bool, Option, none, some, List, [], ◌∷◌, ◌++◌, length, take, if◌then◌else◌,
}

-- a character of a class, one after the other, the first or else the second, one or none, one or more
pub data Re : Type 0 where
  class : (ℕ → Bool) → Re
  seq : Re → Re → Re
  alt : Re → Re → Re
  maybe : Re → Re
  many : (ℕ → Bool) → Re

abbrev pub each : (List ℕ → List (List ℕ)) → List (List ℕ) → List (List ℕ)
each f [] = []
each f (s ∷ ss) = f s ++ each f ss

-- what can be left after a greedy `[...]*`, the least first
abbrev pub after_many : (ℕ → Bool) → List ℕ → List (List ℕ)
after_many p [] = [] ∷ []
after_many p (c ∷ cs) =
    let rest = after_many p cs in if p c then rest ++ (c ∷ cs) ∷ [] else (c ∷ cs) ∷ []

-- what can be left of a text after a match at its start, the preferred first
unfoldable pub rests : Re → List ℕ → List (List ℕ)
rests (Re.class p) [] = []
rests (Re.class p) (c ∷ cs) = if p c then cs ∷ [] else []
rests (Re.seq r t) s = each (rests t) (rests r s)
rests (Re.alt r t) s = rests r s ++ rests t s
rests (Re.maybe r) s = rests r s ++ s ∷ []
rests (Re.many p) [] = []
rests (Re.many p) (c ∷ cs) = if p c then after_many p cs else []

-- a match at the start of a text: the text of its only group, which ends the pattern, and the match's length
pub record Found : Type 0 where
  pub group : List ℕ
  pub size : ℕ

abbrev pub found_at : List ℕ → List ℕ → List ℕ → Found
found_at s from to = record {
  group = take (length from - length to) from;
  size = length s - length to;
}

abbrev pub first_end : List ℕ → List ℕ → List (List ℕ) → Option Found → Option Found
first_end s from [] later = later
first_end s from (to ∷ _) later = some (found_at s from to)

abbrev pub first_found : Re → List ℕ → List (List ℕ) → Option Found
first_found g s [] = none
first_found g s (from ∷ more) = first_end s from (rests g from) (first_found g s more)

-- `re.compile(r"...(...)").match(s)`, of the part before the group and the group
unfoldable pub match : Re → Re → List ℕ → Option Found
unfolding rests
match before group s = first_found group s (rests before s)

-- The groups of `finditer`: from each place on the first match that starts there, and on from its end; no match of
-- the patterns used is empty. The number counts the characters of the last match that are still to pass.
unfoldable pub find_groups : Re → Re → ℕ → List ℕ → List (List ℕ)
unfolding match
find_groups before group skip [] = []
find_groups before group (suc skip) (c ∷ cs) = find_groups before group skip cs
find_groups before group zero (c ∷ cs) = elim (match before group (c ∷ cs)) [
  | none ↦ find_groups before group 0 cs
  | some m ↦ m.group ∷ find_groups before group (m.size - 1) cs
]
