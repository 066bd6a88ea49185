-- ===== src/Match/Store/Listing.antt =====
-- The list of all matches, `list_all` of central_server/match/store.py.
use mathlib.Core.List.{Perm}
use agentic_juggling.Prelude.{String, ◌≡◌, refl, none, [], ◌∷◌, ◌++◌, arith, Option-cases, inl, inr}
use agentic_juggling.Prelude.Int.{ℤ}
use agentic_juggling.Prelude.Dict.{Dict, lookup, insert, values}
use agentic_juggling.Prelude.Outcome.{ok}
use agentic_juggling.Sorting.{falling, falling-Order}
use agentic_juggling.Sorting.Laws.{Sorted, sort_by-Sorted, sort_by-snoc}
use agentic_juggling.Match.Config.{MatchConfig}
use agentic_juggling.Match.Store.{MatchRecord, MatchStore, new_record, create, list_all}

abbrev pub created : MatchRecord → ℤ
created m = m.created_at

values-insert :
    (k : String) (v : MatchRecord) (d : Dict MatchRecord)
    → lookup k d ≡ none
    → values (insert k v d) ≡ values d ++ v ∷ []
unfolding lookup insert
values-insert k v [] h = refl
values-insert k v ((j, w) ∷ d) h = ground (arith, values-insert k v d)

-- A match that is created joins the list of all matches, and the list is in order, the newest first.
list_all-create :
    (config : MatchConfig) (s : MatchStore) {m : MatchRecord}
    → (create config s).0 ≡ ok m
    → let s' = (create config s).1 in
      Sorted falling created (list_all s') × Perm (list_all s') (m ∷ list_all s)
unfolding create list_all
list_all-create config s {m} h = elim (Option-cases (lookup config.match_id s.rows)) [
  | inl e ↦
      let row = new_record config in
      let same : row ≡ m = ground (arith, h) in
      rw (e, values-insert config.match_id row s.rows e)
        (
          sort_by-Sorted falling falling-Order created (values s.rows ++ row ∷ []),
          rw (← same) (sort_by-snoc falling created row (values s.rows)),
        )
  | inr (row, e) ↦ absurd (ground (arith, h))
]
