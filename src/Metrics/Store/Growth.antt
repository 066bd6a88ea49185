-- ===== src/Metrics/Store/Growth.antt =====
-- What a new row does to the totals of central_server/metrics/store.py.
use agentic_juggling.Prelude.{
  String, Bool, ◌≡◌, refl, ◌∙◌, ap, some, List, [], ◌∷◌, ◌++◌, arith, ◌==◌, ◌&&◌, eq_iff,
  if◌then◌else◌, or_default, keep, Bool-cases, inl, inr,
}
use agentic_juggling.Prelude.Dict.{Dict, lookup, insert, lookup-insert}
use agentic_juggling.Metrics.Store.{
  MetricRow, MetricsStore, Total, zero_total, add_row, group_rows, insert_metric,
  get_totals_per_node,
}

keep-snoc :
    (q : MetricRow → Bool) (rs : List MetricRow) (r : MetricRow)
    → keep q (rs ++ r ∷ []) ≡ (if q r then keep q rs ++ r ∷ [] else keep q rs)
keep-snoc q [] r = ground arith
keep-snoc q (x ∷ rs) r = elim (Bool-cases (q r)) [
  | inl e ↦ ground (arith, e, keep-snoc q rs r)
  | inr e ↦ ground (arith, e, keep-snoc q rs r)
]

group_rows-snoc :
    (rs : List MetricRow) (r : MetricRow) (acc : Dict Total)
    → group_rows (rs ++ r ∷ []) acc
      ≡ insert r.node_id
          (add_row r (or_default (lookup r.node_id (group_rows rs acc)) zero_total))
          (group_rows rs acc)
unfolding group_rows
group_rows-snoc [] r acc = refl
group_rows-snoc (x ∷ rs) r acc =
    group_rows-snoc rs r
      (insert x.node_id (add_row x (or_default (lookup x.node_id acc) zero_total)) acc)

-- the total of the row's node in the row's match grows by the row, and no other
pub get_totals_per_node-insert_metric :
    (m j : String) (r : MetricRow) (s : MetricsStore)
    → lookup j (get_totals_per_node m (insert_metric r s)) ≡ (
        if (r.match_id == m) && (r.node_id == j)
        then some (
            add_row r (or_default (lookup r.node_id (get_totals_per_node r.match_id s)) zero_total))
        else lookup j (get_totals_per_node m s))
unfolding get_totals_per_node insert_metric
get_totals_per_node-insert_metric m j r s = elim (Bool-cases (r.match_id == m)) [
  | inl e ↦
      let same : r.match_id ≡ m = (eq_iff r.match_id m).0 e in
      let rows = keep (λ x. x.match_id == m) s.metrics in
      let new = add_row r (or_default (lookup r.node_id (group_rows rows [])) zero_total) in
      ap (λ l. lookup j (group_rows l []))
        (keep-snoc (λ x. x.match_id == m) s.metrics r
          ∙ ap (λ b. if b then rows ++ r ∷ [] else rows) e)
      ∙ ap (lookup j) (group_rows-snoc rows r [])
      ∙ lookup-insert r.node_id j new (group_rows rows [])
      ∙ rw (e, same) refl
  | inr e ↦
      let rows = keep (λ x. x.match_id == m) s.metrics in
      ap (λ l. lookup j (group_rows l []))
        (keep-snoc (λ x. x.match_id == m) s.metrics r
          ∙ ap (λ b. if b then rows ++ r ∷ [] else rows) e)
      ∙ rw e refl
]
