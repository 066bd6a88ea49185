-- ===== src/Metrics/Store/Series.antt =====
-- The time series of a match, `get_metrics_for_match` of central_server/metrics/store.py.
use mathlib.Core.List.{Perm}
use mathlib.Core.List.Perm
use agentic_juggling.Prelude.{
  String, Bool, true, false, ◌≡◌, refl, List, [], ◌∷◌, ◌++◌, arith, ◌==◌, keep, if◌then◌else◌,
}
use agentic_juggling.Prelude.Int.{ℤ}
use agentic_juggling.Sorting.{rising, rising-Order, sort_by}
use agentic_juggling.Sorting.Laws.{Sorted, sort_by-Sorted, sort_by-snoc}
use agentic_juggling.Metrics.Store.{MetricRow, MetricsStore, insert_metric, get_metrics_for_match}

abbrev pub time : MetricRow → ℤ
time r = r.t_rel

abbrev of_match : String → MetricRow → Bool
of_match m r = r.match_id == m

keep-snoc :
    (q : MetricRow → Bool) (rs : List MetricRow) (r : MetricRow)
    → keep q (rs ++ r ∷ []) ≡ (if q r then keep q rs ++ r ∷ [] else keep q rs)
keep-snoc q [] r = refl
keep-snoc q (s ∷ rs) r = ground (arith, keep-snoc q rs r)

joined :
    (b : Bool) (r : MetricRow) (rs : List MetricRow)
    → Perm
        (sort_by rising time (if b then rs ++ r ∷ [] else rs))
        (if b then r ∷ sort_by rising time rs else sort_by rising time rs)
joined true r rs = sort_by-snoc rising time r rs
joined false r rs = Perm.rfl

-- The series of a match is in the order of time; a row that is inserted joins the series of its match, and the
-- series of every other match is as before.
get_metrics-insert_metric :
    (m : String) (r : MetricRow) (s : MetricsStore)
    → let series = get_metrics_for_match m (insert_metric r s) in
      Sorted rising time series
      × Perm series
          (if r.match_id == m then r ∷ get_metrics_for_match m s else get_metrics_for_match m s)
unfolding get_metrics_for_match insert_metric
get_metrics-insert_metric m r s = (
  sort_by-Sorted rising rising-Order time (keep (of_match m) (s.metrics ++ r ∷ [])),
  rw (keep-snoc (of_match m) s.metrics r) (joined (of_match m r) r (keep (of_match m) s.metrics)),
)
