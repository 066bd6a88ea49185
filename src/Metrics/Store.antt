-- ===== src/Metrics/Store.antt =====
-- central_server/metrics/store.py: the time series of metric rows and hook events, oldest first.
pub mod Growth
pub mod Totals
pub mod Series
use agentic_juggling.Prelude.{
  ℕ, ◌+◌, String, Bool, List, [], ◌∷◌, ◌++◌, ◌==◌, if◌then◌else◌, keep, or_default,
}
use agentic_juggling.Prelude.Int.{ℤ, pos, ◌+ℤ◌}
use agentic_juggling.Sorting.{rising, sort_by}
use agentic_juggling.Prelude.Dict.{Dict, lookup, insert}

pub record MetricRow : Type 0 where
  pub match_id : String
  pub node_id : String
  pub terminal_id : String
  pub t_rel : ℤ
  pub idle_seconds : ℤ
  pub tokens_used : ℤ

pub record HookEvent : Type 0 where
  pub match_id : String
  pub node_id : String
  pub t_rel : ℤ
  pub event_type : String
  pub payload_json : String

pub record MetricsStore : Type 0 where
  pub metrics : List MetricRow
  pub hook_events : List HookEvent

-- the tables after `init` on a new database
unfoldable pub new_metrics : MetricsStore
new_metrics = record { metrics = []; hook_events = [] }

unfoldable pub insert_metric : MetricRow → MetricsStore → MetricsStore
insert_metric row s = record s { metrics = s.metrics ++ row ∷ [] }

unfoldable pub insert_hook : HookEvent → MetricsStore → MetricsStore
insert_hook event s = record s { hook_events = s.hook_events ++ event ∷ [] }

-- `WHERE match_id = ? ORDER BY t_rel ASC`; rows of one time stay in the order of their insertion
unfoldable pub get_metrics_for_match : String → MetricsStore → List MetricRow
get_metrics_for_match match_id s =
    sort_by rising (λ r. r.t_rel) (keep (λ r. r.match_id == match_id) s.metrics)

unfoldable pub get_hooks_for_match : String → MetricsStore → List HookEvent
get_hooks_for_match match_id s =
    sort_by rising (λ h. h.t_rel) (keep (λ h. h.match_id == match_id) s.hook_events)

pub record Total : Type 0 where
  pub tokens_used : ℤ
  pub idle_seconds : ℤ

abbrev pub zero_total : Total
zero_total = record { tokens_used = pos 0; idle_seconds = pos 0 }

-- a group's sums with one more row
abbrev pub add_row : MetricRow → Total → Total
add_row row t = record {
  tokens_used = t.tokens_used +ℤ row.tokens_used;
  idle_seconds = t.idle_seconds +ℤ row.idle_seconds;
}

unfoldable pub group_rows : List MetricRow → Dict Total → Dict Total
group_rows [] acc = acc
group_rows (row ∷ rows) acc =
    group_rows rows
      (insert row.node_id (add_row row (or_default (lookup row.node_id acc) zero_total)) acc)

-- `WHERE match_id = ? GROUP BY node_id`, with the groups in the order in which they begin
unfoldable pub get_totals_per_node : String → MetricsStore → Dict Total
unfolding group_rows
get_totals_per_node match_id s = group_rows (keep (λ r. r.match_id == match_id) s.metrics) []
