-- ===== src/Server/Router/Ingest.antt =====
-- Metrics and hooks, `_handle_metrics` and `_handle_hook` of central_server/network/router.py with
-- `on_metrics` and `on_hook` of central_server/metrics/ingester.py.
use agentic_juggling.Prelude.{
  String, ◌==◌, ◌&&◌, if◌then◌else◌, ◌∙◌, ap, ℕ, Bool, ◌≡◌, refl, none, some, [], ◌∷◌, ◌++◌, arith,
  or_default,
}
use agentic_juggling.Prelude.Int.{ℤ, pos, ◌-ℤ◌, ◌+ℤ◌}
use agentic_juggling.Primitives.{Primitives}
use agentic_juggling.Registry
use agentic_juggling.Registry.{NodeRecord}
use agentic_juggling.Match.Store
use agentic_juggling.Match.Store.{MatchRecord}
use agentic_juggling.Prelude.Dict.{lookup}
use agentic_juggling.Metrics.Store.{insert_metric, get_totals_per_node, zero_total}
use agentic_juggling.Metrics.Store.Growth.{get_totals_per_node-insert_metric}
use agentic_juggling.Metrics.Scoring.{compute, serialize}
use agentic_juggling.Broadcast.{broadcast}
use agentic_juggling.Server.{Server}
use agentic_juggling.Server.Wire.{Payload}
use agentic_juggling.Server.Router.{
  handle_metrics, handle_hook, on_metrics, on_hook, push_scores, metric_row, started,
}

module _ (p : Primitives) (alive : ℕ → Bool) (now : ℤ) (m : Payload) (s : Server) where
  -- A metric of a registered node in a match that has begun appends one row, with the terminal, idle time and tokens of
  -- the message, zero where it has none, and with its timestamp, or the time of its arrival, relative to the start of the
  -- match. The total of this node in this match, as `get_totals_per_node` gives it, grows by the idle time and the
  -- tokens, and no other total changes. The board that counts the row is pushed to the match's subscribers.
  pub handle_metrics_stored :
      {n : NodeRecord} {row : MatchRecord} {t0 : ℤ}
      → Registry.get (or_default m.node_id "") s.registry ≡ some n
      → Store.get (or_default m.match_id "") s.store ≡ some row
      → row.t0 ≡ some t0
      → let match_id = or_default m.match_id "" in
        let node_id = or_default m.node_id "" in
        let idle = or_default m.idle_seconds (pos 0) in
        let tokens = or_default m.tokens_used (pos 0) in
        let before =
          or_default (lookup node_id (get_totals_per_node match_id s.metrics)) zero_total in
        let s' = handle_metrics p alive now m s in
        (s'.metrics ≡ record s.metrics {
          metrics =
              s.metrics.metrics
              ++ record {
                match_id = match_id;
                node_id = node_id;
                terminal_id = or_default m.terminal_id "";
                t_rel = or_default m.timestamp now -ℤ t0;
                idle_seconds = idle;
                tokens_used = tokens;
              }
                ∷ [];
        })
        × ((j k : String)
            → lookup k (get_totals_per_node j s'.metrics) ≡ (
                if (match_id == j) && (node_id == k)
                then some (record {
                  tokens_used = before.tokens_used +ℤ tokens;
                  idle_seconds = before.idle_seconds +ℤ idle;
                })
                else lookup k (get_totals_per_node j s.metrics)))
        × (s'.pushed
            ≡ s.pushed
              ++ (
                (broadcast alive match_id s.connections).0,
                (serialize
                    (compute p.ties match_id row.token_weight row.idle_penalty s'.metrics)).0,
                (serialize
                    (compute p.ties match_id row.token_weight row.idle_penalty s'.metrics)).1,
              )
                ∷ [])
  unfolding handle_metrics on_metrics push_scores metric_row insert_metric
  handle_metrics_stored {n} {row} {t0} known found begun =
      let match_id = or_default m.match_id "" in
      let r = metric_row p alive now match_id (or_default m.node_id "") t0 m in
      let stored : (handle_metrics p alive now m s).metrics ≡ insert_metric r s.metrics =
        ground (arith, known, found, begun) in
      (
        stored,
        λ j k.
            ap (λ x. lookup k (get_totals_per_node j x)) stored
            ∙ get_totals_per_node-insert_metric j k r s.metrics,
        ground (arith, known, found, begun),
      )

  -- A metric or hook of a node that never registered changes nothing.
  handle_unregistered :
      Registry.get (or_default m.node_id "") s.registry ≡ none
      → (handle_metrics p alive now m s ≡ s) × (handle_hook p alive now m s ≡ s)
  unfolding handle_metrics handle_hook
  handle_unregistered unknown = rw unknown (refl, refl)

  -- A metric or hook about a match that is unknown or has not begun is dropped: of the server, only the
  -- sender's last-seen time changes.
  handle_unstarted :
      {n : NodeRecord}
      → Registry.get (or_default m.node_id "") s.registry ≡ some n
      → started (Store.get (or_default m.match_id "") s.store) ≡ none
      → let s' = record s { registry = Registry.touch (or_default m.node_id "") now s.registry } in
        (handle_metrics p alive now m s ≡ s') × (handle_hook p alive now m s ≡ s')
  unfolding handle_metrics handle_hook on_metrics on_hook
  handle_unstarted known idle = ground arith
