-- ===== src/Delivery/Metrics.antt =====
-- A METRICS message, from `send_metrics` of node/connection.py to central_server/metrics/ingester.py.
use agentic_juggling.Prelude.{ℕ, String, Bool, ◌≡◌, refl, ◌∙◌, ap, none, some, [], ◌∷◌, arith}
use agentic_juggling.Prelude.Int.{ℤ}
use agentic_juggling.Prelude.Outcome.{ok}
use agentic_juggling.Codec.{Bytes}
use agentic_juggling.Codec.Utf8.{text}
use agentic_juggling.Primitives.{Primitives}
use agentic_juggling.Json.{Fields, int, num, str, obj, end, field}
use agentic_juggling.Json.Document.{dumps_bytes, dumps_text, text-dumps_bytes}
use agentic_juggling.Match.Store
use agentic_juggling.Server.{Server}
use agentic_juggling.Server.Wire.{Payload, Raw}
use agentic_juggling.Server.Wire.Request.{payload_of, loads_payload, raw_of}
use agentic_juggling.Node.Connection.{metrics_payload}
use agentic_juggling.Server.Router
use agentic_juggling.Server.Router.{handle_metrics, on_metrics}

abbrev metrics_fields : String → String → ℤ → ℤ → ℤ → Fields
metrics_fields node_id terminal_id idle_seconds tokens_used now = field "node_id" (str node_id) (
    field "terminal_id" (str terminal_id) (
      field "idle_seconds" (num idle_seconds)
        (field "tokens_used" (int tokens_used) (field "timestamp" (num now) end))))

unfoldable pub metrics_frame : String → String → ℤ → ℤ → ℤ → Bytes
unfolding dumps_bytes
metrics_frame node_id terminal_id idle_seconds tokens_used now =
    dumps_bytes (obj (metrics_fields node_id terminal_id idle_seconds tokens_used now))

-- the keys of the object are those of the payload
payload_of-metrics_fields :
    (node_id terminal_id : String) (idle_seconds tokens_used now : ℤ)
    → payload_of (metrics_fields node_id terminal_id idle_seconds tokens_used now)
      ≡ record (metrics_payload node_id terminal_id idle_seconds tokens_used now) {
        text = dumps_text (obj (metrics_fields node_id terminal_id idle_seconds tokens_used now));
      }
unfolding payload_of metrics_payload
payload_of-metrics_fields node_id terminal_id idle_seconds tokens_used now = refl

loads_payload-metrics_frame :
    (node_id terminal_id : String) (idle_seconds tokens_used now : ℤ)
    → (raw : String) × (text (metrics_frame node_id terminal_id idle_seconds tokens_used now)
        ≡ some raw)
      × (loads_payload raw
          ≡ Raw.object
              (payload_of (metrics_fields node_id terminal_id idle_seconds tokens_used now)))
unfolding metrics_frame loads_payload
loads_payload-metrics_frame node_id terminal_id idle_seconds tokens_used now =
    let (raw, e, back) =
      text-dumps_bytes (obj (metrics_fields node_id terminal_id idle_seconds tokens_used now))
        (refl, (tt, (refl, (tt, (refl, (tt, (refl, (tt, (refl, (tt, tt)))))))))) in
    (raw, e, ap raw_of back)

module _ (p : Primitives) (alive : ℕ → Bool) where
  handle_metrics_unnamed :
      (arrival : ℤ) (m : Payload) (s : Server)
      → m.match_id ≡ none
      → Store.get "" s.store ≡ none
      → let s' = handle_metrics p alive arrival m s in
        (s'.metrics ≡ s.metrics) × (s'.pushed ≡ s.pushed)
  unfolding handle_metrics on_metrics
  handle_metrics_unnamed arrival m s h k = ground (arith, h, k)

  dispatch-handle_metrics :
      (arrival : ℤ) (identity raw : String) (m : Payload) (s : Server)
      → loads_payload raw ≡ Raw.object m
      → Router.dispatch p alive arrival loads_payload (identity ∷ "METRICS" ∷ raw ∷ []) s
        ≡ (ok tt, handle_metrics p alive arrival m s)
  unfolding Router.dispatch Router.dispatch_object
  dispatch-handle_metrics arrival identity raw m s h = rw (h, Router.dispatch) refl

  -- Nothing that a node reports is stored: the text of its METRICS message names no match, and as long as no match
  -- has the empty id, the server takes each of them without an error, stores no row and pushes no board.
  pub dispatch-metrics_frame :
      (identity node_id terminal_id : String) (idle_seconds tokens_used sent_at arrival : ℤ)
      (s : Server)
      → Store.get "" s.store ≡ none
      → (raw : String) × (text (metrics_frame node_id terminal_id idle_seconds tokens_used sent_at)
          ≡ some raw)
        × (let (r, s') =
              Router.dispatch p alive arrival loads_payload (identity ∷ "METRICS" ∷ raw ∷ []) s in
            (r ≡ ok tt) × (s'.metrics ≡ s.metrics) × (s'.pushed ≡ s.pushed))
  dispatch-metrics_frame identity node_id terminal_id idle_seconds tokens_used sent_at arrival s
        unnamed =
      let fields = metrics_fields node_id terminal_id idle_seconds tokens_used sent_at in
      let (raw, written, loaded) =
        loads_payload-metrics_frame node_id terminal_id idle_seconds tokens_used sent_at in
      let (rows, boards) =
        handle_metrics_unnamed arrival (payload_of fields) s
          (ap (λ (m : Payload). m.match_id)
              (payload_of-metrics_fields node_id terminal_id idle_seconds tokens_used sent_at)
            ∙ unfold metrics_payload in refl)
          unnamed in
      (
        raw,
        written,
        rw (dispatch-handle_metrics arrival identity raw (payload_of fields) s loaded)
            (refl, rows, boards),
      )
