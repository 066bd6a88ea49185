-- ===== src/Server/Router.antt =====
-- central_server/network/router.py: sending to a node, and the handlers of what arrives, with the
-- callbacks of central_server/metrics/ingester.py that main.py hands to the router.
pub mod Frames
pub mod Register
pub mod Ingest
pub mod Shutdown
pub mod Socket
pub mod Registered
use agentic_juggling.Prelude.{
  ℕ, String, Bool, true, false, not, Option, none, some, List, [], ◌∷◌, ◌++◌, ◌==◌, ◌&&◌,
  if◌then◌else◌, or_default, is_some,
}
use agentic_juggling.Prelude.Int.{ℤ, pos, ◌-ℤ◌}
use agentic_juggling.Prelude.Outcome.{
  Error, Outcome, ok, err, Exec, pure, raise, lift, gets, update, ◌>>=◌, ◌>>◌,
}
use agentic_juggling.Primitives.{Primitives}
use agentic_juggling.Registry
use agentic_juggling.Registry.{NodeState, NodeRecord, same_state}
use agentic_juggling.Crypto.{establish_session}
use agentic_juggling.Match.Store
use agentic_juggling.Match.Store.{MatchRecord}
use agentic_juggling.Metrics.Store.{MetricRow, HookEvent, insert_metric, insert_hook}
use agentic_juggling.Metrics.Scoring.{compute, serialize}
use agentic_juggling.Broadcast.{broadcast}
use agentic_juggling.Server.{Server, on_crypto}
use agentic_juggling.Server.Wire.{
  Payload, Raw, malformed, other_json, object, Message, register_ok, register_fail, Outbound,
}

abbrev pub transmit : String → Message → Server → Server
transmit identity message s = record s {
  sent = s.sent ++ record { identity = identity; message = message } ∷ [];
}

-- Whether the node has an identity to send to.
unfoldable pub send : String → Message → Server → Bool × Server
send node_id message s = elim (Registry.identity_for node_id s.registry) [
  | none ↦ (false, s)
  | some identity ↦ (true, transmit identity message s)
]

-- `prev_state is not None and prev_state.state == RUNNING`
unfoldable pub was_running : Option NodeRecord → Bool
unfolding same_state
was_running none = false
was_running (some node) = same_state node.state NodeState.running

-- the record of a match that has begun, with its start time
abbrev pub started : Option MatchRecord → Option (MatchRecord × ℤ)
started none = none
started (some m) = elim m.t0 [ none ↦ none | some t ↦ some (m, t) ]

module _ (p : Primitives) (alive : ℕ → Bool) (now : ℤ) where
  unfoldable pub handle_register : String → Payload → Exec Server (Unit {0})
  handle_register identity payload s =
      let node_id = or_default payload.node_id "" in
      let pubkey = or_default payload.ecdh_pubkey "" in
      if not (Registry.authenticate node_id (or_default payload.token "") s.registry)
      then (ok tt, transmit identity (register_fail "invalid token") s)
      else if pubkey == ""
      then (ok tt, transmit identity (register_fail "missing ecdh_pubkey") s)
      else (let running = was_running (Registry.get node_id s.registry) in
          let (_, is_reconnect, registry) =
            Registry.register node_id (or_default payload.hostname "") (or_default payload.ip "")
              identity now s.registry in
          (do
            server_pubkey ← on_crypto (establish_session p node_id pubkey)
            update (λ s'. if running then s' else record s' {
              registry = Registry.update_state node_id NodeState.ready now s'.registry;
            })
            update (transmit identity (register_ok is_reconnect running server_pubkey)))
            (record s { registry = registry }))

  -- the row that `on_metrics` stores for a match that began at `t0`
  unfoldable pub metric_row : String → String → ℤ → Payload → MetricRow
  metric_row match_id node_id t0 payload = record {
    match_id = match_id;
    node_id = node_id;
    terminal_id = or_default payload.terminal_id "";
    t_rel = or_default payload.timestamp now -ℤ t0;
    idle_seconds = or_default payload.idle_seconds (pos 0);
    tokens_used = or_default payload.tokens_used (pos 0);
  }

  unfoldable pub hook_event : String → String → ℤ → Payload → HookEvent
  hook_event match_id node_id t0 payload = record {
    match_id = match_id;
    node_id = node_id;
    t_rel = or_default payload.timestamp now -ℤ t0;
    event_type = or_default payload.event_type "unknown";
    payload_json = payload.text;
  }

  -- recompute the board and push it to the subscribers
  unfoldable pub push_scores : String → MatchRecord → Server → Server
  push_scores match_id m s =
      let board = serialize (compute p.ties match_id m.token_weight m.idle_penalty s.metrics) in
      let (reached, connections) = broadcast alive match_id s.connections in
      record s { connections = connections; pushed = s.pushed ++ (reached, board.0, board.1) ∷ [] }

  -- `MetricsIngester.on_metrics`
  unfoldable pub on_metrics : String → Payload → Server → Server
  on_metrics node_id payload s =
      let match_id = or_default payload.match_id "" in
      elim (started (Store.get match_id s.store)) [
        | none ↦ s
        | some (m, t0) ↦ push_scores match_id m (record s {
          metrics = insert_metric (metric_row match_id node_id t0 payload) s.metrics;
        })
      ]

  -- `MetricsIngester.on_hook`
  unfoldable pub on_hook : String → Payload → Server → Server
  on_hook node_id payload s =
      let match_id = or_default payload.match_id "" in
      elim (started (Store.get match_id s.store)) [
        | none ↦ s
        | some (m, t0) ↦ record s {
          metrics = insert_hook (hook_event match_id node_id t0 payload) s.metrics;
        }
      ]

  unfoldable pub handle_metrics : Payload → Server → Server
  handle_metrics payload s =
      let node_id = or_default payload.node_id "" in
      if is_some (Registry.get node_id s.registry)
      then on_metrics node_id payload
          (record s { registry = Registry.touch node_id now s.registry })
      else s

  unfoldable pub handle_hook : Payload → Server → Server
  handle_hook payload s =
      let node_id = or_default payload.node_id "" in
      if is_some (Registry.get node_id s.registry)
      then on_hook node_id payload (record s { registry = Registry.touch node_id now s.registry })
      else s

  -- A JSON payload without `.get` is an AttributeError in the handler.
  unfoldable pub dispatch_object : String → String → Raw → Exec Server (Unit {0})
  dispatch_object identity msg_type malformed s = (ok tt, s)
  dispatch_object identity msg_type other_json s =
      if msg_type == "REGISTER"
      then raise Error.attribute_error s
      else if msg_type == "METRICS"
      then raise Error.attribute_error s
      else if msg_type == "HOOK"
      then raise Error.attribute_error s
      else (ok tt, s)
  dispatch_object identity msg_type (object payload) s =
      if msg_type == "REGISTER"
      then handle_register identity payload s
      else if msg_type == "METRICS"
      then (ok tt, handle_metrics payload s)
      else if msg_type == "HOOK"
      then (ok tt, handle_hook payload s)
      else (ok tt, s)

  -- `_dispatch`: the frames as texts, and what `json.loads` makes of the third
  unfoldable pub dispatch : (String → Raw) → List String → Exec Server (Unit {0})
  dispatch loads (identity ∷ msg_type ∷ raw ∷ _) s = dispatch_object identity msg_type (loads raw) s
  dispatch loads _ s = (ok tt, s)
