-- ===== src/Examples.antt =====
-- Concrete servers and nodes, on which the theorems are applied: the primitives are the toy instance, and the
-- match `m1` is to be played by the node `n1`.
mod Documents
mod Journey
mod Keys
mod Lifecycle
mod Traffic
mod Scores
mod Nodes
mod Streams
mod Routes
mod Output
mod Settings
mod Windows
use agentic_juggling.Prelude.{ℕ, String, Bool, true, false, Option, none, some, List, [], ◌∷◌}
use agentic_juggling.Prelude.Int.{ℤ, pos}
use agentic_juggling.Prelude.Dict.{Dict}
use agentic_juggling.Primitives.{Bytes, Primitives}
use agentic_juggling.Crypto.{CryptoManager, NodeSession}
use agentic_juggling.NodeCrypto.{NodeCrypto}
use agentic_juggling.Registry.{NodeState, NodeRecord, NodeRegistry}
use agentic_juggling.Match.Config.{PromptEntry, NodeAssignment, MatchConfig, dump_config}
use agentic_juggling.Match.Store.{MatchState, MatchRecord, MatchStore}
use agentic_juggling.Metrics.Store.{MetricRow, MetricsStore}
use agentic_juggling.Server.{Server, Timer}
use agentic_juggling.Server.Wire.{Payload, Raw, malformed, empty}
use agentic_juggling.Manager.{Pending}
use agentic_juggling.World.{World}
use agentic_juggling.Node.{Node}

abbrev pub session : NodeSession
session = record { node_id = "n1"; session_key = 7 ∷ [] }

abbrev pub crypto : CryptoManager
crypto = record { sessions = ("n1", session) ∷ []; match_keys = ("m1", 5 ∷ []) ∷ []; draws = 3 }

abbrev pub node_crypto : NodeCrypto
node_crypto = record { private_key = 4 ∷ []; session_key = some (7 ∷ []); match_keys = [] }

abbrev pub assignment : NodeAssignment
assignment = record {
  node_id = "n1";
  agentname = "claude";
  schedule =
      record { delay = pos 0; prompt = "hello" }
      ∷ record { delay = pos 18_000_000; prompt = "more" }
      ∷ [];
}

abbrev pub node_record : NodeState → NodeRecord
node_record state = record {
  node_id = "n1";
  hostname = "host";
  ip = "10.0.0.1";
  state = state;
  zmq_identity = some "id1";
  connected_at = pos 1;
  last_seen = pos 2;
}

abbrev pub registry : NodeState → NodeRegistry
registry state = record {
  allowed_tokens = ("n1", "secret") ∷ [];
  nodes = ("n1", node_record state) ∷ [];
}

abbrev pub match_row : MatchState → Option ℤ → MatchRecord
match_row state t0 = record {
  match_id = "m1";
  version = 1;
  created_at = pos 0;
  duration_s = pos 108_000_000;
  token_weight = pos 100;
  idle_penalty = pos 10_000;
  state = state;
  t0 = t0;
  config_json = dump_config (assignment ∷ []);
}

abbrev pub store : MatchState → Option ℤ → MatchStore
store state t0 = record {
  rows = ("m1", match_row state t0) ∷ [];
  durable = ("m1", match_row state t0) ∷ [];
}

abbrev pub metric : String → ℤ → ℤ → MetricRow
metric node_id idle tokens = record {
  match_id = "m1";
  node_id = node_id;
  terminal_id = "m1-t0";
  t_rel = pos 5;
  idle_seconds = idle;
  tokens_used = tokens;
}

abbrev pub metrics : MetricsStore
metrics = record {
  metrics =
      metric "n1" (pos 10_000) (pos 300)
      ∷ metric "n2" (pos 0) (pos 500)
      ∷ metric "n1" (pos 0) (pos 300)
      ∷ [];
  hook_events = [];
}

-- a server whose match and node are in the given states, with the match's auto-stop filed if it runs
abbrev pub server : MatchState → Option ℤ → NodeState → Server
server state t0 node = record {
  registry = registry node;
  crypto = crypto;
  store = store state t0;
  metrics = metrics;
  connections = ("m1", 1 ∷ 2 ∷ []) ∷ [];
  sent = [];
  pushed = [];
  auto_stop_tasks = ("m1", 0) ∷ [];
  timers = record { id = 0; match_id = "m1"; due = pos 100 } ∷ [];
  next_timer = 1;
}

abbrev pub running : Server
running = server MatchState.running (some (pos 50)) NodeState.running

abbrev pub pending : Pending
pending = record {
  match_id = "m1";
  row = match_row MatchState.lobby none;
  assignments = assignment ∷ [];
  expected = "n1" ∷ [];
  deadline = pos 300;
}

abbrev pub loads : String → Raw
loads _ = malformed

abbrev pub alive : ℕ → Bool
alive _ = true

abbrev pub node : Node
node = record {
  crypto = node_crypto;
  scheduler = none;
  reporter = none;
  state_file = none;
  windows = [];
  tasks = [];
  next_scheduler = 0;
}
