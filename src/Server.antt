-- ===== src/Server.antt =====
-- The central server's shared state: the objects that central_server/main.py creates and hands to one
-- another, the sockets' traffic, and the tasks of the event loop.
pub mod Wire
pub mod Router
use agentic_juggling.Prelude.{ℕ, String, Bool, List, []}
use agentic_juggling.Prelude.Int.{ℤ}
use agentic_juggling.Prelude.Dict.{Dict}
use agentic_juggling.Prelude.Outcome.{Outcome, Exec}
use agentic_juggling.Registry.{NodeRegistry, new_registry}
use agentic_juggling.Crypto.{CryptoManager, new_crypto}
use agentic_juggling.Match.Store.{MatchStore}
use agentic_juggling.Metrics.Store.{MetricsStore}
use agentic_juggling.Metrics.Scoring.{Ranked}
use agentic_juggling.Broadcast.{Connections}
use Wire.{Outbound}

-- a task that waits in `_auto_stop`: its identity, the match, and the end of its sleep
pub record Timer : Type 0 where
  pub id : ℕ
  pub match_id : String
  pub due : ℤ

pub record Server : Type 0 where
  pub registry : NodeRegistry
  pub crypto : CryptoManager
  pub store : MatchStore
  pub metrics : MetricsStore
  pub connections : Connections
  -- what the ROUTER socket sent, oldest first
  pub sent : List Outbound
  -- what the WebSockets got: the socket, the match and its rankings
  pub pushed : List (List ℕ × String × List Ranked)
  -- `MatchManager._auto_stop_tasks`, and the tasks that are alive
  pub auto_stop_tasks : Dict ℕ
  pub timers : List Timer
  pub next_timer : ℕ

-- The objects that `main` creates, on databases that may hold the matches and metrics of earlier runs.
unfoldable pub new_server : Dict String → MatchStore → MetricsStore → Server
unfolding new_registry new_crypto
new_server tokens matches metrics = record {
  registry = new_registry tokens;
  crypto = new_crypto;
  store = matches;
  metrics = metrics;
  connections = [];
  sent = [];
  pushed = [];
  auto_stop_tasks = [];
  timers = [];
  next_timer = 0;
}

-- a method of the crypto manager, called on the server
abbrev pub on_crypto : {A : Type 0} → Exec CryptoManager A → Exec Server A
on_crypto m s = let (r, c) = m s.crypto in (r, record s { crypto = c })
