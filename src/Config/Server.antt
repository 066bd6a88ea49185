-- ===== src/Config/Server.antt =====
-- central_server/config.py.
use agentic_juggling.Prelude.{String, none, some, or_default, if◌then◌else◌}
use agentic_juggling.Prelude.Int.{ℤ, pos}
use agentic_juggling.Prelude.Dict.{lookup, has_key}
use agentic_juggling.Prelude.Outcome.{Outcome, ok}
use agentic_juggling.Prelude.Unicode.{int_of_text}
use agentic_juggling.Json.{Json}
use agentic_juggling.Config.{Environ, Files, read_file, ◌>>=◌}

-- `node_tokens` is what the JSON text holds, of whatever type
pub record ServerConfig : Type 0 where
  pub zmq_port : ℤ
  pub http_port : ℤ
  pub host : String
  pub db_path : String
  pub node_tokens : Json

-- `int(os.getenv(name, default))`
unfoldable pub int_setting : String → ℤ → Environ → Outcome ℤ
int_setting name default env = elim (lookup name env) [
  | none ↦ ok default
  | some text ↦ int_of_text text
]

unfoldable pub tokens_path : Environ → String
tokens_path env = or_default (lookup "NODE_TOKENS_FILE" env) "node_tokens.json"

module _ (loads : String → Outcome Json) where
  unfoldable pub load_tokens : Files → Environ → Outcome Json
  unfolding tokens_path
  load_tokens files env =
      if has_key (tokens_path env) files
      then (read_file (tokens_path env) files >>= loads)
      else loads (or_default (lookup "NODE_TOKENS" env) "{}")

  unfoldable pub load : Files → Environ → Outcome ServerConfig
  unfolding int_setting load_tokens
  load files env = do
    zmq_port ← int_setting "ZMQ_PORT" (pos 5_555) env
    http_port ← int_setting "HTTP_PORT" (pos 8_080) env
    let host = or_default (lookup "HOST" env) "0.0.0.0"
    let db_path = or_default (lookup "DB_PATH" env) "central_server.db"
    node_tokens ← load_tokens files env
    ok (record {
      zmq_port = zmq_port;
      http_port = http_port;
      host = host;
      db_path = db_path;
      node_tokens = node_tokens;
    })
