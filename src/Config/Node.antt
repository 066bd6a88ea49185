-- ===== src/Config/Node.antt =====
-- node/config.py, and the choice of the file at the end of node/main.py.
use agentic_juggling.Prelude.{String, none, some, List, ◌∷◌}
use agentic_juggling.Prelude.Int.{ℤ, pos}
use agentic_juggling.Prelude.Dict.{lookup}
use agentic_juggling.Prelude.Outcome.{Error, Outcome, ok, err}
use agentic_juggling.Json.{Json, at_key}
use agentic_juggling.Config.{Environ, Files, read_file, int_of, float_of, ◌>>=◌}

-- The values of the file keep whatever type they have there.
pub record Config : Type 0 where
  pub node_id : Json
  pub token : Json
  pub server_host : Json
  pub server_port : ℤ
  pub metrics_interval : ℤ
  pub agent : Json

-- `d[key]`
unfoldable pub subscript : String → Json → Outcome Json
subscript key (Json.obj d) = at_key key d
subscript key _ = err Error.type_error

found : Json → Outcome Json → Outcome Json
found default (ok v) = ok v
found default (err e) = ok default

-- `d.get(key, default)`
unfoldable pub get : String → Json → Json → Outcome Json
unfolding found
get key default (Json.obj d) = found default (at_key key d)
get key default _ = err Error.attribute_error

-- an environment variable before what stands elsewhere
abbrev pub override : String → Environ → Json → Json
override name env default = elim (lookup name env) [ none ↦ default | some text ↦ Json.str text ]

-- `os.environ.get(name, value)`, its second argument evaluated first
unfoldable pub environ_get : String → Environ → Outcome Json → Outcome Json
environ_get name env value = do default ← value; ok (override name env default)

module _ (float : String → Outcome ℤ) where
  unfoldable pub of_document : Environ → Json → Outcome Config
  unfolding subscript get environ_get
  of_document env d = do
    node_id ← environ_get "NODE_ID" env (subscript "node_id" d)
    token ← environ_get "NODE_TOKEN" env (subscript "token" d)
    server_host ← environ_get "SERVER_HOST" env (get "server_host" (Json.str "127.0.0.1") d)
    port ← environ_get "SERVER_PORT" env (get "server_port" (Json.int (pos 5_555)) d)
    server_port ← int_of port
    interval ← get "metrics_interval" (Json.num (pos 50_000)) d
    metrics_interval ← float_of float interval
    agent ← get "agent" (Json.str "claude") d
    ok (record {
      node_id = node_id;
      token = token;
      server_host = server_host;
      server_port = server_port;
      metrics_interval = metrics_interval;
      agent = agent;
    })

abbrev exit_if_missing : Outcome Config → Outcome Config
exit_if_missing (err Error.file_not_found) = err Error.system_exit
exit_if_missing o = o

conf_path : List String → String
conf_path (program ∷ path ∷ _) = path
conf_path _ = "node_config.json"

module _ (loads : String → Outcome Json) (float : String → Outcome ℤ) where
  unfoldable pub load : String → Files → Environ → Outcome Config
  unfolding of_document
  load path files env = do text ← read_file path files; d ← loads text; of_document float env d

  -- the configuration that `python main.py ...` runs with, or how it ends before `run`
  unfoldable pub main : List String → Files → Environ → Outcome Config
  unfolding conf_path load
  main argv files env = exit_if_missing (load (conf_path argv) files env)
