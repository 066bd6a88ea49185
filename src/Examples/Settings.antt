-- ===== src/Examples/Settings.antt =====
-- The theorems on the configuration, at concrete environments and files.
use agentic_juggling.Prelude.{String, true, ◌≡◌, refl, [], ◌∷◌}
use agentic_juggling.Prelude.Int.{ℤ, pos}
use agentic_juggling.Prelude.Dict.{has_key, insert, lookup}
use agentic_juggling.Prelude.Outcome.{Error, Outcome, ok, err}
use agentic_juggling.Prelude.Unicode.{int_of_text}
use agentic_juggling.Json.{Json, field, end, at_key}
use agentic_juggling.Config.{Environ, Files, Entry, int_of, float_of}
use agentic_juggling.Config.Server
use agentic_juggling.Config.Server.{tokens_path}
use agentic_juggling.Config.Node.{Config, of_document}
use agentic_juggling.Config.Sources.{Overridden, load-insert, of_document-override}

-- every text is a string
abbrev loads : String → Outcome Json
loads text = ok (Json.str text)

abbrev float : String → Outcome ℤ
float text = err Error.value_error

-- `int` as Python has it
ports : int_of_text " +5_5५5 " ≡ ok (pos 5_555)
unfolding int_of_text
ports = refl

no_port : int_of_text "55 55" ≡ err Error.value_error
unfolding int_of_text
no_port = refl

abbrev env : Environ
env = ("ZMQ_PORT", "6000") ∷ ("NODE_TOKENS_FILE", "tokens.json") ∷ ("SERVER_HOST", "10.0.0.9") ∷ []

abbrev files : Files
files = ("tokens.json", Entry.file "{}") ∷ []

tokens_there : has_key (tokens_path env) files ≡ true
unfolding tokens_path lookup
tokens_there = refl

load-insert_example :
    Server.load loads files (insert "NODE_TOKENS" "{\"n1\": \"x\"}" env)
    ≡ Server.load loads files env
load-insert_example = load-insert loads files "{\"n1\": \"x\"}" env tokens_there

abbrev document : Json
document = Json.obj (field "node_id" (Json.str "n1") (field "token" (Json.str "secret") end))

abbrev of_file : Config
of_file = record {
  node_id = Json.str "n1";
  token = Json.str "secret";
  server_host = Json.str "127.0.0.1";
  server_port = pos 5_555;
  metrics_interval = pos 50_000;
  agent = Json.str "claude";
}

abbrev overridden : Config
overridden = record of_file { server_host = Json.str "10.0.0.9" }

file_alone : of_document float [] document ≡ ok of_file
unfolding of_document lookup at_key int_of float_of
file_alone = refl

under_env : of_document float env document ≡ ok overridden
unfolding of_document lookup at_key int_of float_of
under_env = refl

of_document-override_example : Overridden env overridden of_file
of_document-override_example = of_document-override float env document under_env file_alone
