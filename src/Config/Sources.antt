-- ===== src/Config/Sources.antt =====
-- The order of precedence of the settings in central_server/config.py and node/config.py.
use agentic_juggling.Prelude.{
  String, true, false, Bool-cases, ◌==◌, ◌≡◌, refl, Option, [], ◌⊎◌, inl, inr, arith, or_default,
}
use agentic_juggling.Prelude.Int.{ℤ, pos}
use agentic_juggling.Prelude.Dict.{lookup, insert, has_key, lookup-insert}
use agentic_juggling.Prelude.Outcome.{Error, Outcome, ok, err}
use agentic_juggling.Json.{Json, Fields, at_key, end, field}
use agentic_juggling.Config.{Environ, Files, int_of, float_of, ◌>>=◌}
use agentic_juggling.Config.Server
use agentic_juggling.Config.Server.{ServerConfig, int_setting, load_tokens, tokens_path}
use agentic_juggling.Config.Node.{Config, subscript, get, override, environ_get, of_document}

module _ (loads : String → Outcome Json) where
  int_setting-insert :
      (name : String) (default : ℤ) (v : String) (env : Environ)
      → ("NODE_TOKENS" == name) ≡ false
      → int_setting name default (insert "NODE_TOKENS" v env) ≡ int_setting name default env
  unfolding int_setting
  int_setting-insert name default v env h =
      ground (arith, lookup-insert "NODE_TOKENS" name v env, h)

  load_tokens-insert :
      (files : Files) (v : String) (env : Environ)
      → has_key (tokens_path env) files ≡ true
      → load_tokens loads files (insert "NODE_TOKENS" v env) ≡ load_tokens loads files env
  unfolding load_tokens tokens_path
  load_tokens-insert files v env h =
      rw (lookup-insert "NODE_TOKENS" "NODE_TOKENS_FILE" v env, h) refl

  -- the configuration, of its settings
  assembled :
      Outcome ℤ → Outcome ℤ → Option String → Option String → Outcome Json → Outcome ServerConfig
  assembled zmq http host db tokens = do
    zmq_port ← zmq
    http_port ← http
    node_tokens ← tokens
    ok (record {
      zmq_port = zmq_port;
      http_port = http_port;
      host = or_default host "0.0.0.0";
      db_path = or_default db "central_server.db";
      node_tokens = node_tokens;
    })

  load_lem :
      (files : Files) (env : Environ)
      → Server.load loads files env
        ≡ assembled
            (int_setting "ZMQ_PORT" (pos 5_555) env)
            (int_setting "HTTP_PORT" (pos 8_080) env)
            (lookup "HOST" env)
            (lookup "DB_PATH" env)
            (load_tokens loads files env)
  unfolding Server.load assembled
  load_lem files env = refl

  -- While the tokens file exists, the inline variable NODE_TOKENS has no effect on the configuration of the
  -- server, whatever text it holds and even if the file cannot be read.
  pub load-insert :
      (files : Files) (v : String) (env : Environ)
      → has_key (tokens_path env) files ≡ true
      → Server.load loads files (insert "NODE_TOKENS" v env) ≡ Server.load loads files env
  load-insert files v env h =
      let more = insert "NODE_TOKENS" v env in
      rw
        (
          load_lem files more,
          load_lem files env,
          int_setting-insert "ZMQ_PORT" (pos 5_555) v env refl,
          int_setting-insert "HTTP_PORT" (pos 8_080) v env refl,
          lookup-insert "NODE_TOKENS" "HOST" v env,
          lookup-insert "NODE_TOKENS" "DB_PATH" v env,
          load_tokens-insert files v env h,
        )
        refl

-- the values of a document, the environment's in their place where there are any
assembled_node : (String → Outcome ℤ) → Environ → (n t h p i a : Outcome Json) → Outcome Config
assembled_node float env n t h p i a = do
  node_id ← environ_get "NODE_ID" env n
  token ← environ_get "NODE_TOKEN" env t
  server_host ← environ_get "SERVER_HOST" env h
  port ← environ_get "SERVER_PORT" env p
  server_port ← int_of port
  interval ← i
  metrics_interval ← float_of float interval
  agent ← a
  ok (record {
    node_id = node_id;
    token = token;
    server_host = server_host;
    server_port = server_port;
    metrics_interval = metrics_interval;
    agent = agent;
  })

abbrev pub Overridden : Environ → Config → Config → Type 0
Overridden env c file =
    (c.node_id ≡ override "NODE_ID" env file.node_id)
    × (c.token ≡ override "NODE_TOKEN" env file.token)
    × (c.server_host ≡ override "SERVER_HOST" env file.server_host)
    × (c.metrics_interval ≡ file.metrics_interval)
    × (c.agent ≡ file.agent)

-- what a configuration shows of the values that it was made of
abbrev Made : Json → Json → Json → Outcome ℤ → Outcome Json → Config → Type 0
Made n t h i a c =
    (c.node_id ≡ n)
    × (c.token ≡ t)
    × (c.server_host ≡ h)
    × (i ≡ ok c.metrics_interval)
    × (a ≡ ok c.agent)

made :
    (n t h : Json) (p i : Outcome ℤ) (a : Outcome Json) {c : Config}
    → (p >>= λ port. i >>= λ interval. a >>= λ agent. ok (record {
      node_id = n;
      token = t;
      server_host = h;
      server_port = port;
      metrics_interval = interval;
      agent = agent;
    }))
      ≡ ok c
    → Made n t h i a c
made n t h (ok p) (ok i) (ok a) e = ground arith
made n t h (ok p) (ok i) (err x) e = ground arith
made n t h (ok p) (err x) a e = ground arith
made n t h (err x) i a e = ground arith

assembled_node-Made :
    (float : String → Outcome ℤ) (env : Environ) (n t h p : Json) (i a : Outcome Json) {c : Config}
    → assembled_node float env (ok n) (ok t) (ok h) (ok p) i a ≡ ok c
    → Made
        (override "NODE_ID" env n)
        (override "NODE_TOKEN" env t)
        (override "SERVER_HOST" env h)
        (i >>= float_of float)
        a
        c
unfolding assembled_node environ_get
assembled_node-Made float env n t h p (ok i) a e =
    made _ _ _ (int_of (override "SERVER_PORT" env p)) (float_of float i) a e
assembled_node-Made float env n t h p (err x) a e =
    made _ _ _ (int_of (override "SERVER_PORT" env p)) (err x) a e

assembled_node_lem :
    (float : String → Outcome ℤ) (env : Environ) (n t h p i a : Outcome Json) {c file : Config}
    → assembled_node float env n t h p i a ≡ ok c
    → assembled_node float [] n t h p i a ≡ ok file
    → Overridden env c file
unfolding assembled_node environ_get lookup
assembled_node_lem float env (ok n) (ok t) (ok h) (ok p) i a e k =
    ground (
      arith,
      assembled_node-Made float env n t h p i a e,
      assembled_node-Made float [] n t h p i a k,
    )
assembled_node_lem float env (ok n) (ok t) (ok h) (err x) i a e k = ground arith
assembled_node_lem float env (ok n) (ok t) (err x) p i a e k = ground arith
assembled_node_lem float env (ok n) (err x) h p i a e k = ground arith
assembled_node_lem float env (err x) t h p i a e k = ground arith

-- The environment overrides the node's file: where both the file alone and the file under an environment give
-- a configuration, NODE_ID, NODE_TOKEN and SERVER_HOST replace the values of the file if they are set, and
-- nothing in the environment replaces the interval or the agent.
pub of_document-override :
    (float : String → Outcome ℤ) (env : Environ) (d : Json) {c file : Config}
    → of_document float env d ≡ ok c
    → of_document float [] d ≡ ok file
    → Overridden env c file
unfolding of_document assembled_node
of_document-override float env d e k =
    assembled_node_lem float env (subscript "node_id" d) (subscript "token" d)
      (get "server_host" (Json.str "127.0.0.1") d) (get "server_port" (Json.int (pos 5_555)) d)
      (get "metrics_interval" (Json.num (pos 50_000)) d) (get "agent" (Json.str "claude") d) e k

at_key_cases :
    (k : String) (d : Fields)
    → (at_key k d ≡ err Error.key_error) ⊎ ((v : Json) × (at_key k d ≡ ok v))
unfolding at_key
at_key_cases k end = inl refl
at_key_cases k (field j v rest) = elim (Bool-cases (j == k)) [
  | inl e ↦ inr (v, rw e refl)
  | inr e ↦ rw e (at_key_cases k rest)
]

-- The environment does not stand in for the file: without the key node_id, or without token, loading raises
-- KeyError whatever the environment sets.
of_document_missing :
    (float : String → Outcome ℤ) (env : Environ) (d : Fields)
    → (at_key "node_id" d ≡ err Error.key_error) ⊎ (at_key "token" d ≡ err Error.key_error)
    → of_document float env (Json.obj d) ≡ err Error.key_error
unfolding of_document subscript environ_get
of_document_missing float env d h = elim (at_key_cases "node_id" d) [
  | inl e ↦ rw e refl
  | inr (v, e) ↦ elim h [ inl k ↦ ground arith | inr k ↦ rw k (rw (e, environ_get) refl) ]
]
