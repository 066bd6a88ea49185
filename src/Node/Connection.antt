-- ===== src/Node/Connection.antt =====
-- node/connection.py with node/metrics.py, and the start of `run` in node/main.py: registration, what the node
-- sends, and the dispatch of what it gets.
pub mod Answer
pub mod Boot
pub mod Socket
pub mod Hooks
pub mod Reporter
use agentic_juggling.Prelude.{
  ℕ, String, Bool, true, false, Option, none, some, List, [], ◌∷◌, ◌==◌, or_default, if◌then◌else◌,
}
use agentic_juggling.Prelude.Int.{ℤ}
use agentic_juggling.Prelude.Dict.{Dict}
use agentic_juggling.Prelude.Outcome.{
  Error, Outcome, ok, err, or_raise, Exec, pure, raise, lift, gets, update, ◌>>=◌, ◌>>◌,
}
use agentic_juggling.Primitives.{Primitives}
use agentic_juggling.NodeCrypto.{NodeCrypto, derive_session_key, pubkey_b64}
use agentic_juggling.Server.Wire.{Payload, empty}
use agentic_juggling.Node.{AgentWindow, Node}
use agentic_juggling.Node.Scheduler.{on_crypto}
use agentic_juggling.Node.Main.{StartPayload, on_start, on_stop, resume_if_needed}

-- the answer to REGISTER: its type and the keys of its object
pub record Reply : Type 0 where
  pub msg_type : String
  pub server_ecdh_pubkey : Option String
  pub was_running : Option Bool

-- what `connect_and_register` returns: a bare bool on one path, a pair on the others
pub data Registered : Type 0 where
  bare : Bool → Registered
  pair : Bool → Bool → Registered

-- `ok, was_running = ...`: a bool cannot be unpacked
unfoldable pub unpack : Registered → Outcome (Bool × Bool)
unpack (bare b) = err Error.type_error
unpack (pair a b) = ok (a, b)

-- the payload of REGISTER
unfoldable pub register_payload :
    Primitives → String → String → String → String → NodeCrypto → Payload
register_payload p node_id token hostname ip c = record empty {
  node_id = some node_id;
  token = some token;
  hostname = some hostname;
  ip = some ip;
  ecdh_pubkey = some (pubkey_b64 p c);
}

-- the payload of `send_metrics`
unfoldable pub metrics_payload : String → String → ℤ → ℤ → ℤ → Payload
metrics_payload node_id terminal_id idle_seconds tokens_used now = record empty {
  node_id = some node_id;
  terminal_id = some terminal_id;
  idle_seconds = some idle_seconds;
  tokens_used = some tokens_used;
  timestamp = some now;
}

-- one round of `MetricsReporter._loop`: a METRICS message for each open window
unfoldable pub report : String → ℤ → Dict AgentWindow → List Payload
unfolding metrics_payload
report node_id now [] = []
report node_id now ((terminal_id, window) ∷ rest) =
    metrics_payload node_id terminal_id window.idle_seconds window.tokens_used now
    ∷ report node_id now rest

module _ (p : Primitives) (default_agent : String) where
  -- `connect_and_register` from the answer on; `none`: none came within ten seconds
  unfoldable pub connect_and_register : Option Reply → Exec Node Registered
  connect_and_register none = pure (bare false)
  connect_and_register (some reply) =
      if reply.msg_type == "REGISTER_FAIL"
      then pure (pair false false)
      else if reply.msg_type == "REGISTER_OK"
      then (do
        key ← lift (or_raise reply.server_ecdh_pubkey Error.key_error)
        on_crypto p (derive_session_key p key)
        pure (pair true (or_default reply.was_running false)))
      else pure (pair false false)

  -- `run` up to its wait: `sys.exit(1)` where the registration was refused
  unfoldable pub boot : ℤ → Option Reply → Exec Node (Unit {0})
  unfolding unpack connect_and_register
  boot now reply = do
    registered ← connect_and_register reply
    flags ← lift (unpack registered)
    if flags.0 then resume_if_needed p default_agent now flags.1 else raise Error.system_exit

  -- `_dispatch`, with what `json.loads` makes of the second frame (`none`: it is not JSON)
  unfoldable pub dispatch : (String → Option StartPayload) → ℤ → List String → Exec Node (Unit {0})
  dispatch loads now (msg_type ∷ raw ∷ _) n = elim (loads raw) [
    | none ↦ (ok tt, n)
    | some payload ↦
        if msg_type == "START"
        then on_start p default_agent now payload n
        else if msg_type == "STOP"
        then (ok tt, on_stop n)
        else (ok tt, n)
  ]
  dispatch loads now _ n = (ok tt, n)
