-- ===== src/Examples/Nodes.antt =====
-- The theorems on the node's process, at concrete inputs.
use agentic_juggling.Codec.Base64.{b64d, b64e}
use agentic_juggling.Codec.Utf8.{text, utf8}
use agentic_juggling.Prelude.{String, true, false, ◌≡◌, refl, some, none, [], ◌∷◌, ◌++◌}
use agentic_juggling.Prelude.Int.{pos}
use agentic_juggling.Prelude.Dict.{lookup}
use agentic_juggling.Prelude.Outcome.{Error, ok, err}
use agentic_juggling.Primitives.Toy.{toy}
use agentic_juggling.NodeCrypto.{
  decrypt_prompt, new_node_crypto, pubkey_b64, derive_session_key, unwrap_match_key,
}
use agentic_juggling.Match.Store
use agentic_juggling.Server.Wire.{StartPacket}
use agentic_juggling.Server.Router.{handle_metrics}
use agentic_juggling.Node.{Saved, FireTask, MatchScheduler, Node}
use agentic_juggling.Prelude.{Option, List}
use agentic_juggling.Prelude.Int.{ℤ}
use agentic_juggling.Node.Run.{NodeEvent, run}
use agentic_juggling.Node.Run.Quiet.{Quiet, run-on_stop}
use agentic_juggling.Node.Main.{StartPayload, on_start, on_stop, of_packet, resume_if_needed}
use agentic_juggling.Node.Main.Resume.{resume_if_needed_raises}
use agentic_juggling.Node.Main.Stop.{on_stop-on_start}
use agentic_juggling.Node.Connection.{Reply, boot}
use agentic_juggling.Node.Connection.Boot.{boot_failure}
use agentic_juggling.Codec.Utf8.{text}
use agentic_juggling.Server.Router
use agentic_juggling.Server.Wire.Request.{loads_payload}
use agentic_juggling.Delivery.Metrics.{metrics_frame, dispatch-metrics_frame}
use agentic_juggling.Examples.{node_crypto, node, running, alive}

abbrev saved : Saved
saved = record { match_id = "m1"; t0 = pos 50; agentname = "claude"; schedule = [] }

-- a node that was running when it went away
abbrev resumed : Node
resumed = record node { state_file = some saved }

resume_if_needed_raises_example :
    resume_if_needed toy "codex" (pos 70) true resumed ≡ (err Error.key_error, resumed)
resume_if_needed_raises_example = resume_if_needed_raises toy "codex" (pos 70) resumed refl

-- the match key (5) under the session key (7), with the nonce of the third draw
abbrev packet : StartPacket
packet = record {
  match_id = "m1";
  agentname = "claude";
  t0 = pos 60;
  encrypted_match_key =
      b64e (toy.urandom 12 3 ++ toy.encrypt (7 ∷ []) (toy.urandom 12 3) (5 ∷ []) none);
  schedule = record { delay = pos 5; encrypted_prompt = "sealed" } ∷ [];
}

packet_taken :
    (unwrap_match_key toy packet.match_id packet.encrypted_match_key node.crypto).0 ≡ ok tt
unfolding unwrap_match_key toy b64d b64e
packet_taken = refl

on_stop-on_start_example :
    let n' = on_stop (on_start toy "codex" (pos 70) (of_packet packet) node).1 in
    (n'.tasks ≡ [])
    × (lookup "m1" n'.crypto.match_keys ≡ none)
    × (n'.state_file ≡ none)
    × (n'.reporter ≡ some false)
on_stop-on_start_example = on_stop-on_start toy "codex" (pos 70) packet node packet_taken tt

unnamed_match : Store.get "" running.store ≡ none
unfolding Store.get lookup
unnamed_match = refl

dispatch-metrics_frame_example :
    (raw : String) × (text (metrics_frame "n1" "m1-t0" (pos 0) (pos 9) (pos 60)) ≡ some raw)
    × (let (r, s') =
          Router.dispatch toy alive (pos 61) loads_payload ("id1" ∷ "METRICS" ∷ raw ∷ []) running in
        (r ≡ ok tt) × (s'.metrics ≡ running.metrics) × (s'.pushed ≡ running.pushed))
dispatch-metrics_frame_example =
    dispatch-metrics_frame toy alive "id1" "n1" "m1-t0" (pos 0) (pos 9) (pos 60) (pos 61) running
      unnamed_match

abbrev answer : String → Reply
answer kind = record {
  msg_type = kind;
  server_ecdh_pubkey = some (pubkey_b64 toy (new_node_crypto toy 5));
  was_running = none;
}

boot_failure_example :
    (boot toy "codex" (pos 70) none node ≡ (err Error.type_error, node))
    × (boot toy "codex" (pos 70) (some (answer "REGISTER_FAIL")) node
        ≡ (err Error.system_exit, node))
boot_failure_example = boot_failure toy "codex" (pos 70) (answer "REGISTER_FAIL") node refl

abbrev fresh : Node
fresh = record node { crypto = new_node_crypto toy 4 }

server_key_taken :
    (derive_session_key toy (pubkey_b64 toy (new_node_crypto toy 5)) fresh.crypto).0 ≡ ok tt
unfolding derive_session_key pubkey_b64 new_node_crypto toy b64d b64e
server_key_taken = refl

abbrev scheduler : MatchScheduler
scheduler = record {
  id = 0;
  agentname = "claude";
  match_id = some "m1";
  t0 = some (pos 60);
  windows = [];
}

abbrev task : FireTask
task = record { owner = 0; due = pos 65; terminal_id = "m1-t0"; encrypted_prompt = "sealed" }

abbrev keyed : Node
keyed = record node { crypto = record node_crypto { match_keys = ("m1", 5 ∷ []) ∷ [] } }

abbrev sealed_task : FireTask
sealed_task = record task {
  encrypted_prompt =
      b64e (
        toy.urandom 12 3 ++ toy.encrypt (5 ∷ []) (toy.urandom 12 3) (utf8 "hi") (some (utf8 "m1")));
}

prompt_opens : (decrypt_prompt toy "m1" sealed_task.encrypted_prompt keyed.crypto).0 ≡ ok "hi"
unfolding decrypt_prompt lookup toy b64d b64e utf8 text
prompt_opens = refl

no_key : (decrypt_prompt toy "m1" "sealed" node.crypto).0 ≡ err Error.value_error
unfolding decrypt_prompt lookup
no_key = refl

abbrev playing : MatchScheduler
playing = record {
  id = 0;
  agentname = "claude";
  match_id = some "m1";
  t0 = some (pos 50);
  windows = "m1-t0" ∷ [];
}

abbrev two_tasks : List FireTask
two_tasks =
    record { owner = 0; due = pos 70; terminal_id = "m1-t1"; encrypted_prompt = "sealed" }
    ∷ record { owner = 0; due = pos 90; terminal_id = "m1-t2"; encrypted_prompt = "sealed" }
    ∷ []

abbrev at_play : Node
at_play = record node {
  scheduler = some playing;
  tasks = two_tasks;
  windows =
      (
        "m1-t0",
        record { agentname = "claude"; prompt = "hi"; idle_seconds = pos 0; tokens_used = pos 7 },
      )
      ∷ [];
}

abbrev no_start : String → Option StartPayload
no_start text = none

-- the sleeps that would have ended, a late report, and a message that is no START
abbrev aftermath : List (ℤ × NodeEvent)
aftermath =
    (pos 71, NodeEvent.wake 0 (ok tt))
    ∷ (
      pos 72,
      NodeEvent.report "m1-t0" (record { idle_seconds = some (pos 1); tokens_used = none }),
    )
    ∷ (pos 73, NodeEvent.receive ("STOP" ∷ "{}" ∷ []))
    ∷ (pos 95, NodeEvent.wake 1 (ok tt))
    ∷ []

run-on_stop_example :
    Quiet
      (on_stop at_play).windows
      (run toy "codex" no_start aftermath (record { node = on_stop at_play; retired = [] })).node
run-on_stop_example =
    run-on_stop toy "codex" no_start at_play playing [] aftermath refl (refl, (refl, tt))
      (tt, (tt, (refl, (tt, tt))))
