-- ===== src/Node/Main.antt =====
-- `run` of node/main.py: the START and STOP handlers and the resumption after a reconnect; node/state.py.
pub mod Packet
pub mod Resume
pub mod Stop
use agentic_juggling.Prelude.{
  ℕ, ◌+◌, String, Bool, true, false, Option, none, some, List, [], or_default, if◌then◌else◌,
}
use agentic_juggling.Prelude.Int.{ℤ}
use agentic_juggling.Prelude.Outcome.{
  Error, Outcome, ok, err, or_raise, Exec, pure, lift, gets, update, ◌>>=◌, ◌>>◌,
}
use agentic_juggling.Primitives.{Primitives}
use agentic_juggling.Crypto.{SealedEntry}
use agentic_juggling.NodeCrypto.{unwrap_match_key}
use agentic_juggling.Server.Wire.{StartPacket}
use agentic_juggling.Node.{Saved, MatchScheduler, Node}
use agentic_juggling.Node.Scheduler
use agentic_juggling.Node.Scheduler.{on_crypto}

-- the payload of START, or what was loaded in its place: a JSON object with some of these keys
pub record StartPayload : Type 0 where
  pub match_id : Option String
  pub agentname : Option String
  pub t0 : Option ℤ
  pub encrypted_match_key : Option String
  pub schedule : Option (List SealedEntry)

-- what `json.loads` makes of the server's packet
unfoldable pub of_packet : StartPacket → StartPayload
of_packet k = record {
  match_id = some k.match_id;
  agentname = some k.agentname;
  t0 = some k.t0;
  encrypted_match_key = some k.encrypted_match_key;
  schedule = some k.schedule;
}

-- `state.load`: the object that `state.save` wrote
unfoldable pub of_saved : Saved → StartPayload
of_saved v = record {
  match_id = some v.match_id;
  agentname = some v.agentname;
  t0 = some v.t0;
  encrypted_match_key = none;
  schedule = some v.schedule;
}

abbrev pub save : Saved → Node → Node
save v n = record n { state_file = some v }

abbrev pub new_scheduler : String → ℕ → MatchScheduler
new_scheduler agentname id = record {
  id = id;
  agentname = agentname;
  match_id = none;
  t0 = none;
  windows = [];
}

-- an existing reporter is stopped
abbrev pub stop_reporter : Option Bool → Option Bool
stop_reporter none = none
stop_reporter (some _) = some false

abbrev pub stop_scheduler : Option MatchScheduler → Node → Node
stop_scheduler none n = n
stop_scheduler (some sch) n = Scheduler.stop sch n

-- `state.clear`
abbrev pub clear : Node → Node
clear n = record n { state_file = none }

unfoldable pub on_stop : Node → Node
on_stop n =
    let n₁ = stop_scheduler n.scheduler (record n { reporter = stop_reporter n.reporter }) in
    clear n₁

module _ (p : Primitives) (default_agent : String) where
  unfoldable pub on_start : ℤ → StartPayload → Exec Node (Unit {0})
  on_start now payload = do
    match_id ← lift (or_raise payload.match_id Error.key_error)
    let agentname = or_default payload.agentname default_agent
    t0 ← lift (or_raise payload.t0 Error.key_error)
    encrypted_match_key ← lift (or_raise payload.encrypted_match_key Error.key_error)
    schedule ← lift (or_raise payload.schedule Error.key_error)
    on_crypto p (unwrap_match_key p match_id encrypted_match_key)
    update
        (save (record { match_id = match_id; t0 = t0; agentname = agentname; schedule = schedule }))
    update (λ n.
        Scheduler.start (new_scheduler agentname n.next_scheduler) match_id t0 now schedule
          (record n { next_scheduler = n.next_scheduler + 1 }))
    update (λ n. record n { reporter = some true })

  unfoldable pub resume_if_needed : ℤ → Bool → Exec Node (Unit {0})
  resume_if_needed now was_running n =
      if was_running
      then (elim n.state_file [ none ↦ (ok tt, n) | some saved ↦ on_start now (of_saved saved) n ])
      else (ok tt, n)
