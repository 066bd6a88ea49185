-- ===== src/Examples/Journey.antt =====
-- The theorems on what a node does with its schedule, at concrete inputs.
use agentic_juggling.Prelude.{String, ◌≡◌, refl, none, some, List, [], ◌∷◌, ◌++◌}
use agentic_juggling.Prelude.Int.{ℤ, pos, ◌+ℤ◌, max_ℤ}
use agentic_juggling.Prelude.Outcome.{ok}
use agentic_juggling.Primitives.Toy.{toy, toy-Lawful}
use agentic_juggling.Server.Wire
use agentic_juggling.Server.Wire.{StartPacket}
use agentic_juggling.Manager.{start_node}
use agentic_juggling.Node.{FireTask}
use agentic_juggling.Node.Scheduler.{terminal_id}
use agentic_juggling.Codec.Utf8.{text}
use agentic_juggling.Server.Wire.Text.{frame, msg_type}
use agentic_juggling.Node.Main.Packet.{loads_packet}
use agentic_juggling.Node.Connection.{dispatch}
use agentic_juggling.Node.Run.{NodeEvent, run}
use agentic_juggling.Node.Run.Fate.{Fate}
use agentic_juggling.Delivery.Prompts.{start_node-run}
use agentic_juggling.Examples.{crypto, assignment, running, node}
use agentic_juggling.Prelude.Dict.{lookup}
use agentic_juggling.Registry

-- the first task goes on, its window reports, the second is not due, a message of another kind comes
abbrev events : List (ℤ × NodeEvent)
events =
    (pos 71, NodeEvent.wake 0 (ok tt))
    ∷ (
      pos 80,
      NodeEvent.report "m1-t0" (record { idle_seconds = some (pos 3); tokens_used = none }),
    )
    ∷ (pos 85, NodeEvent.wake 0 (ok tt))
    ∷ (pos 90, NodeEvent.receive ("PING" ∷ "{}" ∷ []))
    ∷ []

own_key : lookup "m1" crypto.match_keys ≡ some (5 ∷ [])
unfolding lookup
own_key = refl

has_session : lookup "n1" crypto.sessions ≡ some (record { node_id = "n1"; session_key = 7 ∷ [] })
unfolding lookup
has_session = refl

has_identity : Registry.identity_for "n1" running.registry ≡ some "id1"
unfolding Registry.identity_for lookup
has_identity = refl

start_node-run_example :
    (k : StartPacket) × (raw : String) × ((start_node toy
        (pos 60)
        "m1"
        (pos 60)
        assignment
        running).1.sent
      ≡ running.sent ++ record { identity = "id1"; message = Wire.start k } ∷ [])
    × (text (frame (Wire.start k)) ≡ some raw)
    × (let (r, n') =
          dispatch toy "codex" loads_packet (pos 70) (msg_type (Wire.start k) ∷ raw ∷ []) node in
        (r ≡ ok tt)
        × ((t : FireTask) × (t.terminal_id ≡ terminal_id "m1" 0)
            × (t.due ≡ max_ℤ (pos 70) (pos 60 +ℤ pos 0))
            × Fate "claude" "hello"
                (pos 100)
                t
                (run toy "codex" loads_packet events (record { node = n'; retired = [] })).node))
start_node-run_example =
    start_node-run toy toy-Lawful "codex" "m1" "id1" (pos 60) (pos 60) (pos 70) (pos 100) assignment
      running node [] events 0 own_key has_session has_identity refl refl
      ((refl, tt, refl), ((refl, tt, tt), ((refl, tt, refl), ((refl, (refl, refl), tt), tt)))) refl
