-- ===== src/Examples/Lifecycle.antt =====
-- The theorems on the states of the matches, at concrete inputs.
use agentic_juggling.Prelude.{String, true, false, ◌≡◌, refl, Option, none, some, List, [], ◌∷◌}
use agentic_juggling.Prelude.Int.{ℤ, pos}
use agentic_juggling.Prelude.Dict.{Dict, insert, lookup, values, has_key}
use agentic_juggling.Prelude.Outcome.{Error, ok, err}
use agentic_juggling.Primitives.Toy.{toy}
use agentic_juggling.Registry
use agentic_juggling.Registry.{NodeState, ids, all_in_state, all_connected}
use agentic_juggling.Registry.Invariant.{IsValid}
use agentic_juggling.Match.Config.{parse_assignments, parse_assignments-dump_config, dump_config}
use agentic_juggling.Match.Store
use agentic_juggling.Match.Store.{MatchState, same_state}
use agentic_juggling.Server.{Timer}
use agentic_juggling.Api.{Body, Response, start_match}
use agentic_juggling.Crypto.{
  generate_match_key, has_session, encrypt_schedule, encrypt_prompt, encrypt_match_key_for_node,
}
use agentic_juggling.Api.Requests.{poll_answer, start_answered}
use agentic_juggling.Manager
use agentic_juggling.Manager.{
  start_nodes, start_node, start_finish, dispatch_start, stop, auto_stop, all_ready,
}
use agentic_juggling.Manager.Lifecycle.{state_in, put_state}
use agentic_juggling.Manager.Stops.{stop_request, auto_stop_interrupted}
use agentic_juggling.World.{World, Event, step, run, booted}
use agentic_juggling.World.Lifecycle.{run_finished, NotStarting, state_of}
use agentic_juggling.World.Transitions.{step-allowed, allowed}
use agentic_juggling.World.Overtaken.{stop_overtakes_start}
use agentic_juggling.World.Committed.{Committed, run-Committed}
use agentic_juggling.Server.Wire.Request.{loads_payload}
use agentic_juggling.World.Nodes.{Registered, run_registry, run-booted}
use agentic_juggling.World.Contract.{Moves, view}
use agentic_juggling.World.Refinement.{run-Moves}
use agentic_juggling.Examples.{
  assignment, match_row, server, running, registry, pending, metrics, crypto, loads, alive,
}

abbrev over : World
over = record { server = server MatchState.finished (some (pos 50)) NodeState.ready; starting = [] }

abbrev waiting : World
waiting = record {
  server = server MatchState.starting none NodeState.ready;
  starting = pending ∷ [];
}

-- one event of each kind
abbrev events : List (ℤ × Event)
events =
    (pos 101, Event.start "m1" (pos 300))
    ∷ (pos 102, Event.fire 0)
    ∷ (pos 103, Event.stop "m1")
    ∷ (pos 104, Event.poll 0)
    ∷ (pos 105, Event.receive ("id1" ∷ "METRICS" ∷ "{}" ∷ []))
    ∷ []

over_finished : state_of "m1" over ≡ some MatchState.finished
unfolding Store.get lookup
over_finished = refl

run_finished_example :
    (state_of "m1" (run toy alive loads over events) ≡ some MatchState.finished)
    × NotStarting "m1" (run toy alive loads over events).starting
run_finished_example = run_finished toy alive loads "m1" over events over_finished tt

waiting_starting : state_of "m1" waiting ≡ some MatchState.starting
unfolding Store.get lookup
waiting_starting = refl

step-allowed_example :
    allowed
      (state_of "m1" waiting)
      (state_of "m1" (step toy alive loads waiting (pos 60) (Event.poll 0)))
    ≡ true
step-allowed_example =
    step-allowed toy alive loads "m1" waiting (pos 60) (Event.poll 0) (waiting_starting, tt)

found :
    (state : MatchState) (t0 : Option ℤ) (node : NodeState)
    → Store.get "m1" (server state t0 node).store ≡ some (match_row state t0)
unfolding Store.get lookup
found state t0 node = refl

parsed : parse_assignments (dump_config (assignment ∷ [])) ≡ ok (assignment ∷ [])
parsed = parse_assignments-dump_config (assignment ∷ [])

registry-IsValid : IsValid (registry NodeState.ready)
unfolding Registry.same_state lookup
registry-IsValid = (refl, refl, refl, tt)

starting_live : same_state MatchState.starting MatchState.finished ≡ false
unfolding same_state
starting_live = refl

running_live : same_state MatchState.running MatchState.finished ≡ false
unfolding same_state
running_live = refl

nodes_ready : all_ready ("n1" ∷ []) waiting.server ≡ true
unfolding all_ready Registry.all_in_state
nodes_ready = refl

stop_overtakes_start_example :
    let w₁ = step toy alive loads waiting (pos 60) (Event.stop "m1") in
    let w₂ = step toy alive loads w₁ (pos 61) (Event.poll 0) in
    (state_of "m1" w₁ ≡ some MatchState.finished) × (state_of "m1" w₂ ≡ some MatchState.running)
stop_overtakes_start_example =
    stop_overtakes_start toy alive loads waiting 0 (pos 60) (pos 61) {q = pending} refl
      (found MatchState.starting none NodeState.ready) refl parsed registry-IsValid nodes_ready

run_registry_example :
    let r = (run toy alive loads waiting events).server.registry in
    IsValid r × (all_connected r ≡ values r.nodes)
run_registry_example = run_registry toy alive loads waiting events registry-IsValid

stop_request_example :
    let (r, s') = stop toy (pos 60) none "m1" running in
    (r ≡ ok tt)
    × (state_in "m1" s'.store ≡ some MatchState.finished)
    × (s'.store.durable ≡ s'.store.rows)
    × (lookup "m1" s'.crypto.match_keys ≡ none)
    × (lookup "m1" s'.auto_stop_tasks ≡ none)
stop_request_example =
    stop_request toy (pos 60) "m1" running
      (found MatchState.running (some (pos 50)) NodeState.running) running_live parsed

abbrev timer : Timer
timer = record { id = 0; match_id = "m1"; due = pos 100 }

filed : lookup "m1" running.auto_stop_tasks ≡ some 0
unfolding lookup
filed = refl

auto_stop_interrupted_example :
    let (r, s') = auto_stop toy (pos 100) timer running in
    (r ≡ err Error.cancelled)
    × (state_in "m1" s'.store ≡ some MatchState.finished)
    × (s'.store.durable ≡ running.store.durable)
auto_stop_interrupted_example =
    auto_stop_interrupted toy (pos 100) timer running filed
      (found MatchState.running (some (pos 50)) NodeState.running) running_live parsed

abbrev no_auto_stop : List (ℤ × Event)
no_auto_stop =
    (pos 60, Event.poll 0) ∷ (pos 61, Event.stop "m1") ∷ (pos 62, Event.start "m1" (pos 300)) ∷ []

run-Committed_example : Committed (run toy alive loads waiting no_auto_stop).server.store
run-Committed_example =
    run-Committed toy alive loads waiting no_auto_stop (refl, (refl, (refl, tt))) refl

run-Moves_example : Moves (view waiting) (view (run toy alive loads waiting events))
run-Moves_example = run-Moves toy alive loads waiting events

abbrev tokens : Dict String
tokens = ("n1", "secret") ∷ []

-- a node that registers with its token, after one that does not
abbrev arrivals : List (ℤ × Event)
arrivals =
    (
      pos 1,
      Event.receive (
          "id9" ∷ "REGISTER"
          ∷ "{\"node_id\": \"n1\", \"token\": \"guess\", \"ecdh_pubkey\": \"AAAA\"}" ∷ []),
    )
    ∷ (
      pos 2,
      Event.receive (
          "id1" ∷ "REGISTER"
          ∷ "{\"node_id\": \"n1\", \"token\": \"secret\", \"ecdh_pubkey\": \"AAAA\"}" ∷ []),
    )
    ∷ []

run-booted_example :
    let r =
      (run toy alive loads_payload
        (booted tokens over.server.store metrics)
        arrivals).server.registry in
    ((j : String)
      → has_key j r.nodes ≡ true
      → (token : String) × (lookup j tokens ≡ some token)
        × Registered loads_payload arrivals j token)
    × IsValid r
run-booted_example = run-booted toy alive loads_payload tokens over.server.store metrics arrivals

-- the same before the match has a key
abbrev keyless : World
keyless = record {
  server = record waiting.server { crypto = record crypto { match_keys = [] } };
  starting = pending ∷ [];
}

abbrev answer : Response
answer = record { status = 200; body = Body.summary "m1" MatchState.running }

answered : poll_answer toy (pos 60) keyless (some pending) ≡ some (ok answer)
unfolding Manager.poll all_ready all_in_state start_match start_finish dispatch_start
    generate_match_key lookup start_nodes has_session start_node encrypt_schedule encrypt_prompt
    insert encrypt_match_key_for_node
answered = refl

start_answered_example :
    (all_ready ("n1" ∷ []) keyless.server ≡ true)
    × (state_of "m1" (step toy alive loads keyless (pos 60) (Event.poll 0))
        ≡ put_state MatchState.running (state_of "m1" keyless))
start_answered_example =
    start_answered toy alive loads (pos 60) keyless 0 pending refl answered refl
