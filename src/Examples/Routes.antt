-- ===== src/Examples/Routes.antt =====
-- The theorems on the HTTP routes and the stores' listings, at concrete inputs.
use agentic_juggling.Prelude.{ap, false, ◌≡◌, refl, some, [], ◌∷◌}
use agentic_juggling.Prelude.Int.{pos}
use agentic_juggling.Prelude.Dict.{lookup}
use agentic_juggling.Prelude.Outcome.{Outcome, ok}
use agentic_juggling.Primitives.Toy.{toy}
use agentic_juggling.Match.Config.{MatchConfig, parse_assignments-dump_config}
use agentic_juggling.Match.Store
use agentic_juggling.Match.Store.{MatchState, MatchStore, same_state, new_record, list_all}
use agentic_juggling.Manager
use agentic_juggling.Manager.Stops.{stop_request}
use agentic_juggling.Manager.Lifecycle.{state_in}
use agentic_juggling.Api.{
  Body, CreateMatchRequest, config_of, create_match, stop_match, moved, board_of, leaderboard_ws,
}
use agentic_juggling.Api.Matches.{stop_match-stop_match}
use agentic_juggling.Examples.{assignment, running, store, match_row}

abbrev request : CreateMatchRequest
request = record {
  duration_s = pos 36_000_000;
  nodes = assignment ∷ [];
  token_weight = pos 100;
  idle_penalty = pos 10_000;
}

abbrev config : MatchConfig
config = config_of "m2" (pos 70) request

abbrev one_match : MatchStore
one_match = store MatchState.running (some (pos 50))

row_created : (Store.create config one_match).0 ≡ ok (new_record config)
unfolding Store.create lookup config_of
row_created = refl

match_created :
    (create_match "m2" (pos 70) request running).0
    ≡ ok (record { status = 201; body = Body.summary "m2" MatchState.lobby })
unfolding create_match Manager.create Store.create Store.new_record lookup config_of
match_created = refl

row_found : Store.get "m1" running.store ≡ some (match_row MatchState.running (some (pos 50)))
unfolding Store.get lookup
row_found = refl

row_live : same_state MatchState.running MatchState.finished ≡ false
unfolding same_state
row_live = refl

stopped : (stop_match toy (pos 60) "m1" running).0.status ≡ 200
unfolding stop_match moved
stopped =
    ap (λ (r : Outcome (Unit {0})). (moved "m1" MatchState.finished r).status)
      (stop_request toy (pos 60) "m1" running row_found row_live
        (parse_assignments-dump_config (assignment ∷ []))).0

stop_match-stop_match_example :
    let s' = (stop_match toy (pos 60) "m1" running).1 in
    (state_in "m1" s'.store ≡ some MatchState.finished)
    × (stop_match toy (pos 61) "m1" s'
        ≡ (record { status = 200; body = Body.summary "m1" MatchState.finished }, s'))
stop_match-stop_match_example = stop_match-stop_match toy (pos 60) "m1" running (pos 61) stopped

snapshot :
    (leaderboard_ws toy "m1" 3 running).0
    ≡ some (board_of toy (match_row MatchState.running (some (pos 50))) "m1" running)
unfolding leaderboard_ws Store.get lookup
snapshot = refl
