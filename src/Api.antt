-- ===== src/Api.antt =====
-- The HTTP interface: central_server/api/admin.py and central_server/api/leaderboard.py. A route is a function
-- from its arguments and the server to a response; FastAPI has checked the types of a body before.
pub mod Matches
pub mod Boards
pub mod Requests
use agentic_juggling.Prelude.{ℕ, String, Option, none, some, List, [], ◌∷◌, ◌++◌, map}
use agentic_juggling.Prelude.Int.{ℤ}
use agentic_juggling.Prelude.Outcome.{Error, Outcome, ok, err, Exec}
use agentic_juggling.Primitives.{Primitives}
use agentic_juggling.Match.Config.{PromptEntry, NodeAssignment, MatchConfig}
use agentic_juggling.Match.Store
use agentic_juggling.Match.Store.{MatchState, MatchRecord}
use agentic_juggling.Metrics.Scoring.{Ranked, compute, serialize}
use agentic_juggling.Broadcast.{connect, disconnect}
use agentic_juggling.Server.{Server}
use agentic_juggling.Manager

-- the bodies: of a match by its state, of `get_match`, of `list_matches`, of the leaderboard, and the detail of
-- an HTTPException
pub data Body : Type 0 where
  summary : String → MatchState → Body
  details : String → MatchState → ℤ → Option ℤ → ℤ → ℤ → Body
  matches : List (String × MatchState × ℤ) → Body
  board : String × List Ranked → Body
  failure : Error → Body

pub record Response : Type 0 where
  pub status : ℕ
  pub body : Body

pub record CreateMatchRequest : Type 0 where
  pub duration_s : ℤ
  pub nodes : List NodeAssignment
  pub token_weight : ℤ
  pub idle_penalty : ℤ

-- the configuration of a request, with the fresh id and the clock of the dataclass's factories
unfoldable pub config_of : String → ℤ → CreateMatchRequest → MatchConfig
config_of match_id now body = record {
  duration_s = body.duration_s;
  nodes =
      map
        (λ na. record {
          node_id = na.node_id;
          agentname = na.agentname;
          schedule = map (λ p. record { delay = p.delay; prompt = p.prompt }) na.schedule;
        })
        body.nodes;
  token_weight = body.token_weight;
  idle_penalty = body.idle_penalty;
  match_id = match_id;
  version = 1;
  created_at = now;
}

abbrev created : Outcome MatchRecord → Outcome Response
created (ok m) = ok (record { status = 201; body = Body.summary m.match_id m.state })
created (err e) = err e

-- An exception here is not caught.
unfoldable pub create_match : String → ℤ → CreateMatchRequest → Exec Server Response
unfolding config_of
create_match match_id now body s =
    let (r, s') = Manager.create (config_of match_id now body) s in (created r, s')

abbrev found : Outcome MatchRecord → Response
found (ok m) = record {
  status = 200;
  body = Body.details m.match_id m.state m.duration_s m.t0 m.token_weight m.idle_penalty;
}
found (err e) = record { status = 404; body = Body.failure e }

unfoldable pub get_match : String → Server → Response
get_match match_id s = found (Manager.get match_id s).0

unfoldable pub list_matches : Server → Response
list_matches s = record {
  status = 200;
  body = Body.matches (map (λ m. (m.match_id, m.state, m.created_at)) (Store.list_all s.store));
}

-- what `start_match` and `stop_match` make of the end of the manager's call
unfoldable pub moved : String → MatchState → Outcome (Unit {0}) → Response
moved match_id state (ok _) = record { status = 200; body = Body.summary match_id state }
moved match_id state (err e) = record { status = 400; body = Body.failure e }

-- `start_match` when the manager's `start` has ended
unfoldable pub start_match : String → Outcome (Unit {0}) → Response
unfolding moved
start_match match_id r = moved match_id MatchState.running r

unfoldable pub stop_match : Primitives → ℤ → String → Server → Response × Server
unfolding moved
stop_match p now match_id s =
    let (r, s') = Manager.stop p now none match_id s in (moved match_id MatchState.finished r, s')

-- the serialized board of a match
unfoldable pub board_of : Primitives → MatchRecord → String → Server → String × List Ranked
board_of p m match_id s =
    serialize (compute p.ties match_id m.token_weight m.idle_penalty s.metrics)

unfoldable pub get_leaderboard : Primitives → String → Server → Response
unfolding board_of
get_leaderboard p match_id s = elim (Store.get match_id s.store) [
  | none ↦ record { status = 404; body = Body.failure Error.match_not_found }
  | some m ↦ record { status = 200; body = Body.board (board_of p m match_id s) }
]

-- `leaderboard_ws` up to its wait: the socket is closed (`none`), or it is connected and gets a snapshot
unfoldable pub leaderboard_ws :
    Primitives → String → ℕ → Server → Option (String × List Ranked) × Server
unfolding board_of
leaderboard_ws p match_id ws s = elim (Store.get match_id s.store) [
  | none ↦ (none, s)
  | some m ↦
      (some (board_of p m match_id s), record s { connections = connect match_id ws s.connections })
]

-- its end, when the client has gone
unfoldable pub leaderboard_end : String → ℕ → Server → Server
leaderboard_end match_id ws s = record s { connections = disconnect match_id ws s.connections }
