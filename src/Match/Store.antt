-- ===== src/Match/Store.antt =====
-- The store of central_server/match/store.py. `rows` is what the connection reads, `durable` what
-- it has committed; the key of a row is its primary key.
pub mod Listing
pub mod Row
use agentic_juggling.Prelude.{List, ℕ, String, Bool, true, false, Option, none, some, if◌then◌else◌}
use agentic_juggling.Prelude.Int.{ℤ}
use agentic_juggling.Prelude.Dict.{Dict, lookup, insert, modify, has_key, values}
use agentic_juggling.Prelude.Outcome.{Error, ok, err, Exec}
use agentic_juggling.Sorting.{falling, sort_by}
use agentic_juggling.Json.{Json}
use agentic_juggling.Match.Config.{MatchConfig, dump_config}

pub data MatchState : Type 0 where
  lobby starting running finished : MatchState

-- `==` of the enum
unfoldable pub same_state : MatchState → MatchState → Bool
same_state MatchState.lobby MatchState.lobby = true
same_state MatchState.starting MatchState.starting = true
same_state MatchState.running MatchState.running = true
same_state MatchState.finished MatchState.finished = true
same_state _ _ = false

pub record MatchRecord : Type 0 where
  pub match_id : String
  pub version : ℕ
  pub created_at : ℤ
  pub duration_s : ℤ
  pub token_weight : ℤ
  pub idle_penalty : ℤ
  pub state : MatchState
  pub t0 : Option ℤ
  pub config_json : Json

pub record MatchStore : Type 0 where
  pub rows : Dict MatchRecord
  pub durable : Dict MatchRecord

unfoldable pub commit : MatchStore → MatchStore
commit s = record s { durable = s.rows }

-- the row of a new match
unfoldable pub new_record : MatchConfig → MatchRecord
new_record config = record {
  match_id = config.match_id;
  version = config.version;
  created_at = config.created_at;
  duration_s = config.duration_s;
  token_weight = config.token_weight;
  idle_penalty = config.idle_penalty;
  state = MatchState.lobby;
  t0 = none;
  config_json = dump_config config.nodes;
}

-- A second row with the same primary key is an IntegrityError.
unfoldable pub create : MatchConfig → Exec MatchStore MatchRecord
unfolding commit
create config s = if has_key config.match_id s.rows then (err Error.integrity_error, s) else (
  ok (new_record config),
  commit (record s { rows = insert config.match_id (new_record config) s.rows }),
)

unfoldable pub get : String → MatchStore → Option MatchRecord
get match_id s = lookup match_id s.rows

-- `ORDER BY created_at DESC`; rows of one time stay in the order of their creation
unfoldable pub list_all : MatchStore → List MatchRecord
list_all s = sort_by falling (λ m. m.created_at) (values s.rows)

-- `SET state = ?, t0 = ?`, or `SET state = ?` where no t0 is given
unfoldable pub set_row : MatchState → Option ℤ → MatchRecord → MatchRecord
set_row state none row = record row { state = state }
set_row state (some t0) row = record row { state = state; t0 = some t0 }

-- The UPDATE before its commit.
unfoldable pub execute_update : String → MatchState → Option ℤ → MatchStore → MatchStore
execute_update match_id state t0 s = record s { rows = modify match_id (set_row state t0) s.rows }

unfoldable pub update_state : String → MatchState → Option ℤ → MatchStore → MatchStore
unfolding commit execute_update
update_state match_id state t0 s = commit (execute_update match_id state t0 s)
