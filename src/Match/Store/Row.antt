-- ===== src/Match/Store/Row.antt =====
-- A row of the table `matches` of central_server/match/store.py: what INSERT and UPDATE write, and `_row_to_record`.
use agentic_juggling.Prelude.{
  ℕ, String, ◌≡◌, refl, ◌∙◌, ap, sym, Option, none, some, List, [], ◌∷◌, ◌==◌, if◌then◌else◌,
}
use mathlib.Core.Path.{subst}
use agentic_juggling.Prelude.Int.{ℤ}
use agentic_juggling.Prelude.Outcome.{Error, Outcome, ok, err, or_raise}
use agentic_juggling.Prelude.Unicode.{codes}
use agentic_juggling.Json.{Json}
use agentic_juggling.Json.Read.{loads}
use agentic_juggling.Json.Read.Back.{Distinct, loads-dumps}
use agentic_juggling.Json.Document.{dumps_text, codes-dumps_text}
use agentic_juggling.Match.Config.{MatchConfig, dump_config}
use agentic_juggling.Match.Config.Text.{
  config_text, parse_text, dump_config-Distinct, parse_text-config_text,
}
use agentic_juggling.Match.Store.{MatchState, MatchRecord, new_record, set_row}

-- the columns with their types
pub record Row : Type 0 where
  pub match_id : String
  pub version : ℕ
  pub created_at : ℤ
  pub duration_s : ℤ
  pub token_weight : ℤ
  pub idle_penalty : ℤ
  pub state : String
  pub t0 : Option ℤ
  pub config_json : String

-- `state.value`
unfoldable pub state_value : MatchState → String
state_value MatchState.lobby = "LOBBY"
state_value MatchState.starting = "STARTING"
state_value MatchState.running = "RUNNING"
state_value MatchState.finished = "FINISHED"

-- `MatchState(value)`
unfoldable pub match_state : String → Outcome MatchState
match_state value =
    if value == "LOBBY"
    then ok MatchState.lobby
    else if value == "STARTING"
    then ok MatchState.starting
    else if value == "RUNNING"
    then ok MatchState.running
    else if value == "FINISHED"
    then ok MatchState.finished
    else err Error.value_error

-- the values of the INSERT, with the document as its text
unfoldable pub insert_row : MatchRecord → Row
unfolding state_value dumps_text
insert_row r = record {
  match_id = r.match_id;
  version = r.version;
  created_at = r.created_at;
  duration_s = r.duration_s;
  token_weight = r.token_weight;
  idle_penalty = r.idle_penalty;
  state = state_value r.state;
  t0 = r.t0;
  config_json = dumps_text r.config_json;
}

-- `SET state = ?, t0 = ?`, or `SET state = ?` where no t0 is given
unfoldable pub update_row : MatchState × Option ℤ → Row → Row
unfolding state_value
update_row (state, none) row = record row { state = state_value state }
update_row (state, some t0) row = record row { state = state_value state; t0 = some t0 }

abbrev with_columns : Row → Outcome MatchState → Outcome Json → Outcome MatchRecord
with_columns row (err e) document = err e
with_columns row (ok state) (err e) = err e
with_columns row (ok state) (ok config_json) = ok (record {
  match_id = row.match_id;
  version = row.version;
  created_at = row.created_at;
  duration_s = row.duration_s;
  token_weight = row.token_weight;
  idle_penalty = row.idle_penalty;
  state = state;
  t0 = row.t0;
  config_json = config_json;
})

-- The record here holds the document of the text, so that a text that is no JSON, which only `parse_assignments` would
-- refuse, is refused already.
unfoldable pub row_to_record : Row → Outcome MatchRecord
unfolding match_state loads
row_to_record row =
    with_columns row (match_state row.state)
      (or_raise (loads (codes row.config_json)) Error.decode_error)

abbrev pub update_rows : List (MatchState × Option ℤ) → Row → Row
update_rows [] row = row
update_rows (u ∷ us) row = update_rows us (update_row u row)

abbrev pub set_rows : List (MatchState × Option ℤ) → MatchRecord → MatchRecord
set_rows [] r = r
set_rows (u ∷ us) r = set_rows us (set_row u.0 u.1 r)

match_state-state_value : (state : MatchState) → match_state (state_value state) ≡ ok state
unfolding match_state state_value
match_state-state_value MatchState.lobby = refl
match_state-state_value MatchState.starting = refl
match_state-state_value MatchState.running = refl
match_state-state_value MatchState.finished = refl

row_to_record-insert_row :
    (r : MatchRecord) → Distinct r.config_json → row_to_record (insert_row r) ≡ ok r
unfolding row_to_record insert_row
row_to_record-insert_row r d =
    rw
      (match_state-state_value r.state, codes-dumps_text r.config_json, loads-dumps r.config_json d)
      refl

update_row-insert_row :
    (u : MatchState × Option ℤ) (r : MatchRecord)
    → update_row u (insert_row r) ≡ insert_row (set_row u.0 u.1 r)
unfolding update_row insert_row set_row
update_row-insert_row (state, none) r = refl
update_row-insert_row (state, some t0) r = refl

update_rows-insert_row :
    (us : List (MatchState × Option ℤ)) (r : MatchRecord)
    → update_rows us (insert_row r) ≡ insert_row (set_rows us r)
update_rows-insert_row [] r = refl
update_rows-insert_row (u ∷ us) r =
    ap (update_rows us) (update_row-insert_row u r) ∙ update_rows-insert_row us (set_row u.0 u.1 r)

set_row-config_json :
    (u : MatchState × Option ℤ) (r : MatchRecord) → (set_row u.0 u.1 r).config_json ≡ r.config_json
unfolding set_row
set_row-config_json (state, none) r = refl
set_row-config_json (state, some t0) r = refl

set_rows-config_json :
    (us : List (MatchState × Option ℤ)) (r : MatchRecord)
    → (set_rows us r).config_json ≡ r.config_json
set_rows-config_json [] r = refl
set_rows-config_json (u ∷ us) r =
    set_rows-config_json us (set_row u.0 u.1 r) ∙ set_row-config_json u r

-- A match survives in its row of plain columns: whatever updates came after the INSERT of a new match, in whatever order,
-- the row is read as the record that the same updates make of the new one, state and start included; and from the text in
-- it `parse_assignments` gives back the assignments of the configuration, whatever texts their ids, agents and
-- prompts are.
pub row_to_record-update_rows :
    (config : MatchConfig) (us : List (MatchState × Option ℤ))
    → let row = update_rows us (insert_row (new_record config)) in
      (row_to_record row ≡ ok (set_rows us (new_record config)))
      × (parse_text (codes row.config_json) ≡ ok config.nodes)
unfolding new_record config_text
row_to_record-update_rows config us =
    let r = set_rows us (new_record config) in
    let kept : r.config_json ≡ dump_config config.nodes =
      set_rows-config_json us (new_record config) in
    rw (update_rows-insert_row us (new_record config)) (
      row_to_record-insert_row r (subst Distinct (sym kept) (dump_config-Distinct config.nodes)),
      unfold insert_row in
          ap parse_text
            (ap (λ j. codes (dumps_text j)) kept ∙ codes-dumps_text (dump_config config.nodes))
          ∙ parse_text-config_text config.nodes,
    )
