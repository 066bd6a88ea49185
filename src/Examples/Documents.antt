-- ===== src/Examples/Documents.antt =====
-- Texts of JSON documents, and the theorems on them at concrete inputs.
use agentic_juggling.Prelude.{List, ◌≡◌, refl, Option, none, some, [], ◌∷◌}
use agentic_juggling.Prelude.Int.{ℤ, pos, negsuc}
use agentic_juggling.Prelude.Outcome.{Error, ok, err}
use agentic_juggling.Prelude.Unicode.{codes}
use agentic_juggling.Json.{Json, null, int, num, str, arr, obj, nil, cons, end, field}
use agentic_juggling.Json.Text.{escape}
use agentic_juggling.Json.Number.{digits}
use agentic_juggling.Json.Write.{dumps}
use agentic_juggling.Json.Read.{loads}
use agentic_juggling.Json.Document.{loads_bytes}
use agentic_juggling.Match.Config.{PromptEntry, NodeAssignment, MatchConfig}
use agentic_juggling.Match.Store.{MatchState, new_record}
use agentic_juggling.Match.Store.Row.{
  insert_row, row_to_record, update_rows, set_rows, match_state, row_to_record-update_rows,
}
use agentic_juggling.Match.Config.Text.{config_text, parse_text}
use agentic_juggling.Node.Runner.Report.{loads_report}
use agentic_juggling.Node.Runner.Prompt.{loads_prompt}

abbrev nested : Json
nested = obj (
    field "a" (int (pos 12)) (
      field "b\n" (arr (cons (num (pos 12_500)) (cons (str "x\"y") (cons null nil))))
        (field "c" (obj end) end)))

written : dumps nested ≡ codes "{\"a\": 12, \"b\\n\": [1.25, \"x\\\"y\", null], \"c\": {}}"
unfolding dumps escape digits
written = refl

-- blanks, an exponent, and a key that comes twice
read :
    loads (codes " [-0.5, 1e2,\t{\"k\":1,\"k\" : 2}] ")
    ≡ some (
        arr (
          cons
            (num (negsuc 4_999))
            (cons (num (pos 1_000_000)) (cons (obj (field "k" (int (pos 2)) end)) nil))))
unfolding loads
read = refl

-- a comma too much, and more than one value
no_item : loads (codes "[1,]") ≡ none
unfolding loads
no_item = refl

two_values : loads (codes "1 2") ≡ none
unfolding loads
two_values = refl

leading_zero : loads (codes "01") ≡ none
unfolding loads
leading_zero = refl

-- a byte that begins no character is no JSON error, a text that is cut off is one
bad_byte : loads_bytes (34 ∷ 255 ∷ 34 ∷ []) ≡ err Error.value_error
unfolding loads_bytes
bad_byte = refl

cut_off : loads_bytes (codes "{\"a\": ") ≡ err Error.decode_error
unfolding loads_bytes
cut_off = refl

-- a report that is a list, and a prompt that is a number
no_dict : loads_report (codes "[]") ≡ err Error.attribute_error
unfolding loads_report
no_dict = refl

no_string : loads_prompt (codes "{\"prompt\": 3}") ≡ err Error.type_error
unfolding loads_prompt
no_string = refl

abbrev entry : PromptEntry
entry = record { delay = pos 15_000; prompt = "say \"hi\"\nand go" }

abbrev assignment : NodeAssignment
assignment = record { node_id = "n-é"; agentname = "claude"; schedule = entry ∷ [] }

config_written :
    config_text (assignment ∷ [])
    ≡ codes
        "[{\"node_id\": \"n-\\u00e9\", \"agentname\": \"claude\", \"schedule\": [{\"delay\": 1.5, \"prompt\": \"say \\\"hi\\\"\\nand go\"}]}]"
unfolding config_text escape digits
config_written = refl

abbrev config : MatchConfig
config = record {
  duration_s = pos 600_000;
  nodes = assignment ∷ assignment ∷ [];
  token_weight = pos 100;
  idle_penalty = pos 10_000;
  match_id = "m1";
  version = 1;
  created_at = pos 5;
}

-- the start of a match, and its end
abbrev updates : List (MatchState × Option ℤ)
updates =
    (MatchState.starting, none)
    ∷ (MatchState.running, some (pos 70_000))
    ∷ (MatchState.finished, none)
    ∷ []

row_to_record-update_rows_example :
    let row = update_rows updates (insert_row (new_record config)) in
    (row_to_record row ≡ ok (set_rows updates (new_record config)))
    × (parse_text (codes row.config_json) ≡ ok config.nodes)
row_to_record-update_rows_example = row_to_record-update_rows config updates

-- a state that the enum does not have
no_state : match_state "PAUSED" ≡ err Error.value_error
unfolding match_state
no_state = refl
