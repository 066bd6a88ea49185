-- ===== src/Match/Config/Text.antt =====
-- The text of `config_json` in central_server/match/store.py, which the models of the store hold as a document.
use agentic_juggling.Prelude.{◌≡◌, refl, ◌∙◌, ap, List, [], ◌∷◌}
use agentic_juggling.Prelude.{ℕ}
use agentic_juggling.Prelude.Outcome.{Error, Outcome, ok, or_raise}
use agentic_juggling.Json.Write.{dumps}
use agentic_juggling.Json.Read.{loads}
use agentic_juggling.Json.Read.Back.{Distinct, DistinctItems, loads-dumps}
use agentic_juggling.Match.Config.{
  PromptEntry, NodeAssignment, dump_schedule, dump_nodes, dump_config, parse_assignments,
  parse_assignments-dump_config, ◌>>=◌,
}

-- `json.dumps([...])` in `create`, as code points
unfoldable pub config_text : List NodeAssignment → List ℕ
unfolding dumps dump_config
config_text nodes = dumps (dump_config nodes)

-- `parse_assignments` from the column's text
unfoldable pub parse_text : List ℕ → Outcome (List NodeAssignment)
unfolding loads parse_assignments
parse_text cs = or_raise (loads cs) Error.decode_error >>= parse_assignments

dump_schedule-Distinct : (ps : List PromptEntry) → DistinctItems (dump_schedule ps)
unfolding dump_schedule
dump_schedule-Distinct [] = tt
dump_schedule-Distinct (p ∷ ps) = ((refl, (tt, (refl, (tt, tt)))), dump_schedule-Distinct ps)

dump_nodes-Distinct : (nas : List NodeAssignment) → DistinctItems (dump_nodes nas)
unfolding dump_nodes
dump_nodes-Distinct [] = tt
dump_nodes-Distinct (na ∷ nas) = (
  (refl, (tt, (refl, (tt, (refl, (dump_schedule-Distinct na.schedule, tt)))))),
  dump_nodes-Distinct nas,
)

pub dump_config-Distinct : (nodes : List NodeAssignment) → Distinct (dump_config nodes)
unfolding dump_config
dump_config-Distinct nodes = dump_nodes-Distinct nodes

-- A stored match can be replayed: from the text that `create` writes into the row, whatever the ids, agents and prompts
-- are, in any script and with quotes and newlines, `parse_assignments` gives the same assignments back, with the same
-- schedules.
pub parse_text-config_text :
    (nodes : List NodeAssignment) → parse_text (config_text nodes) ≡ ok nodes
unfolding parse_text config_text
parse_text-config_text nodes =
    ap (λ o. or_raise o Error.decode_error >>= parse_assignments)
      (loads-dumps (dump_config nodes) (dump_config-Distinct nodes))
    ∙ parse_assignments-dump_config nodes
