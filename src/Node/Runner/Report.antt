-- ===== src/Node/Runner/Report.antt =====
-- The JSON object of a report, `json.dumps({"terminal_id": ...})` of node/agent_runner.py and the keys that
-- `_apply_metrics` of node/window.py takes from it. A window holds numbers: a value of another type, which the
-- code would keep as it is, is a TypeError here.
use agentic_juggling.Prelude.{◌≡◌, refl, ap, Option, none, some}
use agentic_juggling.Prelude.Int.{ℤ, pos, unit, ◌*ℤ◌}
use agentic_juggling.Prelude.Outcome.{Error, Outcome, ok, err}
use agentic_juggling.Primitives.{Bytes}
use agentic_juggling.Json.{Json, int, num, str, obj, end, field}
use agentic_juggling.Json.Read.{get}
use agentic_juggling.Json.Document.{
  dumps_bytes, loads_bytes, dumps_bytes-Ascii, loads_bytes-dumps_bytes,
}
use agentic_juggling.Node.Lines.{split_line}
use agentic_juggling.Node.Window.{Report}
use agentic_juggling.Node.Runner.Loop.{Message}
use agentic_juggling.Node.Runner.Prompt.{split_line-Ascii}

abbrev report_object : Message → Json
report_object m = obj (
    field "terminal_id" (str m.terminal_id) (
      field "idle_seconds" (num m.idle_seconds)
        (field "tokens_used" (int (pos m.tokens_used)) end)))

unfoldable pub dumps_report : Message → Bytes
unfolding dumps_bytes
dumps_report m = dumps_bytes (report_object m)

abbrev seconds : Option Json → Outcome (Option ℤ)
seconds none = ok none
seconds (some (num z)) = ok (some z)
seconds (some (int z)) = ok (some (z *ℤ pos unit))
seconds (some _) = err Error.type_error

abbrev count : Option Json → Outcome (Option ℤ)
count none = ok none
count (some (int z)) = ok (some z)
count (some _) = err Error.type_error

abbrev both : Outcome (Option ℤ) → Outcome (Option ℤ) → Outcome Report
both (ok s) (ok n) = ok (record { idle_seconds = s; tokens_used = n })
both (ok s) (err e) = err e
both (err e) o = err e

-- `data.get(...)` for both keys: only a dict has `get`
abbrev report_in : Outcome Json → Outcome Report
report_in (err e) = err e
report_in (ok (obj fs)) = both (seconds (get "idle_seconds" fs)) (count (get "tokens_used" fs))
report_in (ok _) = err Error.attribute_error

unfoldable pub loads_report : Bytes → Outcome Report
unfolding loads_bytes
loads_report line = report_in (loads_bytes line)

-- what the keys of a message say
abbrev pub report_of : Message → Report
report_of m = record { idle_seconds = some m.idle_seconds; tokens_used = some (pos m.tokens_used) }

pub loads_report-dumps_report : (m : Message) → loads_report (dumps_report m) ≡ ok (report_of m)
unfolding loads_report dumps_report
loads_report-dumps_report m =
    ap report_in
      (loads_bytes-dumps_bytes (report_object m) (refl, (tt, (refl, (tt, (refl, (tt, tt)))))))

-- a report is one line
pub dumps_report-plain : (m : Message) → split_line (dumps_report m) ≡ none
unfolding dumps_report
dumps_report-plain m =
    split_line-Ascii (dumps_bytes (report_object m)) (dumps_bytes-Ascii (report_object m))
