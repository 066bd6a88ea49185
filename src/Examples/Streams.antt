-- ===== src/Examples/Streams.antt =====
-- The theorems on the stream between a window and its agent_runner, at concrete inputs.
use agentic_juggling.Codec.Utf8.{text}
use agentic_juggling.Prelude.{◌≡◌, refl, Option, none, some, List, [], ◌∷◌, String, length}
use agentic_juggling.Prelude.Int.{pos}
use agentic_juggling.Prelude.Outcome.{Error, Outcome, ok, err}
use agentic_juggling.Primitives.{Bytes}
use agentic_juggling.Node.{AgentWindow}
use agentic_juggling.Node.Lines.{split_line}
use agentic_juggling.Node.Window.{Report, Reading, receive_all}
use agentic_juggling.Node.Window.Framing.{concat, resume, receive_all_lem}
use agentic_juggling.Node.Runner.{receive_prompt}
use agentic_juggling.Prelude.Unicode.{codes}
use agentic_juggling.Prelude.{ℕ, true, ◌++◌}
use agentic_juggling.Node.Runner.Session.{Machine}
use agentic_juggling.Node.Runner.Delivery.{receive_prompt_waits}

abbrev window : AgentWindow
window = record { agentname = "claude"; prompt = "hi"; idle_seconds = pos 0; tokens_used = pos 0 }

-- a line stands for its length in tokens, an empty one does not parse
abbrev report_of : Bytes → Outcome Report
report_of [] = err Error.decode_error
report_of (b ∷ bs) = ok (record { idle_seconds = none; tokens_used = some (pos (length (b ∷ bs))) })

abbrev chunks : List Bytes
chunks = (65 ∷ 66 ∷ []) ∷ (10 ∷ 67 ∷ []) ∷ (10 ∷ 10 ∷ 68 ∷ []) ∷ []

nothing_waits : split_line [] ≡ none
unfolding split_line
nothing_waits = refl

receive_all_lem_example :
    receive_all report_of chunks (record { window = window; reading = Reading.going [] })
    ≡ resume report_of (record { window = window; reading = Reading.going [] }) (concat chunks)
receive_all_lem_example =
    receive_all_lem report_of window (Reading.going []) chunks nothing_waits (tt, (tt, (tt, tt)))

-- a prompt as its own bytes
abbrev line_of : Option String → Outcome (Option String)
line_of none = err Error.decode_error
line_of (some prompt) = ok (some prompt)

abbrev loads_line : Bytes → Outcome (Option String)
loads_line line = line_of (text line)

cut_short : split_line (concat ((104 ∷ []) ∷ [])) ≡ none
unfolding split_line
cut_short = refl

receive_prompt_waits_example : receive_prompt loads_line 50 ((104 ∷ []) ∷ []) ≡ none
receive_prompt_waits_example = receive_prompt_waits loads_line 50 ((104 ∷ []) ∷ []) cut_short

-- a quote, a newline and a character beyond U+FFFF
abbrev prompt : String
prompt = "\"\n😀"

abbrev prompt_chunks : List Bytes
prompt_chunks =
    codes "{\"prompt\": \"\\" ∷ codes "\"\\n\\ud83" ∷ (codes "d\\ude00\"}" ++ 10 ∷ []) ∷ []

-- a system that takes three bytes, of which the line discipline has one when the echo is restored
abbrev machine : Machine
machine = record {
  pty = record { echo = true; pending = []; input = 120 ∷ []; echoed = 120 ∷ [] };
  taken = 3;
  early = 1;
  output_at = pos 0;
  push_at = pos 0;
  reads = [];
  end_at = pos 1;
  listening = true;
}

abbrev same : List ℕ → List ℕ
same t = t
