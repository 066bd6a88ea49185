-- ===== src/Node/Runner/Prompt.antt =====
-- The JSON object of a prompt, `json.dumps({"prompt": prompt}).encode()` of node/window.py and
-- `json.loads(...)["prompt"]` of node/agent_runner.py.
use agentic_juggling.Prelude.{
  ℕ, ◌≤◌, ◌≡◌, refl, ap, Option, none, some, List, [], ◌∷◌, String, arith, length,
}
use agentic_juggling.Prelude.Outcome.{Error, Outcome, ok, err}
use agentic_juggling.Primitives.{Bytes}
use agentic_juggling.Json.{Json, str, obj, end, field}
use agentic_juggling.Json.Read.{get}
use agentic_juggling.Json.Text.Ascii.{Ascii}
use agentic_juggling.Json.Document.{
  dumps_bytes, loads_bytes, dumps_bytes-Ascii, loads_bytes-dumps_bytes,
}
use agentic_juggling.Node.Lines.{split_line}
use agentic_juggling.Node.Window.Framing.{concat}
use agentic_juggling.Node.Runner.{message, receive_prompt}
use agentic_juggling.Node.Runner.Delivery.{receive_prompt-message}

abbrev prompt_object : String → Json
prompt_object prompt = obj (field "prompt" (str prompt) end)

unfoldable pub dumps_prompt : String → Bytes
unfolding dumps_bytes
dumps_prompt prompt = dumps_bytes (prompt_object prompt)

-- A prompt that is no string makes `feed_prompt` raise, after the agent has been started.
abbrev prompt_value : Option Json → Outcome (Option String)
prompt_value none = ok none
prompt_value (some (str prompt)) = ok (some prompt)
prompt_value (some _) = err Error.type_error

abbrev prompt_in : Outcome Json → Outcome (Option String)
prompt_in (err e) = err e
prompt_in (ok (obj fs)) = prompt_value (get "prompt" fs)
prompt_in (ok _) = err Error.type_error

-- `json.loads(line)`, and the value under `prompt` if there is one
unfoldable pub loads_prompt : Bytes → Outcome (Option String)
unfolding loads_bytes
loads_prompt line = prompt_in (loads_bytes line)

pub split_line-Ascii : (line : Bytes) → Ascii line → split_line line ≡ none
unfolding split_line
split_line-Ascii [] h = refl
split_line-Ascii (b ∷ bs) h = ground (arith, split_line-Ascii bs h.1)

loads_prompt-dumps_prompt :
    (prompt : String) → loads_prompt (dumps_prompt prompt) ≡ ok (some prompt)
unfolding loads_prompt dumps_prompt
loads_prompt-dumps_prompt prompt =
    ap prompt_in (loads_bytes-dumps_bytes (prompt_object prompt) (refl, (tt, tt)))

dumps_prompt-plain : (prompt : String) → split_line (dumps_prompt prompt) ≡ none
unfolding dumps_prompt
dumps_prompt-plain prompt =
    split_line-Ascii (dumps_bytes (prompt_object prompt)) (dumps_bytes-Ascii (prompt_object prompt))

-- Every prompt reaches the runner: whatever text it is, newlines and quotes included, and however its message is
-- cut into chunks, as soon as all of them have come `receive_prompt` has ended and returns it.
pub receive_prompt-loads_prompt :
    (prompt : String) (fuel : ℕ) (chunks : List Bytes)
    → concat chunks ≡ message dumps_prompt prompt
    → length chunks ≤ fuel
    → receive_prompt loads_prompt fuel chunks ≡ some (ok prompt)
receive_prompt-loads_prompt prompt fuel chunks =
    receive_prompt-message dumps_prompt loads_prompt prompt fuel chunks (dumps_prompt-plain prompt)
      (loads_prompt-dumps_prompt prompt)
