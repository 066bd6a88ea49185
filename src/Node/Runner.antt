-- ===== src/Node/Runner.antt =====
-- node/agent_runner.py: `receive_prompt`, and the message of node/window.py that it waits for. The socket is
-- the list of the chunks that are still to arrive; at its end it returns nothing, at every call.
pub mod Delivery
pub mod Loop
pub mod Chunks
pub mod Counting
pub mod Pattern
pub mod Prompt
pub mod Report
pub mod Reports
pub mod Session
pub mod Tokens
use agentic_juggling.Prelude.{ℕ, zero, suc, String, Option, none, some, List, [], ◌∷◌, ◌++◌}
use agentic_juggling.Prelude.Outcome.{Error, Outcome, ok, err, or_raise}
use agentic_juggling.Primitives.{Bytes}
use agentic_juggling.Node.Lines.{newline, split_line}

-- `conn.recv(4096)`, and the chunks that are left
abbrev pub recv : List Bytes → Bytes × List Bytes
recv [] = ([], [])
recv (chunk ∷ chunks) = (chunk, chunks)

-- `json.dumps({"prompt": prompt}).encode() + b"\n"`, with the text of the object as bytes
unfoldable pub message : {T : Type 0} → (T → Bytes) → T → Bytes
message dumps prompt = dumps prompt ++ newline ∷ []

-- the line before the newline, or what comes of a wait
abbrev pub line_or : Option Bytes → Option (Bytes × Bytes) → Option Bytes
line_or later none = later
line_or later (some (line, rest)) = some line

-- `while b"\n" not in buf: buf += conn.recv(4096)` and the line that it has then, on fuel; `none`: it still
-- waits
unfoldable pub wait_line : ℕ → List Bytes → Bytes → Option Bytes
unfolding split_line
wait_line zero chunks buf = line_or none (split_line buf)
wait_line (suc fuel) chunks buf =
    let later = wait_line fuel (recv chunks).1 (buf ++ (recv chunks).0) in
    line_or later (split_line buf)

-- `json.loads(line)["prompt"]`
abbrev pub prompt_of :
    {T : Type 0} → (Bytes → Outcome (Option T)) → Option Bytes → Option (Outcome T)
prompt_of loads none = none
prompt_of loads (some line) =
    some (elim (loads line) [ ok prompt ↦ or_raise prompt Error.key_error | err e ↦ err e ])

-- `loads` makes of a line the value under the key, if it is there
unfoldable pub receive_prompt :
    {T : Type 0} → (Bytes → Outcome (Option T)) → ℕ → List Bytes → Option (Outcome T)
unfolding wait_line
receive_prompt loads fuel chunks = prompt_of loads (wait_line fuel chunks [])
