-- ===== src/Node/Main/Resume.antt =====
-- A node that reconnects in a match, `resume_if_needed` of node/main.py with node/state.py.
use agentic_juggling.Prelude.{String, true, ◌≡◌, some, arith}
use agentic_juggling.Prelude.Int.{ℤ}
use agentic_juggling.Prelude.Outcome.{Error, err}
use agentic_juggling.Primitives.{Primitives}
use agentic_juggling.Node.{Saved, Node}
use agentic_juggling.Node.Main.{resume_if_needed, on_start, of_saved}

-- The state file has no match key, which the START handler needs: whatever was saved, a node that the server
-- says was running raises a KeyError, and nothing of it has changed.
pub resume_if_needed_raises :
    (p : Primitives) (default_agent : String) (now : ℤ) (n : Node) {saved : Saved}
    → n.state_file ≡ some saved
    → resume_if_needed p default_agent now true n ≡ (err Error.key_error, n)
unfolding resume_if_needed on_start of_saved
resume_if_needed_raises p default_agent now n h = ground arith
