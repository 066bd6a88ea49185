-- ===== src/Node/Runner/Session.antt =====
-- `run` of node/agent_runner.py as a whole: the prompt comes over the socket, the agent is started and fed, and its
-- output is reported until it ends.
use agentic_juggling.Prelude.{ℕ, String, Bool, Option, none, some, List}
use agentic_juggling.Prelude.Int.{ℤ}
use agentic_juggling.Prelude.Outcome.{Outcome, ok, err}
use agentic_juggling.Primitives.{Bytes}
use agentic_juggling.Codec.Utf8.{utf8}
use agentic_juggling.Node.Runner.{receive_prompt}
use agentic_juggling.Node.Runner.Loop.{Pty, Round, Runner, command, feed_prompt, run}
use agentic_juggling.Node.Runner.Prompt.{loads_prompt}

-- the command that the child runs, its terminal, and the loop's variables at the end
pub record Session : Type 0 where
  pub argv : List String
  pub pty : Pty
  pub runner : Runner

-- what the operating system answers: the bytes of the prompt that it takes, those that the line discipline has when the
-- echo is restored, the clock, the reads, and whether
-- the window takes the last report
pub record Machine : Type 0 where
  pub pty : Pty
  pub taken : ℕ
  pub early : ℕ
  pub output_at : ℤ
  pub push_at : ℤ
  pub reads : List Round
  pub end_at : ℤ
  pub listening : Bool

module _ (decode : Bytes → List ℕ) (agentname terminal_id : String) (m : Machine) where
  abbrev pub with_prompt : String → Session
  with_prompt prompt = record {
    argv = command agentname;
    pty = feed_prompt utf8 m.taken m.early prompt m.pty;
    runner = run terminal_id decode m.output_at m.push_at m.reads m.end_at m.listening;
  }

  abbrev pub begun : Option (Outcome String) → Option (Outcome Session)
  begun none = none
  begun (some (err e)) = some (err e)
  begun (some (ok prompt)) = some (ok (with_prompt prompt))

  -- `none`: it still waits for its prompt
  unfoldable pub session : ℕ → List Bytes → Option (Outcome Session)
  unfolding receive_prompt loads_prompt utf8 command feed_prompt run
  session fuel chunks = begun (receive_prompt loads_prompt fuel chunks)
