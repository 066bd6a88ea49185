-- ===== src/Node.antt =====
-- The node's process (node/main.py and the modules it uses): its objects, its state file and the tasks of
-- its event loop.
pub mod Text
pub mod Lines
pub mod Window
pub mod Runner
pub mod Scheduler
pub mod Main
pub mod Connection
pub mod Run
use agentic_juggling.Prelude.{ℕ, String, Bool, Option, List}
use agentic_juggling.Prelude.Int.{ℤ}
use agentic_juggling.Prelude.Dict.{Dict}
use agentic_juggling.Crypto.{SealedEntry}
use agentic_juggling.NodeCrypto.{NodeCrypto}

-- what node/state.py writes to node_state.json
pub record Saved : Type 0 where
  pub match_id : String
  pub t0 : ℤ
  pub agentname : String
  pub schedule : List SealedEntry

-- a task that waits in `MatchScheduler._fire`: whose it is, when its sleep ends, what it will open
pub record FireTask : Type 0 where
  pub owner : ℕ
  pub due : ℤ
  pub terminal_id : String
  pub encrypted_prompt : String

-- a `MatchScheduler`: which one, its agent, its match, and the windows that it opened
pub record MatchScheduler : Type 0 where
  pub id : ℕ
  pub agentname : String
  pub match_id : Option String
  pub t0 : Option ℤ
  pub windows : List String

-- an open `AgentWindow`, by what the reports of its agent_runner last said
pub record AgentWindow : Type 0 where
  pub agentname : String
  pub prompt : String
  pub idle_seconds : ℤ
  pub tokens_used : ℤ

pub record Node : Type 0 where
  pub crypto : NodeCrypto
  -- the variables of `run`: the scheduler, and whether there is a reporter and it runs
  pub scheduler : Option MatchScheduler
  pub reporter : Option Bool
  -- the state file, the registry of window.py, the tasks that were created and not cancelled
  pub state_file : Option Saved
  pub windows : Dict AgentWindow
  pub tasks : List FireTask
  pub next_scheduler : ℕ
