-- ===== src/Node/Run.antt =====
-- A node from its registration to its end: `run` of node/main.py with what its event loop interleaves, the messages
-- of the server, the tasks of the schedulers and the reports of the windows.
pub mod Quiet
pub mod Fate
pub mod Scheduled
pub mod Fires
use agentic_juggling.Prelude.{
  ℕ, String, Bool, Option, none, some, List, [], ◌∷◌, ◌++◌, nat_eq, if◌then◌else◌,
}
use agentic_juggling.Prelude.Int.{ℤ, leb_ℤ}
use agentic_juggling.Prelude.Dict.{modify}
use agentic_juggling.Prelude.Outcome.{Outcome}
use agentic_juggling.Primitives.{Primitives}
use agentic_juggling.World.{get_elem?, remove_at}
use agentic_juggling.Node.{FireTask, MatchScheduler, Node}
use agentic_juggling.Node.Scheduler.{fire}
use agentic_juggling.Node.Main.{StartPayload}
use agentic_juggling.Node.Connection.{dispatch}
use agentic_juggling.Node.Window.{Report, apply_metrics}

-- the node, and the schedulers that a START has put another in the place of: their tasks still hold them
pub record Running : Type 0 where
  pub node : Node
  pub retired : List MatchScheduler

pub data NodeEvent : Type 0 where
  -- a multipart message arrives; the i-th task ends its sleep, if it is over, and meets
  -- this when it opens its window; a window gets a report
  receive : List String → NodeEvent
  wake : ℕ → Outcome (Unit {0}) → NodeEvent
  report : String → Report → NodeEvent

-- a START that gets as far as a new scheduler leaves the old one to its tasks
abbrev pub retire : Node → Node → List MatchScheduler → List MatchScheduler
retire before after retired =
    if nat_eq before.next_scheduler after.next_scheduler
    then retired
    else (elim before.scheduler [ none ↦ retired | some sch ↦ retired ++ sch ∷ [] ])

abbrev pub find : ℕ → List MatchScheduler → Option MatchScheduler
find id [] = none
find id (sch ∷ schs) = let later = find id schs in if nat_eq sch.id id then some sch else later

abbrev pub current : ℕ → List MatchScheduler → Option MatchScheduler → Option MatchScheduler
current id retired none = find id retired
current id retired (some sch) = if nat_eq sch.id id then some sch else find id retired

module _ (p : Primitives) where
  -- the task's coroutine goes on, in the scheduler that created it
  abbrev pub fire_of : Option MatchScheduler → FireTask → Outcome (Unit {0}) → Node → Node
  fire_of none t spawned n = n
  fire_of (some sch) t spawned n = (fire p sch t spawned n).1

  -- The task is done, whether `_fire` raises or not.
  abbrev pub wake_task : ℤ → ℕ → Outcome (Unit {0}) → Option FireTask → Running → Running
  wake_task now i spawned none r = r
  wake_task now i spawned (some t) r =
      let n = record r.node { tasks = remove_at r.node.tasks i } in
      if leb_ℤ t.due now
      then record r { node = fire_of (current t.owner r.retired n.scheduler) t spawned n }
      else r

  module _ (default_agent : String) (loads : String → Option StartPayload) where
    unfoldable pub step : ℤ → NodeEvent → Running → Running
    step now (NodeEvent.receive frames) r =
        let n = (dispatch p default_agent loads now frames r.node).1 in
        record { node = n; retired = retire r.node n r.retired }
    step now (NodeEvent.wake i spawned) r = wake_task now i spawned (get_elem? r.node.tasks i) r
    step now (NodeEvent.report id said) r = record r {
      node = record r.node { windows = modify id (apply_metrics said) r.node.windows };
    }

    unfoldable pub run : List (ℤ × NodeEvent) → Running → Running
    unfolding step
    run [] r = r
    run ((now, e) ∷ es) r = run es (step now e r)
