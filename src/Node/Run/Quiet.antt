-- ===== src/Node/Run/Quiet.antt =====
-- A node between a STOP and the next START (node/main.py, node/scheduler.py).
use mathlib.Core.Path.{subst}
use agentic_juggling.World.{get_elem?}
use agentic_juggling.Prelude.{
  ℕ, String, false, not, ◌≡◌, refl, ap, Option, none, some, List, [], ◌∷◌, arith, ◌==◌, All, nat_eq,
  keep, ◌⊎◌, inl, inr, sym,
}
use agentic_juggling.Prelude.Int.{ℤ}
use agentic_juggling.Prelude.Dict.{Dict, lookup, erase, lookup-erase, lookup-modify}
use agentic_juggling.Primitives.{Primitives}
use agentic_juggling.Node.{AgentWindow, FireTask, MatchScheduler, Node}
use agentic_juggling.Node.Scheduler
use agentic_juggling.Node.Scheduler.{close_all}
use agentic_juggling.Node.Main.{StartPayload, on_stop, stop_scheduler, stop_reporter}
use agentic_juggling.Node.Connection.{dispatch}
use agentic_juggling.Node.Window.{apply_metrics}
use agentic_juggling.Node.Run.{Running, NodeEvent, wake_task, step, run}

-- no message of the event is a START
abbrev pub Calm : NodeEvent → Type 0
Calm (NodeEvent.receive []) = Unit
Calm (NodeEvent.receive (kind ∷ _)) = (kind == "START") ≡ false
Calm (NodeEvent.wake i spawned) = Unit
Calm (NodeEvent.report id r) = Unit

-- no task waits, and no window is open that is not among `open`
abbrev pub Quiet : Dict AgentWindow → Node → Type 0
Quiet before n =
    (n.tasks ≡ []) × ((id : String) → lookup id before ≡ none → lookup id n.windows ≡ none)

close_all-none :
    (id : String) (ids : List String) (ws : Dict AgentWindow)
    → lookup id ws ≡ none
    → lookup id (close_all ids ws) ≡ none
close_all-none id [] ws h = h
close_all-none id (j ∷ ids) ws h =
    close_all-none id ids (erase j ws) (ground (arith, lookup-erase j id ws))

stop_scheduler-Quiet :
    (ws : Dict AgentWindow) (o : Option MatchScheduler) (n : Node)
    → Quiet ws n
    → Quiet ws (stop_scheduler o n)
unfolding Scheduler.stop
stop_scheduler-Quiet ws none n h = h
stop_scheduler-Quiet ws (some sch) n h = (
  ap (keep (λ t. not (nat_eq t.owner sch.id))) h.0,
  λ id k. close_all-none id sch.windows n.windows (h.1 id k),
)

on_stop-Quiet : (ws : Dict AgentWindow) (n : Node) → Quiet ws n → Quiet ws (on_stop n)
unfolding on_stop
on_stop-Quiet ws n h =
    stop_scheduler-Quiet ws n.scheduler (record n { reporter = stop_reporter n.reporter }) h

keep_none :
    (id : ℕ) (ts : List FireTask)
    → All (λ t. t.owner ≡ id) ts
    → keep (λ t. not (nat_eq t.owner id)) ts ≡ []
keep_none id [] h = refl
keep_none id (t ∷ ts) h = ground (arith, keep_none id ts h.1)

no_tasks :
    (n : Node) (sch : MatchScheduler)
    → n.scheduler ≡ some sch
    → All (λ t. t.owner ≡ sch.id) n.tasks
    → (on_stop n).tasks ≡ []
unfolding on_stop Scheduler.stop
no_tasks n sch h k = rw h (keep_none sch.id n.tasks k)

module _ (p : Primitives) (agent : String) (loads : String → Option StartPayload) where
  -- a message that is no START stops the node or does nothing
  dispatch_calm :
      (now : ℤ) (kind raw : String) (frames : List String) (n : Node)
      → (kind == "START") ≡ false
      → ((dispatch p agent loads now (kind ∷ raw ∷ frames) n).1 ≡ n)
        ⊎ ((dispatch p agent loads now (kind ∷ raw ∷ frames) n).1 ≡ on_stop n)
  unfolding dispatch
  dispatch_calm now kind raw frames n c = ground arith

  dispatch-Quiet :
      (ws : Dict AgentWindow) (now : ℤ) (frames : List String) (n : Node)
      → Calm (NodeEvent.receive frames)
      → Quiet ws n
      → Quiet ws (dispatch p agent loads now frames n).1
  unfolding dispatch
  dispatch-Quiet ws now [] n c h = h
  dispatch-Quiet ws now (kind ∷ []) n c h = h
  dispatch-Quiet ws now (kind ∷ raw ∷ frames) n c h = elim (dispatch_calm now kind raw frames n c) [
    | inl e ↦ subst (Quiet ws) (sym e) h
    | inr e ↦ subst (Quiet ws) (sym e) (on_stop-Quiet ws n h)
  ]

  step-Quiet :
      (ws : Dict AgentWindow) (now : ℤ) (e : NodeEvent) (r : Running)
      → Calm e
      → Quiet ws r.node
      → Quiet ws (step p agent loads now e r).node
  unfolding step
  step-Quiet ws now (NodeEvent.receive frames) r c h = dispatch-Quiet ws now frames r.node c h
  step-Quiet ws now (NodeEvent.wake i spawned) r c h =
      subst (λ ts. Quiet ws (wake_task p now i spawned (get_elem? ts i) r).node) (sym h.0) h
  step-Quiet ws now (NodeEvent.report id said) r c h =
      (h.0, λ j k. ground (arith, h.1 j, lookup-modify id j (apply_metrics said) r.node.windows))

  run-Quiet :
      (ws : Dict AgentWindow) (es : List (ℤ × NodeEvent)) (r : Running)
      → All (λ e. Calm e.1) es
      → Quiet ws r.node
      → Quiet ws (run p agent loads es r).node
  unfolding run
  run-Quiet ws [] r c h = h
  run-Quiet ws ((now, e) ∷ es) r c h =
      run-Quiet ws es (step p agent loads now e r) c.1 (step-Quiet ws now e r c.0 h)

  -- After a STOP a node is quiet: if no task was left but those of the scheduler that the STOP ends, then whatever
  -- messages but a START, ends of sleeps and reports follow, no task waits and no window is open that the STOP had not
  -- left open.
  pub run-on_stop :
      (n : Node) (sch : MatchScheduler) (retired : List MatchScheduler) (es : List (ℤ × NodeEvent))
      → n.scheduler ≡ some sch
      → All (λ t. t.owner ≡ sch.id) n.tasks
      → All (λ e. Calm e.1) es
      → Quiet
          (on_stop n).windows
          (run p agent loads es (record { node = on_stop n; retired = retired })).node
  run-on_stop n sch retired es h k c =
      run-Quiet (on_stop n).windows es (record { node = on_stop n; retired = retired }) c
        (no_tasks n sch h k, λ id none. none)
