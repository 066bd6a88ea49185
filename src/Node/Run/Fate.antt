-- ===== src/Node/Run/Fate.antt =====
-- What can become of one entry of a schedule on a running node (node/scheduler.py): its task waits, or its window is open.
use agentic_juggling.Prelude.{
  ℕ, zero, suc, String, true, false, ◌≡◌, Option, none, some, List, [], ◌∷◌, arith, ◌==◌, All, ◌⊎◌,
  inl, inr,
}
use agentic_juggling.Prelude.Int.{ℤ, leb_ℤ}
use agentic_juggling.Prelude.Dict.{lookup}
use agentic_juggling.Prelude.Outcome.{ok}
use agentic_juggling.World.{get_elem?, remove_at}
use agentic_juggling.Node.{AgentWindow, FireTask, MatchScheduler, Node}
use agentic_juggling.Node.Run.{NodeEvent}

-- no task opens a window under the id
abbrev pub Away : String → List FireTask → Type 0
Away id = All (λ u. (u.terminal_id == id) ≡ false)

-- the task waits, and it is the only one under its id
abbrev pub Waits : FireTask → List FireTask → Type 0
Waits t [] = ⊥
Waits t (u ∷ us) =
    ((u ≡ t) × Away t.terminal_id us) ⊎ (((u.terminal_id == t.terminal_id) ≡ false) × Waits t us)

-- a window of the agent with the prompt
abbrev pub Shows : String → String → Option AgentWindow → Type 0
Shows agent prompt none = ⊥
Shows agent prompt (some w) = (w.agentname ≡ agent) × (w.prompt ≡ prompt)

-- The task waits, or its window is open: then no task waits for the id, and the task's time has come.
abbrev pub Fate : String → String → ℤ → FireTask → Node → Type 0
Fate agent prompt now t n =
    Waits t n.tasks
    ⊎ (Away t.terminal_id n.tasks
        × (leb_ℤ t.due now ≡ true)
        × Shows agent prompt (lookup t.terminal_id n.windows))

-- neither a START nor a STOP
abbrev pub Idle : NodeEvent → Type 0
Idle (NodeEvent.receive []) = Unit
Idle (NodeEvent.receive (kind ∷ _)) = ((kind == "START") ≡ false) × ((kind == "STOP") ≡ false)
Idle (NodeEvent.wake i spawned) = Unit
Idle (NodeEvent.report id r) = Unit

-- a window that is to open can be opened: its socket is bound and its xterm starts
abbrev pub Spawns : NodeEvent → Type 0
Spawns (NodeEvent.receive frames) = Unit
Spawns (NodeEvent.wake i spawned) = spawned ≡ ok tt
Spawns (NodeEvent.report id r) = Unit

-- the scheduler in place is the one of the match
abbrev pub Runs : ℕ → String → String → Option MatchScheduler → Type 0
Runs id agent m none = ⊥
Runs id agent m (some sch) = (sch.id ≡ id) × (sch.agentname ≡ agent) × (sch.match_id ≡ some m)

pub Away-remove_at :
    (id : String) (ts : List FireTask) (i : ℕ) → Away id ts → Away id (remove_at ts i)
Away-remove_at id [] i h = tt
Away-remove_at id (t ∷ ts) zero h = h.1
Away-remove_at id (t ∷ ts) (suc i) h = (h.0, Away-remove_at id ts i h.1)

pub Away-get_elem? :
    (id : String) (ts : List FireTask) (i : ℕ) {u : FireTask}
    → Away id ts
    → get_elem? ts i ≡ some u
    → (u.terminal_id == id) ≡ false
Away-get_elem? id [] i h e = cc
Away-get_elem? id (t ∷ ts) zero h e = ground (arith, h.0)
Away-get_elem? id (t ∷ ts) (suc i) h e = Away-get_elem? id ts i h.1 e

-- taking out the i-th task takes out the one that waits, or another
pub Waits-remove_at :
    (t : FireTask) (ts : List FireTask) (i : ℕ) {u : FireTask}
    → Waits t ts
    → get_elem? ts i ≡ some u
    → ((u ≡ t) × Away t.terminal_id (remove_at ts i))
      ⊎ (((u.terminal_id == t.terminal_id) ≡ false) × Waits t (remove_at ts i))
Waits-remove_at t [] i h e = elim h [ ]
Waits-remove_at t (v ∷ ts) zero {u} (inl (a, b)) e = inl (cc, b)
Waits-remove_at t (v ∷ ts) zero {u} (inr (a, b)) e = inr (ground arith, b)
Waits-remove_at t (v ∷ ts) (suc i) {u} (inl (a, b)) e =
    inr (Away-get_elem? t.terminal_id ts i b e, inl (a, Away-remove_at t.terminal_id ts i b))
Waits-remove_at t (v ∷ ts) (suc i) {u} (inr (a, b)) e = elim (Waits-remove_at t ts i b e) [
  | inl (q, away) ↦ inl (q, (a, away))
  | inr (q, w) ↦ inr (q, inr (a, w))
]
