-- ===== src/Node/Run/Fires.antt =====
-- A running node brings each entry of its schedule to its window (node/main.py, node/scheduler.py).
use mathlib.Core.Path.{subst}
use agentic_juggling.Prelude.{
  ℕ, String, true, false, ◌≡◌, refl, sym, ap, Option, none, some, List, [], ◌∷◌, arith, ◌==◌,
  eq_refl, All, nat_eq, ◌⊎◌, inl, inr, Bool-cases, Option-cases,
}
use agentic_juggling.Prelude.Int.{ℤ, pos, leb_ℤ}
use agentic_juggling.Prelude.Dict.{lookup, lookup-insert, lookup-modify, map_option, insert, modify}
use agentic_juggling.Prelude.Outcome.{Outcome, ok, err}
use agentic_juggling.Primitives.{Primitives}
use agentic_juggling.World.{get_elem?, remove_at}
use agentic_juggling.NodeCrypto.{NodeCrypto, decrypt_prompt}
use agentic_juggling.Node.{AgentWindow, FireTask, MatchScheduler, Node}
use agentic_juggling.Node.Scheduler.{fire, with_window}
use agentic_juggling.Node.Scheduler.Firing.{crypto-decrypt_prompt}
use agentic_juggling.Node.Main.{StartPayload}
use agentic_juggling.Node.Connection.{dispatch}
use agentic_juggling.Node.Window.{Report, apply_metrics}
use agentic_juggling.Node.Run.Fate.{
  Away, Shows, Fate, Idle, Spawns, Runs, Away-remove_at, Away-get_elem?, Waits-remove_at,
}
use agentic_juggling.Node.Run.{Running, NodeEvent, current, fire_of, wake_task, step, run}

module _ (p : Primitives) where
  -- what a prompt that opens makes of the node
  abbrev opened : MatchScheduler → FireTask → String → Node → Node
  opened sch t prompt n = record n {
    scheduler = with_window sch.id t.terminal_id n.scheduler;
    windows =
        insert t.terminal_id
          (record {
            agentname = sch.agentname;
            prompt = prompt;
            idle_seconds = pos 0;
            tokens_used = pos 0;
          })
          n.windows;
  }

  -- what one whose window cannot be opened makes of it
  abbrev unopened : MatchScheduler → FireTask → Node → Node
  unopened sch t n = record n { scheduler = with_window sch.id t.terminal_id n.scheduler }

  fire_ok :
      (sch : MatchScheduler) (t : FireTask) (n : Node) (m prompt : String)
      → sch.match_id ≡ some m
      → (decrypt_prompt p m t.encrypted_prompt n.crypto).0 ≡ ok prompt
      → (fire p sch t (ok tt) n).1 ≡ opened sch t prompt n
  unfolding fire
  fire_ok sch t n m prompt hm hp =
      ground (arith, crypto-decrypt_prompt p m t.encrypted_prompt n.crypto)

  abbrev Opens : MatchScheduler → FireTask → Outcome (Unit {0}) → Node → Type 0
  Opens sch t spawned n =
      ((fire p sch t spawned n).1 ≡ n)
      ⊎ (((fire p sch t spawned n).1 ≡ unopened sch t n)
          ⊎ ((prompt : String) × ((fire p sch t spawned n).1 ≡ opened sch t prompt n)))

  fire_by :
      (sch : MatchScheduler) (t : FireTask) (spawned : Outcome (Unit {0})) (n : Node) (m : String)
      → sch.match_id ≡ some m
      → (r : Outcome String) → (decrypt_prompt p m t.encrypted_prompt n.crypto).0 ≡ r
      → Opens sch t spawned n
  unfolding fire
  fire_by sch t (ok tt) n m hm (ok prompt) h = inr (inr (prompt, fire_ok sch t n m prompt hm h))
  fire_by sch t (err x) n m hm (ok prompt) h =
      inr (inl (ground (arith, crypto-decrypt_prompt p m t.encrypted_prompt n.crypto)))
  fire_by sch t spawned n m hm (err e) h =
      inl (ground (arith, crypto-decrypt_prompt p m t.encrypted_prompt n.crypto))

  -- a task that goes on opens its window, fails to, or does nothing
  fire_cases :
      (sch : MatchScheduler) (t : FireTask) (spawned : Outcome (Unit {0})) (n : Node)
      → Opens sch t spawned n
  unfolding fire
  fire_cases sch t spawned n = elim (Option-cases sch.match_id) [
    | inl e ↦ inl (ground arith)
    | inr (m, e) ↦
        fire_by sch t spawned n m e (decrypt_prompt p m t.encrypted_prompt n.crypto).0 refl
  ]

  Runs-with_window :
      (id i : ℕ) (agent m w : String) (o : Option MatchScheduler)
      → Runs id agent m o
      → Runs id agent m (with_window i w o)
  unfolding with_window
  Runs-with_window id i agent m w none h = elim h [ ]
  Runs-with_window id i agent m w (some sch) h = elim (Bool-cases (nat_eq sch.id i)) [
    | inl e ↦ rw e h
    | inr e ↦ rw e h
  ]

module _ (p : Primitives) (id : ℕ) (agent m prompt : String) (until : ℤ) (t : FireTask)
    (c : NodeCrypto) where
  abbrev Kept : Node → Type 0
  Kept n = Runs id agent m n.scheduler × (n.crypto ≡ c) × Fate agent prompt until t n

  opened-Kept :
      (sch : MatchScheduler) (u : FireTask) (q : String) (n : Node)
      → (u.terminal_id == t.terminal_id) ≡ false
      → Kept n
      → Kept (opened p sch u q n)
  opened-Kept sch u q n ne (r, e, inl w) =
      (Runs-with_window p id sch.id agent m u.terminal_id n.scheduler r, e, inl w)
  opened-Kept sch u q n ne (r, e, inr (away, due, shows)) = (
    Runs-with_window p id sch.id agent m u.terminal_id n.scheduler r,
    e,
    inr (away, due, rw (lookup-insert, ne) shows),
  )

  unopened-Kept :
      (sch : MatchScheduler) (u : FireTask) (n : Node) → Kept n → Kept (unopened p sch u n)
  unopened-Kept sch u n (r, e, f) =
      (Runs-with_window p id sch.id agent m u.terminal_id n.scheduler r, e, f)

  -- another task goes on
  other-Kept :
      (o : Option MatchScheduler) (u : FireTask) (spawned : Outcome (Unit {0})) (n : Node)
      → (u.terminal_id == t.terminal_id) ≡ false
      → Kept n
      → Kept (fire_of p o u spawned n)
  other-Kept none u spawned n ne k = k
  other-Kept (some sch) u spawned n ne k = elim (fire_cases p sch u spawned n) [
    | inl e ↦ subst Kept (sym e) k
    | inr (inl e) ↦ subst Kept (sym e) (unopened-Kept sch u n k)
    | inr (inr (q, e)) ↦ subst Kept (sym e) (opened-Kept sch u q n ne k)
  ]

  module _ (owner : t.owner ≡ id)
      (opens : (decrypt_prompt p m t.encrypted_prompt c).0 ≡ ok prompt) where
    -- the task itself goes on
    own-Kept :
        (retired : List MatchScheduler) (o : Option MatchScheduler) (n : Node)
        → n.scheduler ≡ o
        → Runs id agent m o
        → n.crypto ≡ c
        → Away t.terminal_id n.tasks
        → leb_ℤ t.due until ≡ true
        → Kept (fire_of p (current t.owner retired o) t (ok tt) n)
    own-Kept retired none n h r e away due = elim r [ ]
    own-Kept retired (some sch) n h r e away due = rw same_id (subst Kept (sym fired) kept)
      where
        same_id : nat_eq sch.id t.owner ≡ true
        same_id = ground (arith, r.0, owner)

        fired : (fire p sch t (ok tt) n).1 ≡ opened p sch t prompt n
        fired = fire_ok p sch t n m prompt r.2 (rw e opens)

        kept : Kept (opened p sch t prompt n)
        kept = (
          Runs-with_window p id sch.id agent m t.terminal_id n.scheduler
              (subst (Runs id agent m) (sym h) r),
          e,
          inr (away, due, rw (lookup-insert, eq_refl t.terminal_id) (r.1, refl)),
        )

    wake-Kept :
        (now : ℤ) (i : ℕ) (r : Running) (o : Option FireTask)
        → leb_ℤ now until ≡ true
        → get_elem? r.node.tasks i ≡ o
        → Kept r.node
        → Kept (wake_task p now i (ok tt) o r).node
    wake-Kept now i r none h e k = k
    wake-Kept now i r (some u) h e k = elim (Bool-cases (leb_ℤ u.due now)) [
      | inl d ↦ rw d (go (k.2) d)
      | inr d ↦ rw d k
    ]
      where
        n : Node
        n = record r.node { tasks = remove_at r.node.tasks i }

        go :
            Fate agent prompt until t r.node
            → leb_ℤ u.due now ≡ true
            → Kept (fire_of p (current u.owner r.retired r.node.scheduler) u (ok tt) n)
        go (inl w) d = elim (Waits-remove_at t r.node.tasks i w e) [
          | inl (q, away) ↦
              subst (λ v. Kept (fire_of p (current v.owner r.retired r.node.scheduler) v (ok tt) n))
                (sym q)
                (own-Kept r.retired r.node.scheduler n refl k.0 k.1 away
                  (ground (arith, ap (λ v. v.due) q)))
          | inr (ne, w') ↦ other-Kept _ u (ok tt) n ne (k.0, k.1, inl w')
        ]
        go (inr (away, due, shows)) d =
            other-Kept _ u (ok tt) n (Away-get_elem? t.terminal_id r.node.tasks i away e)
              (k.0, k.1, inr (Away-remove_at t.terminal_id r.node.tasks i away, due, shows))

    Shows-report :
        (said : Report) (o : Option AgentWindow)
        → Shows agent prompt o
        → Shows agent prompt (map_option (apply_metrics said) o)
    unfolding apply_metrics
    Shows-report said none h = h
    Shows-report said (some w) h = h

    report-Kept :
        (j : String) (said : Report) (n : Node)
        → Kept n
        → Kept (record n { windows = modify j (apply_metrics said) n.windows })
    report-Kept j said n (r, e, inl w) = (r, e, inl w)
    report-Kept j said n (r, e, inr (away, due, shows)) = (
      r,
      e,
      inr (
        away,
        due,
        elim (Bool-cases (j == t.terminal_id)) [
          | inl q ↦ rw (lookup-modify, q) (Shows-report said (lookup t.terminal_id n.windows) shows)
          | inr q ↦ rw (lookup-modify, q) shows
        ],
      ),
    )

    module _ (default_agent : String) (loads : String → Option StartPayload) where
      dispatch-Idle :
          (now : ℤ) (frames : List String) (n : Node)
          → Idle (NodeEvent.receive frames)
          → (dispatch p default_agent loads now frames n).1 ≡ n
      unfolding dispatch
      dispatch-Idle now [] n h = refl
      dispatch-Idle now (kind ∷ []) n h = refl
      dispatch-Idle now (kind ∷ raw ∷ frames) n h = ground (arith, h.0, h.1)

      step-Kept :
          (now : ℤ) (e : NodeEvent) (r : Running)
          → leb_ℤ now until ≡ true
          → Idle e
          → Spawns e
          → Kept r.node
          → Kept (step p default_agent loads now e r).node
      unfolding step
      step-Kept now (NodeEvent.receive frames) r h i _ k =
          subst Kept (sym (dispatch-Idle now frames r.node i)) k
      step-Kept now (NodeEvent.wake i spawned) r h _ works k =
          subst (λ o. Kept (wake_task p now i o (get_elem? r.node.tasks i) r).node) (sym works)
            (wake-Kept now i r (get_elem? r.node.tasks i) h refl k)
      step-Kept now (NodeEvent.report j said) r h i _ k = report-Kept j said r.node k

      -- whatever but a START and a STOP happens until then
      pub run-Kept :
          (es : List (ℤ × NodeEvent)) (r : Running)
          → All (λ e. (leb_ℤ e.0 until ≡ true) × Idle e.1 × Spawns e.1) es
          → Kept r.node
          → Kept (run p default_agent loads es r).node
      unfolding run
      run-Kept [] r h k = k
      run-Kept ((now, e) ∷ es) r h k =
          run-Kept es (step p default_agent loads now e r) h.1
            (step-Kept now e r h.0.0 h.0.1 h.0.2 k)
