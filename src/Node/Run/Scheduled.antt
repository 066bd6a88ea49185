-- ===== src/Node/Run/Scheduled.antt =====
-- The tasks of a schedule (node/scheduler.py): each of its own terminal.
use mathlib.Core.Path.{subst}
use text.Mathlib.TextLemmas.{append_cancel_left}
use agentic_juggling.Prelude.{
  ℕ, zero, suc, ◌+◌, ◌<◌, String, false, ◌≡◌, ◌≢◌, ◌∙◌, sym, ap, some, List, [], ◌∷◌, ◌++◌, arith,
  ◌==◌, eq_iff, inl, inr, Bool-cases,
}
use agentic_juggling.Prelude.Int.{ℤ}
use agentic_juggling.Crypto.{SealedEntry}
use agentic_juggling.World.{get_elem?}
use agentic_juggling.Node.{FireTask}
use agentic_juggling.Node.Text.Distinct.{decimal_injective}
use agentic_juggling.Node.Scheduler.{terminal_id, due_at, fire_tasks}
use agentic_juggling.Node.Run.Fate.{Away, Waits}

terminal_id_injective : (m : String) (i j : ℕ) → terminal_id m i ≡ terminal_id m j → i ≡ j
unfolding terminal_id
terminal_id_injective m i j h =
    decimal_injective i j (append_cancel_left "-t" _ _ (append_cancel_left m _ _ h))

terminal_id_differ : (m : String) (i j : ℕ) → i ≢ j → (terminal_id m i == terminal_id m j) ≡ false
terminal_id_differ m i j ne = elim (Bool-cases (terminal_id m i == terminal_id m j)) [
  | inl e ↦ absurd (ne (terminal_id_injective m i j ((eq_iff _ _).0 e)))
  | inr e ↦ e
]

-- the task of the i-th entry
abbrev pub task_of : ℕ → String → ℤ → ℤ → ℕ → SealedEntry → FireTask
task_of owner m t0 now i s = record {
  owner = owner;
  due = due_at now t0 s.delay;
  terminal_id = terminal_id m i;
  encrypted_prompt = s.encrypted_prompt;
}

module _ (owner : ℕ) (m : String) (t0 now : ℤ) where
  later_tasks :
      (a i : ℕ) (ss : List SealedEntry)
      → a < i
      → Away (terminal_id m a) (fire_tasks owner m t0 now i ss)
  unfolding fire_tasks
  later_tasks a i [] h = tt
  later_tasks a i (s ∷ ss) h =
      (terminal_id_differ m i a (omega arith), later_tasks a (i + 1) ss (omega arith))

  -- each entry's task waits, and is the only one of its terminal
  Waits-fire_tasks :
      (i j : ℕ) (ss : List SealedEntry) {s : SealedEntry}
      → get_elem? ss i ≡ some s
      → Waits (task_of owner m t0 now (j + i) s) (fire_tasks owner m t0 now j ss)
  unfolding fire_tasks
  Waits-fire_tasks i j [] h = absurd (cc)
  Waits-fire_tasks zero j (x ∷ ss) {s} h =
      let q : x ≡ s = cc in
      inl (
        ap (λ (v : SealedEntry). task_of owner m t0 now j v) q
            ∙ ap (λ (a : ℕ). task_of owner m t0 now a s) (omega arith),
        later_tasks (j + 0) (j + 1) ss (omega arith),
      )
  Waits-fire_tasks (suc i) j (x ∷ ss) {s} h = inr (
    terminal_id_differ m j (j + suc i) (omega arith),
    subst (λ (a : ℕ). Waits (task_of owner m t0 now a s) (fire_tasks owner m t0 now (j + 1) ss))
        (omega arith) (Waits-fire_tasks i (j + 1) ss h),
  )

  -- so it is on a node that had no task
  pub Waits-append :
      (i : ℕ) (ss : List SealedEntry) (before after : List FireTask) {s : SealedEntry}
      → before ≡ []
      → after ≡ before ++ fire_tasks owner m t0 now 0 ss
      → get_elem? ss i ≡ some s
      → Waits (task_of owner m t0 now i s) after
  Waits-append i ss before after {s} none_before h g =
      let all = fire_tasks owner m t0 now 0 ss in
      subst (Waits (task_of owner m t0 now i s))
        (sym (h ∙ ap (λ (ts : List FireTask). ts ++ all) none_before))
        (subst (λ (a : ℕ). Waits (task_of owner m t0 now a s) all) (omega arith)
          (Waits-fire_tasks i 0 ss g))
