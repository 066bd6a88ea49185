-- ===== src/Node/Scheduler/Timing.antt =====
-- When the prompts of a schedule fire (node/scheduler.py).
use agentic_juggling.Prelude.{◌≡◌, inl, inr}
use agentic_juggling.Prelude.Int.{ℤ, pos, ◌+ℤ◌, ◌-ℤ◌, max_ℤ, max_ℤ_cases, int_laws}
use agentic_juggling.Node.Scheduler.{due_at}

-- A prompt fires at the start of the match plus its delay, and at once where that time has passed.
pub due_at_lem : (now t0 delay : ℤ) → due_at now t0 delay ≡ max_ℤ now (t0 +ℤ delay)
unfolding due_at
due_at_lem now t0 delay = elim (max_ℤ_cases (pos 0) (delay -ℤ (now -ℤ t0))) [
  | inl (l, e) ↦ elim (max_ℤ_cases now (t0 +ℤ delay)) [
    | inl (m, f) ↦ rw (e, f) (omega int_laws)
    | inr (m, f) ↦ rw (e, f) (omega int_laws)
  ]
  | inr (l, e) ↦ elim (max_ℤ_cases now (t0 +ℤ delay)) [
    | inl (m, f) ↦ rw (e, f) (omega int_laws)
    | inr (m, f) ↦ rw (e, f) (omega int_laws)
  ]
]
