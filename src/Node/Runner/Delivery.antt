-- ===== src/Node/Runner/Delivery.antt =====
-- A prompt on its way from node/window.py to node/agent_runner.py.
use agentic_juggling.Prelude.{
  ℕ, zero, suc, ◌≤◌, ◌≡◌, refl, ◌∙◌, sym, ap, Option, none, some, List, [], ◌∷◌, ◌++◌, length,
  arith, append-nil, Option-cases, inl, inr,
}
use mathlib.Core.List.{append_assoc}
use agentic_juggling.Prelude.Outcome.{Outcome, ok}
use agentic_juggling.Primitives.{Bytes}
use agentic_juggling.Node.Lines.{newline, split_line, split_line-append, split_line-newline}
use agentic_juggling.Node.Window.Framing.{concat}
use agentic_juggling.Node.Runner.{recv, line_or, message, prompt_of, wait_line, receive_prompt}

some-ne-none : {x : Bytes × Bytes} → some x ≡ none → ⊥
some-ne-none h = cc

wait_line-some :
    (fuel : ℕ) (chunks : List Bytes) (buf : Bytes) {line rest : Bytes}
    → split_line buf ≡ some (line, rest)
    → wait_line fuel chunks buf ≡ some line
unfolding wait_line
wait_line-some zero chunks buf h = rw h refl
wait_line-some (suc fuel) chunks buf h = rw h refl

wait_line_more :
    (fuel : ℕ) (chunks : List Bytes) (buf : Bytes)
    → split_line buf ≡ none
    → wait_line (suc fuel) chunks buf ≡ wait_line fuel (recv chunks).1 (buf ++ (recv chunks).0)
unfolding wait_line
wait_line_more fuel chunks buf h = rw h refl

-- With a round for each chunk the wait ends with the first line of the stream, if it has one.
wait_line_lem :
    (fuel : ℕ) (chunks : List Bytes) (buf : Bytes) {line rest : Bytes}
    → length chunks ≤ fuel
    → split_line (buf ++ concat chunks) ≡ some (line, rest)
    → wait_line fuel chunks buf ≡ some line
wait_line_lem fuel [] buf k h =
    wait_line-some fuel [] buf (ap split_line (sym (append-nil buf)) ∙ h)
wait_line_lem zero (c ∷ cs) buf k h = absurd (omega arith)
wait_line_lem (suc fuel) (c ∷ cs) buf {line} {rest} k h = elim (Option-cases (split_line buf)) [
  | inl e ↦
      wait_line_more fuel (c ∷ cs) buf e
      ∙ wait_line_lem fuel cs (buf ++ c) (omega arith)
          (ap split_line (append_assoc buf c (concat cs)) ∙ h)
  | inr ((l, r), e) ↦
      let same = sym (split_line-append buf (c ++ concat cs) e) ∙ h in
      wait_line-some (suc fuel) (c ∷ cs) buf e ∙ ap (line_or none) same
]

no_line : (buf more : Bytes) → split_line (buf ++ more) ≡ none → split_line buf ≡ none
no_line buf more h = elim (Option-cases (split_line buf)) [
  | inl e ↦ e
  | inr ((l, r), e) ↦ absurd (some-ne-none (sym (split_line-append buf more e) ∙ h))
]

-- Without a newline in the stream it has not ended after any number of rounds.
wait_line-none :
    (fuel : ℕ) (chunks : List Bytes) (buf : Bytes)
    → split_line (buf ++ concat chunks) ≡ none
    → wait_line fuel chunks buf ≡ none
unfolding wait_line
wait_line-none zero chunks buf h = rw (no_line buf (concat chunks) h) refl
wait_line-none (suc fuel) [] buf h =
    wait_line_more fuel [] buf (no_line buf [] h)
    ∙ wait_line-none fuel [] (buf ++ []) (ap split_line (append-nil (buf ++ [])) ∙ h)
wait_line-none (suc fuel) (c ∷ cs) buf h =
    wait_line_more fuel (c ∷ cs) buf (no_line buf (c ++ concat cs) h)
    ∙ wait_line-none fuel cs (buf ++ c) (ap split_line (append_assoc buf c (concat cs)) ∙ h)

-- A prompt that the window sends reaches the runner, however the message is cut into chunks: as soon as all of
-- them have come, `receive_prompt` has ended and returns it. The JSON text of the message is assumed to hold no
-- newline and to be read back.
pub receive_prompt-message :
    {T : Type 0} (dumps : T → Bytes) (loads : Bytes → Outcome (Option T)) (prompt : T) (fuel : ℕ)
    (chunks : List Bytes)
    → split_line (dumps prompt) ≡ none
    → loads (dumps prompt) ≡ ok (some prompt)
    → concat chunks ≡ message dumps prompt
    → length chunks ≤ fuel
    → receive_prompt loads fuel chunks ≡ some (ok prompt)
unfolding receive_prompt message
receive_prompt-message dumps loads prompt fuel chunks plain back sent enough =
    let first =
      wait_line_lem fuel chunks [] enough
        (ap split_line sent ∙ split_line-newline (dumps prompt) [] newline plain refl) in
    ap (prompt_of loads) first ∙ rw back refl

-- If the window closes the socket before it has sent a whole line, `receive_prompt` never ends: the calls that
-- follow return nothing, and it goes on calling.
pub receive_prompt_waits :
    {T : Type 0} (loads : Bytes → Outcome (Option T)) (fuel : ℕ) (chunks : List Bytes)
    → split_line (concat chunks) ≡ none
    → receive_prompt loads fuel chunks ≡ none
unfolding receive_prompt
receive_prompt_waits loads fuel chunks h = ap (prompt_of loads) (wait_line-none fuel chunks [] h)
