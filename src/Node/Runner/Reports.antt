-- ===== src/Node/Runner/Reports.antt =====
-- The reports of node/agent_runner.py on their way to node/window.py.
use agentic_juggling.Prelude.{
  ℕ, zero, suc, String, true, ◌≡◌, refl, ◌∙◌, sym, ap, none, List, [], ◌∷◌, ◌++◌, arith, All,
}
use agentic_juggling.Prelude.Int.{ℤ, pos, ◌-ℤ◌}
use agentic_juggling.Prelude.Outcome.{Outcome, ok}
use agentic_juggling.Primitives.{Bytes}
use agentic_juggling.Node.{AgentWindow}
use agentic_juggling.Node.Lines.{newline, split_line, split_line-newline}
use agentic_juggling.Node.Window.{
  Report, Reading, Collector, apply_metrics, drain, receive, receive_all,
}
use agentic_juggling.Node.Window.Framing.{concat, resume, NonEmpty, receive_all_lem}
use agentic_juggling.Node.Runner.{message}
use agentic_juggling.Node.Runner.Report.{
  dumps_report, loads_report, loads_report-dumps_report, dumps_report-plain,
}
use agentic_juggling.Node.Runner.Tokens.{count_tokens}
use agentic_juggling.Node.Runner.Loop.{
  Round, Message, begin, metrics_message, push_metrics, rounds, run,
}
use agentic_juggling.Node.Runner.Counting.{Cuts, joined, texts, tokens_used-run}

-- the window after a message, with what it knew before in the other fields
abbrev pub shown_by : Message → AgentWindow → AgentWindow
shown_by m w = record w { idle_seconds = m.idle_seconds; tokens_used = pos m.tokens_used }

abbrev idle_collector : AgentWindow → Collector
idle_collector w = record { window = w; reading = Reading.going [] }

-- the collector after the stream, with a time and a count in the window
abbrev pub ended : AgentWindow → ℤ → ℕ → Collector
ended w idle_seconds n = record {
  window = record w { idle_seconds = idle_seconds; tokens_used = pos n };
  reading = Reading.closed;
}

-- `(msg + "\n").encode()` of each message
abbrev pub lines : List Message → List Bytes
lines [] = []
lines (m ∷ ms) = message dumps_report m ∷ lines ms

nothing_waits : split_line [] ≡ none
unfolding split_line
nothing_waits = refl

nonempty : (line : Bytes) → NonEmpty (line ++ newline ∷ [])
nonempty [] = tt
nonempty (b ∷ bs) = tt

lines-NonEmpty : (ms : List Message) → All NonEmpty (lines ms)
unfolding message
lines-NonEmpty [] = tt
lines-NonEmpty (m ∷ ms) = (nonempty (dumps_report m), lines-NonEmpty ms)

module _ (loads : Bytes → Outcome Report) where
  drain_nil : (fuel : ℕ) (w : AgentWindow) → drain loads fuel w [] ≡ idle_collector w
  unfolding drain split_line
  drain_nil zero w = refl
  drain_nil (suc fuel) w = refl

  drain_line :
      (fuel : ℕ) (w : AgentWindow) (line : Bytes) {r : Report}
      → split_line line ≡ none
      → loads line ≡ ok r
      → drain loads (suc fuel) w (line ++ newline ∷ []) ≡ idle_collector (apply_metrics r w)
  unfolding drain
  drain_line fuel w line {r} h k =
      ground (arith, split_line-newline line [] newline h refl, drain_nil fuel (apply_metrics r w))

  receive_line :
      (w : AgentWindow) (line : Bytes) {r : Report}
      → split_line line ≡ none
      → loads line ≡ ok r
      → receive loads (line ++ newline ∷ []) (idle_collector w) ≡ idle_collector (apply_metrics r w)
  unfolding receive
  receive_line w [] h k = drain_line 0 w [] h k
  receive_line w (b ∷ bs) h k = drain_line _ w (b ∷ bs) h k

-- the last of the messages stays in the window
receive_all-lines :
    (ms : List Message) (last : Message) (w : AgentWindow)
    → receive_all loads_report (lines (ms ++ last ∷ [])) (idle_collector w)
      ≡ idle_collector (shown_by last w)
unfolding receive_all apply_metrics message
receive_all-lines [] last w =
    receive_line loads_report w (dumps_report last) (dumps_report-plain last)
      (loads_report-dumps_report last)
receive_all-lines (m ∷ ms) last w =
    ap (receive_all loads_report (lines (ms ++ last ∷ []))) (
      receive_line loads_report w (dumps_report m) (dumps_report-plain m)
        (loads_report-dumps_report m))
    ∙ receive_all-lines ms last (shown_by m w)

receive_all-concat :
    (ms : List Message) (last : Message) (w : AgentWindow) (chunks : List Bytes)
    → All NonEmpty chunks
    → concat chunks ≡ concat (lines (ms ++ last ∷ []))
    → receive_all loads_report chunks (idle_collector w) ≡ idle_collector (shown_by last w)
receive_all-concat ms last w chunks h e =
    receive_all_lem loads_report w (Reading.going []) chunks nothing_waits h
    ∙ ap (resume loads_report (idle_collector w)) e
    ∙ sym (
        receive_all_lem loads_report w (Reading.going []) (lines (ms ++ last ∷ [])) nothing_waits
          (lines-NonEmpty (ms ++ last ∷ [])))
    ∙ receive_all-lines ms last w

-- From the agent's output to the window: however the output is cut into reads (each but the last ending with a
-- character that no report of tokens contains) and however the socket cuts the reports, when the runner has ended
-- and its last report was taken, the window shows the tokens of the whole output and the time from the last output
-- to the end, and the collector has closed.
pub receive_all-run :
    (terminal_id : String) (decode : Bytes → List ℕ) (output_at push_at end_at : ℤ)
    (rs : List Round) (w : AgentWindow) (chunks : List Bytes)
    → Cuts (texts decode rs)
    → All NonEmpty chunks
    → concat chunks ≡ concat (lines (run terminal_id decode output_at push_at rs end_at true).sent)
    → receive loads_report []
        (receive_all loads_report chunks (record { window = w; reading = Reading.going [] }))
      ≡ ended w
          (end_at -ℤ (rounds terminal_id decode rs (begin output_at push_at)).last_output)
          (count_tokens (joined (texts decode rs)))
unfolding run push_metrics metrics_message receive
receive_all-run terminal_id decode output_at push_at end_at rs w chunks h k e =
    let s = rounds terminal_id decode rs (begin output_at push_at) in
    ap (receive loads_report [])
      (receive_all-concat s.sent (metrics_message terminal_id end_at s) w chunks k e)
    ∙ ap (ended w (end_at -ℤ s.last_output))
        (tokens_used-run terminal_id decode output_at push_at end_at rs true h)
