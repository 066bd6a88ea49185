-- ===== src/Examples/Output.antt =====
-- The theorems on the output of an agent and its reports, at a run of two rounds.
use agentic_juggling.Prelude.{ℕ, true, ◌≡◌, refl, List, [], ◌∷◌, ◌++◌}
use agentic_juggling.Prelude.Int.{pos, ◌-ℤ◌}
use agentic_juggling.Prelude.Unicode.{codes}
use agentic_juggling.Primitives.{Bytes}
use agentic_juggling.Node.{AgentWindow}
use agentic_juggling.Node.Window.{Reading, receive, receive_all}
use agentic_juggling.Node.Window.Framing.{concat}
use agentic_juggling.Node.Runner.{message}
use agentic_juggling.Node.Runner.Report.{dumps_report, loads_report}
use agentic_juggling.Json.Text.{escape}
use agentic_juggling.Json.Number.{digits}
use agentic_juggling.Node.Runner.Tokens.{count_tokens, token_prefix, token_group}
use agentic_juggling.Node.Runner.Loop.{Round, Message, begin, rounds, run}
use agentic_juggling.Node.Runner.Counting.{Plain, Whole, Brisk, joined, texts, rounds-Brisk}
use agentic_juggling.Node.Runner.Reports.{lines, ended, receive_all-run}

-- two reports of tokens, in letters of either case, and a word that is none
counted : count_tokens (codes "Tokens: 12, input 30 to tokentokens:5x") ≡ 47
unfolding count_tokens
counted = refl

-- a report that is cut by two reads: 12 and then nothing, in place of 1234
cut : count_tokens (codes "tokens: 12") ≡ 12
unfolding count_tokens
cut = refl

cut_off : count_tokens (codes "34") ≡ 0
unfolding count_tokens
cut_off = refl

-- the output "tokens 7." at once, "!" ten seconds later
abbrev first_round : Round
first_round = record {
  chunk = codes "tokens 7.";
  output_at = pos 10_000;
  checked_at = pos 10_000;
  idle_at = pos 10_000;
  pushed_at = pos 10_000;
  listening = true;
}

abbrev second_round : Round
second_round = record {
  chunk = codes "!";
  output_at = pos 110_000;
  checked_at = pos 110_000;
  idle_at = pos 110_001;
  pushed_at = pos 110_001;
  listening = true;
}

abbrev two_rounds : List Round
two_rounds = first_round ∷ second_round ∷ []

abbrev as_text : Bytes → List ℕ
as_text bytes = bytes

rounds-Brisk_example :
    (ms : List Message) × ((rounds "m1-t0" as_text two_rounds (begin (pos 0) (pos 0))).sent
      ≡ [] ++ ms)
    × Brisk two_rounds ms
rounds-Brisk_example = rounds-Brisk "m1-t0" as_text two_rounds (begin (pos 0) (pos 0))

full_stop-Plain : Plain 46
unfolding token_prefix token_group
full_stop-Plain = (
  ((
    ((refl, (refl, (refl, (refl, (refl, refl))))), refl),
    ((refl, (refl, (refl, (refl, refl)))), refl),
  )),
  refl,
)

first-Whole : Whole (codes "tokens 7.")
first-Whole = (codes "tokens 7", 46, refl, full_stop-Plain)

-- the two reports as the socket cuts them
abbrev chunks : List Bytes
chunks =
    codes "{\"terminal_id\": \"m1-t0\", \"idle_sec"
    ∷ (codes "onds\": 0.0001, \"tokens_used\": 7}"
        ++ 10 ∷ codes "{\"terminal_id\": \"m1-t0\", \"idle_seconds\": 4.0, \"token")
    ∷ (codes "s_used\": 7}" ++ 10 ∷ [])
    ∷ []

sent :
    concat chunks
    ≡ concat (lines (run "m1-t0" as_text (pos 0) (pos 0) two_rounds (pos 150_000) true).sent)
unfolding run count_tokens ◌-ℤ◌ message dumps_report escape digits
sent = refl

abbrev window : AgentWindow
window = record { agentname = "claude"; prompt = "hi"; idle_seconds = pos 0; tokens_used = pos 0 }

receive_all-run_example :
    receive loads_report []
      (receive_all loads_report chunks (record { window = window; reading = Reading.going [] }))
    ≡ ended window
        (pos 150_000 -ℤ (rounds "m1-t0" as_text two_rounds (begin (pos 0) (pos 0))).last_output)
        (count_tokens (joined (texts as_text two_rounds)))
receive_all-run_example =
    receive_all-run "m1-t0" as_text (pos 0) (pos 0) (pos 150_000) two_rounds window chunks
      (first-Whole, tt) (tt, (tt, (tt, tt))) sent
