-- ===== src/Node/Window.antt =====
-- node/window.py: the end of `_deliver_prompt_and_collect`, which reads the reports of an agent_runner
-- from a stream and keeps the last one in the window.
pub mod Framing
pub mod Process
pub mod Resources
use agentic_juggling.Prelude.{
  ℕ, zero, suc, Bool, Option, none, some, List, [], ◌∷◌, ◌++◌, length, or_default,
}
use agentic_juggling.Prelude.Int.{ℤ}
use agentic_juggling.Prelude.Outcome.{Error, Outcome, ok, err}
use agentic_juggling.Primitives.{Bytes}
use agentic_juggling.Node.{AgentWindow}
use agentic_juggling.Node.Lines.{split_line}

-- the keys of a report that `_apply_metrics` reads
pub record Report : Type 0 where
  pub idle_seconds : Option ℤ
  pub tokens_used : Option ℤ

-- Where the collector is: it reads on, with `buf`; it has left its loop and closed the connection; or it
-- has raised.
pub data Reading : Type 0 where
  going : Bytes → Reading
  closed : Reading
  raised : Error → Reading

pub record Collector : Type 0 where
  pub window : AgentWindow
  pub reading : Reading

-- A key that is missing leaves the value as it was.
unfoldable pub apply_metrics : Report → AgentWindow → AgentWindow
apply_metrics r w = record w {
  idle_seconds = or_default r.idle_seconds w.idle_seconds;
  tokens_used = or_default r.tokens_used w.tokens_used;
}

-- A line that is not JSON ends the loop; another exception of the line's parser or of `data.get` is not caught.
unfoldable pub bad_line : Error → Reading
bad_line Error.decode_error = Reading.closed
bad_line e = Reading.raised e

module _ (loads : Bytes → Outcome Report) where
  -- `while b"\n" in buf`, on fuel: a round takes a newline away
  unfoldable pub drain : ℕ → AgentWindow → Bytes → Collector
  unfolding split_line apply_metrics bad_line
  drain zero w buf = record { window = w; reading = Reading.going buf }
  drain (suc fuel) w buf = elim (split_line buf) [
    | none ↦ record { window = w; reading = Reading.going buf }
    | some (line, rest) ↦ elim (loads line) [
      | ok r ↦ drain fuel (apply_metrics r w) rest
      | err e ↦ record { window = w; reading = bad_line e }
    ]
  ]

  -- one `recv` that returns: the peer has closed the stream when it returns nothing
  unfoldable pub receive : Bytes → Collector → Collector
  receive chunk c = elim c.reading [
    | Reading.going buf ↦ elim chunk [
      | [] ↦ record c { reading = Reading.closed }
      | b ∷ bs ↦ drain (length (buf ++ b ∷ bs)) c.window (buf ++ b ∷ bs)
    ]
    | Reading.closed ↦ c
    | Reading.raised e ↦ c
  ]

  unfoldable pub receive_all : List Bytes → Collector → Collector
  unfolding receive
  receive_all [] c = c
  receive_all (chunk ∷ chunks) c = receive_all chunks (receive chunk c)
