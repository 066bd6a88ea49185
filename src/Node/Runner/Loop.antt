-- ===== src/Node/Runner/Loop.antt =====
-- `run` and `feed_prompt` of node/agent_runner.py: the prompt goes to the agent, and its output is shown,
-- counted and reported. A run is given by what the operating system answers: the chunks that `os.read` returns until
-- it raises, the clock at each of its readings, and whether the window still takes a report.
use agentic_juggling.Prelude.{
  ℕ, ◌+◌, String, Bool, false, List, [], ◌∷◌, ◌++◌, if◌then◌else◌, or_default, take, drop, length,
}
use agentic_juggling.Prelude.Int.{ℤ, pos, ◌-ℤ◌, leb_ℤ}
use agentic_juggling.Prelude.Dict.{Dict, lookup}
use agentic_juggling.Primitives.{Bytes}
use agentic_juggling.Node.Lines.{newline}
use agentic_juggling.Node.Runner.Tokens.{count_tokens}

-- a round of `while True`: what was read, `time.time()` at its places in the order of the code, and
-- whether `conn.sendall` would succeed
pub record Round : Type 0 where
  pub chunk : Bytes
  pub output_at : ℤ
  pub checked_at : ℤ
  pub idle_at : ℤ
  pub pushed_at : ℤ
  pub listening : Bool

-- the object of `push_metrics`
pub record Message : Type 0 where
  pub terminal_id : String
  pub idle_seconds : ℤ
  pub tokens_used : ℕ

-- the local variables, what was written to stdout, and the messages that `conn.sendall` took
pub record Runner : Type 0 where
  pub tokens_used : ℕ
  pub last_output : ℤ
  pub last_push : ℤ
  pub shown : List (List ℕ)
  pub sent : List Message

-- `AGENT_COMMANDS`
abbrev agent_commands : Dict (List String)
agent_commands = ("claude", "claude" ∷ []) ∷ ("codex", "codex" ∷ []) ∷ ("cline", "cline" ∷ []) ∷ []

-- `AGENT_COMMANDS.get(agentname, [agentname])`
unfoldable pub command : String → List String
command agentname = or_default (lookup agentname agent_commands) (agentname ∷ [])

-- The PTY: whether it echoes, the bytes that were written to its master and that the line discipline has not taken yet, those that
-- it has taken for the agent, and those of them that it has echoed. Editing characters, the limits of a line and the form
-- in which a control character is echoed are left out.
pub record Pty : Type 0 where
  pub echo : Bool
  pub pending : Bytes
  pub input : Bytes
  pub echoed : Bytes

abbrev set_echo : Bool → Pty → Pty
set_echo on t = record t { echo = on }

-- `os.write`: as many of the bytes as the system takes; it returns before the line discipline has them
unfoldable pub write : ℕ → Bytes → Pty → Pty
write taken bytes t = record t { pending = t.pending ++ take taken bytes }

-- The line discipline takes some of the bytes that wait, and echoes them if the PTY echoes at that time.
unfoldable pub discipline : ℕ → Pty → Pty
discipline n t = record t {
  pending = drop n t.pending;
  input = t.input ++ take n t.pending;
  echoed = if t.echo then t.echoed ++ take n t.pending else t.echoed;
}

-- The number of bytes taken is not looked at. The line discipline takes `early` bytes between the write and the call that
-- restores the echo, which does not wait for it.
unfoldable pub feed_prompt : {T : Type 0} → (T → Bytes) → ℕ → ℕ → T → Pty → Pty
unfolding write discipline
feed_prompt encode taken early prompt t =
    let orig = t.echo in
    let quiet = set_echo false t in
    set_echo orig (discipline early (write taken (encode prompt ++ newline ∷ []) quiet))

-- the line discipline has taken all that waits
unfoldable pub settled : Pty → Pty
unfolding discipline
settled t = discipline (length t.pending) t

module _ (terminal_id : String) where
  unfoldable pub metrics_message : ℤ → Runner → Message
  metrics_message now s = record {
    terminal_id = terminal_id;
    idle_seconds = now -ℤ s.last_output;
    tokens_used = s.tokens_used;
  }

  -- an OSError of `sendall` is swallowed
  unfoldable pub push_metrics : ℤ → Bool → Runner → Runner
  unfolding metrics_message
  push_metrics now listening s =
      if listening then record s { sent = s.sent ++ metrics_message now s ∷ [] } else s

-- the text is shown and counted
unfoldable pub take_output : (Bytes → List ℕ) → Round → Runner → Runner
take_output decode r s = record s {
  shown = s.shown ++ decode r.chunk ∷ [];
  last_output = r.output_at;
  tokens_used = s.tokens_used + count_tokens (decode r.chunk);
}

-- what the loop starts with
abbrev pub begin : ℤ → ℤ → Runner
begin output_at push_at = record {
  tokens_used = 0;
  last_output = output_at;
  last_push = push_at;
  shown = [];
  sent = [];
}

module _ (terminal_id : String) (decode : Bytes → List ℕ) where
  -- five seconds or more since the last report
  unfoldable pub round : Round → Runner → Runner
  unfolding take_output push_metrics
  round r s =
      let s₁ = take_output decode r s in
      if leb_ℤ (pos 50_000) (r.checked_at -ℤ s₁.last_push)
      then record (push_metrics terminal_id r.idle_at r.listening s₁) { last_push = r.pushed_at }
      else s₁

  unfoldable pub rounds : List Round → Runner → Runner
  unfolding round
  rounds [] s = s
  rounds (r ∷ rs) s = rounds rs (round r s)

  -- from the prompt's delivery on, to the last report; the clock at the start of the loop and at the end
  unfoldable pub run : ℤ → ℤ → List Round → ℤ → Bool → Runner
  unfolding rounds
  run output_at push_at rs end_at listening =
      push_metrics terminal_id end_at listening (rounds rs (begin output_at push_at))
