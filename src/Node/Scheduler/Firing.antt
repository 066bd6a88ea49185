-- ===== src/Node/Scheduler/Firing.antt =====
-- A prompt fires, `_fire` of node/scheduler.py with `open` of node/window.py.
use agentic_juggling.Prelude.{String, ◌≡◌, Option, some, arith}
use agentic_juggling.Prelude.Dict.{lookup}
use agentic_juggling.Prelude.Outcome.{Error, Outcome, ok, err}
use agentic_juggling.Primitives.{Primitives}
use agentic_juggling.NodeCrypto.{NodeCrypto, decrypt_prompt}
use agentic_juggling.Node.{FireTask, MatchScheduler, AgentWindow, Node}
use agentic_juggling.Node.Scheduler.{fire, with_window}

-- the window of a terminal, `_registry.get(terminal_id)`
abbrev pub window_of : String → Node → Option AgentWindow
window_of id n = lookup id n.windows

-- opening a prompt changes nothing
pub crypto-decrypt_prompt :
    (p : Primitives) (m blob : String) (c : NodeCrypto) → (decrypt_prompt p m blob c).1 ≡ c
unfolding decrypt_prompt
crypto-decrypt_prompt p m blob c = ground arith

module _ (p : Primitives) (sch : MatchScheduler) (t : FireTask) (n : Node) {m : String} where
  -- A task of a scheduler that was started, whose prompt does not decrypt, raises, and nothing of the
  -- node has changed.
  fire_failure :
      (spawned : Outcome (Unit {0})) {e : Error}
      → sch.match_id ≡ some m
      → (decrypt_prompt p m t.encrypted_prompt n.crypto).0 ≡ err e
      → fire p sch t spawned n ≡ (err e, n)
  unfolding fire
  fire_failure spawned hm hp = ground (arith, crypto-decrypt_prompt p m t.encrypted_prompt n.crypto)

  -- One whose prompt decrypts and whose window cannot be opened raises too; the scheduler holds the window, which is not in
  -- the registry.
  fire_unopened :
      (prompt : String) {e : Error}
      → sch.match_id ≡ some m
      → (decrypt_prompt p m t.encrypted_prompt n.crypto).0 ≡ ok prompt
      → fire p sch t (err e) n
        ≡ (err e, record n { scheduler = with_window sch.id t.terminal_id n.scheduler })
  unfolding fire
  fire_unopened prompt hm hp = ground (arith, crypto-decrypt_prompt p m t.encrypted_prompt n.crypto)
