-- ===== src/Node/Scheduler.antt =====
-- node/scheduler.py: one task for each entry of the schedule, and what a task does when it fires.
pub mod Timing
pub mod Firing
use Prim.Native.String
use agentic_juggling.Prelude.{
  ℕ, ◌+◌, String, Bool, true, false, not, Option, none, some, List, [], ◌∷◌, ◌++◌, nat_eq, keep,
  if◌then◌else◌,
}
use agentic_juggling.Prelude.Int.{ℤ, pos, ◌+ℤ◌, ◌-ℤ◌, max_ℤ, leb_ℤ}
use agentic_juggling.Prelude.Dict.{Dict, insert, erase}
use agentic_juggling.Prelude.Outcome.{
  Error, Outcome, ok, err, or_raise, Exec, pure, lift, gets, update, ◌>>=◌, ◌>>◌,
}
use agentic_juggling.Primitives.{Primitives}
use agentic_juggling.Crypto.{SealedEntry}
use agentic_juggling.NodeCrypto.{NodeCrypto, decrypt_prompt, revoke_match_key}
use agentic_juggling.Node.{FireTask, MatchScheduler, AgentWindow, Node}
use agentic_juggling.Node.Text.{decimal}

-- `f"{match_id}-t{i}"`
unfoldable pub terminal_id : String → ℕ → String
unfolding decimal
terminal_id match_id i = String.◌++◌ match_id (String.◌++◌ "-t" (decimal i))

-- the time at which the task of an entry wakes up: `_fire` sleeps for `max(0.0, delay - elapsed)`
unfoldable pub due_at : ℤ → ℤ → ℤ → ℤ
due_at now t0 delay = now +ℤ max_ℤ (pos 0) (delay -ℤ (now -ℤ t0))

-- the loop of `start`, from the i-th entry on
unfoldable pub fire_tasks : ℕ → String → ℤ → ℤ → ℕ → List SealedEntry → List FireTask
fire_tasks owner match_id t0 now i [] = []
fire_tasks owner match_id t0 now i (entry ∷ rest) =
    record {
      owner = owner;
      due = due_at now t0 entry.delay;
      terminal_id = terminal_id match_id i;
      encrypted_prompt = entry.encrypted_prompt;
    }
    ∷ fire_tasks owner match_id t0 now (i + 1) rest

-- `MatchScheduler.start`
unfoldable pub start : MatchScheduler → String → ℤ → ℤ → List SealedEntry → Node → Node
start sch match_id t0 now schedule n = record n {
  scheduler = some (record sch { match_id = some match_id; t0 = some t0 });
  tasks = n.tasks ++ fire_tasks sch.id match_id t0 now 0 schedule;
}

abbrev pub close_all : List String → Dict AgentWindow → Dict AgentWindow
close_all [] ws = ws
close_all (id ∷ ids) ws = close_all ids (erase id ws)

abbrev pub revoke : Option String → NodeCrypto → NodeCrypto
revoke none c = c
revoke (some match_id) c = revoke_match_key match_id c

-- `MatchScheduler.stop`
unfoldable pub stop : MatchScheduler → Node → Node
unfolding revoke_match_key
stop sch n = record n {
  crypto = revoke sch.match_id n.crypto;
  scheduler = some (record sch { windows = [] });
  windows = close_all sch.windows n.windows;
  tasks = keep (λ t. not (nat_eq t.owner sch.id)) n.tasks;
}

-- the scheduler appends to its windows; one that was replaced is out of the process's reach
unfoldable pub with_window : ℕ → String → Option MatchScheduler → Option MatchScheduler
with_window id window none = none
with_window id window (some sch) =
    if nat_eq sch.id id
    then some (record sch { windows = sch.windows ++ window ∷ [] })
    else some sch

module _ (p : Primitives) where
  abbrev pub on_crypto : {A : Type 0} → Exec NodeCrypto A → Exec Node A
  on_crypto m n = let (r, c) = m n.crypto in (r, record n { crypto = c })

  -- `_fire` of a scheduler after its sleep: decrypt, make a window, then open it with the prompt. `spawned` is what `open`
  -- meets: a socket that cannot be bound or an xterm that cannot be started raises, before the window is in the registry.
  unfoldable pub fire : MatchScheduler → FireTask → Outcome (Unit {0}) → Exec Node (Unit {0})
  unfolding with_window
  fire sch t spawned = do
    match_id ← lift (or_raise sch.match_id Error.value_error)
    prompt ← on_crypto (decrypt_prompt p match_id t.encrypted_prompt)
    update (λ n. record n { scheduler = with_window sch.id t.terminal_id n.scheduler })
    lift spawned
    update (λ n. record n {
      windows =
          insert t.terminal_id
            (record {
              agentname = sch.agentname;
              prompt = prompt;
              idle_seconds = pos 0;
              tokens_used = pos 0;
            })
            n.windows;
    })
