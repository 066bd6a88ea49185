-- ===== src/Node/Window/Process.antt =====
-- `open`, `close` and the first half of `_deliver_prompt_and_collect` of node/window.py: the Unix socket, the
-- temporary file and the xterm of a window. What the operating system answers is an argument of each call.
use Prim.Native.String
use agentic_juggling.Prelude.{
  String, Bool, true, false, not, Option, none, some, List, [], ◌∷◌, ◌++◌, ◌==◌, elem, keep,
  if◌then◌else◌,
}
use agentic_juggling.Prelude.Int.{ℤ, pos}
use agentic_juggling.Prelude.Outcome.{Error, Outcome, ok, err, Exec, lift, update, ◌>>◌}
use agentic_juggling.Primitives.{Bytes}
use agentic_juggling.Node.Runner.{message}

-- a socket: the path that it is bound to, and whether it is open
pub record Socket : Type 0 where
  pub path : Option String
  pub listening : Bool
  pub is_open : Bool

-- a process: its command line, its exit code if it has ended, and whether it was sent SIGTERM
pub record Process : Type 0 where
  pub argv : List String
  pub returncode : Option ℤ
  pub terminated : Bool

-- an `AgentWindow` with the resources that it holds
pub record Window : Type 0 where
  pub terminal_id : String
  pub agentname : String
  pub sock_path : Option String
  pub server_sock : Option Socket
  pub xterm_proc : Option Process
  pub idle_seconds : ℤ
  pub tokens_used : ℤ

-- the window, the files of the temporary directory, the keys of `_registry`, and the prompts that its tasks deliver
pub record Desk : Type 0 where
  pub window : Window
  pub files : List String
  pub registry : List String
  pub tasks : List String

unfoldable pub new_window : String → String → Window
new_window terminal_id agentname = record {
  terminal_id = terminal_id;
  agentname = agentname;
  sock_path = none;
  server_sock = none;
  xterm_proc = none;
  idle_seconds = pos 0;
  tokens_used = pos 0;
}

abbrev pub without : String → List String → List String
without x xs = keep (λ y. not (y == x)) xs

abbrev pub with_key : String → List String → List String
with_key x xs = if elem x xs then xs else xs ++ x ∷ []

abbrev set_window : (Window → Window) → Desk → Desk
set_window f d = record d { window = f d.window }

-- `bind`: an address that is in use is an OSError
unfoldable pub bind : String → Exec Desk (Unit {0})
bind path d = if elem path d.files then (err Error.os_error, d) else (
  ok tt,
  record d {
    files = path ∷ d.files;
    window = record d.window {
      server_sock = some (record { path = some path; listening = false; is_open = true });
    };
  },
)

-- the command line of the xterm
unfoldable pub xterm_argv : String → String → Window → List String
xterm_argv runner path w =
    "xterm"
    ∷ "-T"
    ∷ String.◌++◌ "agent:" w.terminal_id
    ∷ "-e"
    ∷ "python3"
    ∷ runner
    ∷ path
    ∷ w.agentname
    ∷ w.terminal_id
    ∷ []

-- `path` is what `mktemp` made up, `runner` the path of agent_runner.py, `spawned` whether the xterm could be started
unfoldable pub open_window : String → String → Outcome (Unit {0}) → String → Exec Desk (Unit {0})
unfolding bind xterm_argv
open_window path runner spawned prompt = do
  update (set_window (λ w. record w { sock_path = some path }))
  update (
      set_window (λ w. record w {
        server_sock = some (record { path = none; listening = false; is_open = true });
      }))
  bind path
  update (
      set_window (λ w. record w {
        server_sock = some (record { path = some path; listening = true; is_open = true });
      }))
  lift spawned
  update (λ d.
      set_window
        (λ w. record w {
          xterm_proc =
              some
                (record { argv = xterm_argv runner path w; returncode = none; terminated = false });
        })
        d)
  update (λ d. record d {
    registry = with_key d.window.terminal_id d.registry;
    tasks = d.tasks ++ prompt ∷ [];
  })

-- a file that is there is unlinked
abbrev pub unlink : Option String → List String → List String
unlink none files = files
unlink (some path) files = without path files

-- `if self._xterm_proc and self._xterm_proc.returncode is None: self._xterm_proc.terminate()`
abbrev pub terminate : Option Process → Option Process
terminate none = none
terminate (some x) = elim x.returncode [
  | none ↦ some (record x { terminated = true })
  | some code ↦ some x
]

abbrev pub shut : Option Socket → Option Socket
shut none = none
shut (some k) = some (record k { is_open = false; listening = false })

unfoldable pub close : Desk → Desk
close d =
    let w = d.window in
    record {
      window = record w { xterm_proc = terminate w.xterm_proc; server_sock = shut w.server_sock };
      files = unlink w.sock_path d.files;
      registry = without w.terminal_id d.registry;
      tasks = d.tasks;
    }

-- The runner connects within fifteen seconds, or does not. What the task sends to it, if it goes on to collect.
unfoldable pub deliver : (String → Bytes) → Bool → String → Desk → Option Bytes × Desk
unfolding message
deliver dumps connects prompt d =
    if connects
    then (some (message dumps prompt), record d { files = unlink d.window.sock_path d.files })
    else (none, d)

-- the xterm ends by itself
unfoldable pub exited : ℤ → Desk → Desk
exited code d =
    set_window
      (λ w. record w {
        xterm_proc = elim w.xterm_proc [
          | none ↦ none
          | some x ↦
              some (elim x.returncode [ none ↦ record x { returncode = some code } | some _ ↦ x ])
        ];
      })
      d
