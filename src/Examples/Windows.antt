-- ===== src/Examples/Windows.antt =====
-- The theorems on a window's resources, the server's socket and the hooks, at concrete inputs.
use agentic_juggling.Codec.Utf8.{utf8}
use agentic_juggling.Prelude.{true, false, ◌≡◌, refl, some, List, [], ◌∷◌, elem}
use agentic_juggling.Prelude.Int.{pos}
use agentic_juggling.Prelude.Outcome.{Error, ok, err}
use agentic_juggling.Registry
use agentic_juggling.Match.Store
use agentic_juggling.Server.Wire.{Payload, empty}
use agentic_juggling.Server.Router.Socket.{Received, message, zmq_error, Wiring, unopened, serve}
use agentic_juggling.Server.Router.Shutdown.{messages, serve_lem}
use agentic_juggling.Node.Window.Process.{Desk, new_window, open_window, close}
use agentic_juggling.Node.Window.Resources.{Happening, happen, Ended, Shut, close-open_window}

-- the runner connects, and the xterm ends before the window is closed
abbrev story : List Happening
story = Happening.waited true ∷ Happening.ended (pos 0) ∷ []

abbrev desk : Desk
desk = record {
  window = new_window "m1-t0" "claude";
  files = "/tmp/other" ∷ [];
  registry = "m0-t0" ∷ [];
  tasks = [];
}

path_free : elem "/tmp/aj_1.sock" ("/tmp/other" ∷ []) ≡ false
path_free = refl

close-open_window_example :
    let d = close (
      happen utf8 "hello" story
        (open_window "/tmp/aj_1.sock" "agent_runner.py" (ok tt) "hello" desk).1) in
    (d.files ≡ "/tmp/other" ∷ [])
    × (elem "m1-t0" d.registry ≡ false)
    × Shut d.window.server_sock
    × Ended d.window.xterm_proc
close-open_window_example =
    close-open_window utf8 "/tmp/aj_1.sock" "agent_runner.py" "m1-t0" "claude" "hello" (ok tt)
      ("/tmp/other" ∷ []) ("m0-t0" ∷ []) [] story path_free

abbrev wiring : Wiring
wiring = record { router = unopened; matches_open = true; metrics_open = true }

-- two messages with an error between them, then the HTTP server fails
abbrev arrived : List Received
arrived =
    message ("id1" ∷ "METRICS" ∷ "{}" ∷ []) ∷ zmq_error ∷ message ("id2" ∷ "HOOK" ∷ "{}" ∷ []) ∷ []

serve_lem_example :
    let (r, w') = serve (ok tt) arrived (err Error.cancelled) wiring in
    let (r', w'') = serve (err Error.os_error) arrived (err Error.cancelled) wiring in
    ((r ≡ err Error.cancelled)
      × (w'.router.dispatched ≡ messages arrived)
      × (w'.router.socket ≡ some false)
      × (w'.matches_open ≡ false)
      × (w'.metrics_open ≡ false))
    × ((r' ≡ err Error.os_error) × (w''.matches_open ≡ true) × (w''.metrics_open ≡ true))
serve_lem_example = serve_lem arrived (err Error.cancelled) Error.os_error wiring

abbrev entries : Payload
entries = record empty { match_id = some "m1" }
