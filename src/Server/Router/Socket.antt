-- ===== src/Server/Router/Socket.antt =====
-- `start`, `stop`, `broadcast` and `_recv_loop` of central_server/network/router.py, and what main of
-- central_server/main.py does around the HTTP server.
use agentic_juggling.Prelude.{
  String, Bool, true, false, Option, none, some, List, [], ◌∷◌, ◌++◌, if◌then◌else◌,
}
use agentic_juggling.Prelude.Dict.{Dict}
use agentic_juggling.Prelude.Outcome.{Outcome, Exec, lift, update, ◌>>◌}
use agentic_juggling.Server.{Server}
use agentic_juggling.Server.Wire.{Message}
use agentic_juggling.Server.Router.{send}

-- `_socket` (whether it is open), whether the context is terminated, `_running`, whether the task of `_recv_loop`
-- lives, and the messages for which it has created a task of `_dispatch`
pub record Endpoint : Type 0 where
  pub socket : Option Bool
  pub terminated : Bool
  pub running : Bool
  pub reading : Bool
  pub dispatched : List (List String)

-- after `__init__`
abbrev pub unopened : Endpoint
unopened = record {
  socket = none;
  terminated = false;
  running = false;
  reading = false;
  dispatched = [];
}

-- what a `recv_multipart` ends with
pub data Received : Type 0 where
  message : List String → Received
  zmq_error : Received

-- the task of `_recv_loop` is created
abbrev pub listen : Endpoint → Endpoint
listen l = record l { running = true; reading = true }

-- `bound`: what `bind` does
unfoldable pub start : Outcome (Unit {0}) → Exec Endpoint (Unit {0})
start bound = do update (λ l. record l { socket = some true }); lift bound; update listen

abbrev shut : Option Bool → Option Bool
shut none = none
shut (some _) = some false

unfoldable pub stop : Endpoint → Endpoint
stop l = record l { running = false; socket = shut l.socket; terminated = true }

-- A `recv_multipart` that waits ends, and the loop looks at `_running`. An error is logged at most.
unfoldable pub recv_round : Received → Endpoint → Endpoint
recv_round (message frames) l =
    if l.reading
    then record l { dispatched = l.dispatched ++ frames ∷ []; reading = l.running }
    else l
recv_round zmq_error l = if l.reading then record l { reading = l.running } else l

unfoldable pub recv_loop : List Received → Endpoint → Endpoint
unfolding recv_round
recv_loop [] l = l
recv_loop (r ∷ rs) l = recv_loop rs (recv_round r l)

-- per-node payloads, to the nodes that are connected
unfoldable pub broadcast : Dict Message → Server → Server
unfolding send
broadcast [] s = s
broadcast ((node_id, payload) ∷ rest) s = broadcast rest (send node_id payload s).1

-- the two databases and the router, while the HTTP server runs
pub record Wiring : Type 0 where
  pub router : Endpoint
  pub matches_open : Bool
  pub metrics_open : Bool

abbrev pub on_router : {A : Type 0} → Exec Endpoint A → Exec Wiring A
on_router m w = let (r, l) = m w.router in (r, record w { router = l })

-- `init` opened the databases; `finally`, if `try` was reached
abbrev shutdown : Outcome (Unit {0}) → Exec Wiring (Unit {0})
shutdown served w =
    (served, record { router = stop w.router; matches_open = false; metrics_open = false })

abbrev receiving : List Received → Wiring → Wiring
receiving rs w = record w { router = recv_loop rs w.router }

-- `main` from the boot on: what `bind` does, what arrives while the HTTP server runs, and how it ends
unfoldable pub serve :
    Outcome (Unit {0}) → List Received → Outcome (Unit {0}) → Exec Wiring (Unit {0})
unfolding start stop
serve bound rs served = do on_router (start bound); update (receiving rs); shutdown served
