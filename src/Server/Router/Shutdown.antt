-- ===== src/Server/Router/Shutdown.antt =====
-- The receive loop and the end of the server, central_server/network/router.py and central_server/main.py.
use mathlib.Core.List.{append_assoc}
use agentic_juggling.Prelude.{
  String, true, false, ◌≡◌, refl, ◌∙◌, sym, ap, some, List, [], ◌∷◌, ◌++◌, append-nil, arith,
}
use agentic_juggling.Prelude.Outcome.{Error, Outcome, ok, err}
use agentic_juggling.Server.Router.Socket.{
  Endpoint, Received, message, zmq_error, recv_round, recv_loop, start, stop, Wiring, serve, listen,
}

abbrev pub messages : List Received → List (List String)
messages [] = []
messages (message frames ∷ rs) = frames ∷ messages rs
messages (zmq_error ∷ rs) = messages rs

recv_round_done : (r : Received) (l : Endpoint) → l.reading ≡ false → recv_round r l ≡ l
unfolding recv_round
recv_round_done (message frames) l h = ground arith
recv_round_done zmq_error l h = ground arith

recv_loop_done : (rs : List Received) (l : Endpoint) → l.reading ≡ false → recv_loop rs l ≡ l
unfolding recv_loop
recv_loop_done [] l h = refl
recv_loop_done (r ∷ rs) l h = ap (recv_loop rs) (recv_round_done r l h) ∙ recv_loop_done rs l h

-- the endpoint of a loop that reads, with the messages that it has taken
abbrev reading_on : Endpoint → List (List String) → Endpoint
reading_on l taken = record l { running = true; reading = true; dispatched = taken }

recv_loop_on :
    (rs : List Received) (l : Endpoint) (taken : List (List String))
    → recv_loop rs (reading_on l taken) ≡ reading_on l (taken ++ messages rs)
unfolding recv_loop recv_round
recv_loop_on [] l taken = ap (reading_on l) (sym (append-nil taken))
recv_loop_on (message frames ∷ rs) l taken =
    recv_loop_on rs l (taken ++ frames ∷ [])
    ∙ ap (reading_on l) (append_assoc taken (frames ∷ []) (messages rs))
recv_loop_on (zmq_error ∷ rs) l taken = recv_loop_on rs l taken

last_round :
    (r : Received) (rs : List Received) (l : Endpoint) (taken : List (List String))
    → (recv_loop (r ∷ rs) (stop (reading_on l taken))).dispatched ≡ taken ++ messages (r ∷ [])
unfolding recv_loop recv_round stop
last_round (message frames) rs l taken =
    ap (λ e. e.dispatched)
      (recv_loop_done rs (recv_round (message frames) (stop (reading_on l taken))) refl)
last_round zmq_error rs l taken =
    ap (λ e. e.dispatched)
      (recv_loop_done rs (recv_round zmq_error (stop (reading_on l taken))) refl)
    ∙ sym (append-nil taken)

-- Each message that arrives between the start of the router's loop and its stop gets a task of `_dispatch`, in the
-- order of arrival and whatever errors come between; of what arrives after the stop, at most the first does.
recv_loop-stop :
    (before after : List Received) (r : Received) (l : Endpoint)
    → (recv_loop (r ∷ after) (stop (recv_loop before (listen l)))).dispatched
      ≡ l.dispatched ++ messages before ++ messages (r ∷ [])
recv_loop-stop before after r l =
    ap (λ e. (recv_loop (r ∷ after) (stop e)).dispatched) (recv_loop_on before l l.dispatched)
    ∙ last_round r after l (l.dispatched ++ messages before)

-- The server from its boot to its end. If the router's port can be bound, every message that arrives while the HTTP
-- server runs is dispatched, and however the HTTP server ends, its result is that of main, and the socket and both
-- databases are closed. If the port cannot be bound, main raises what `bind` raised, with the databases still open.
pub serve_lem :
    (arrived : List Received) (served : Outcome (Unit {0})) (e : Error) (w : Wiring)
    → let (r, w') = serve (ok tt) arrived served w in
      let (r', w'') = serve (err e) arrived served w in
      ((r ≡ served)
        × (w'.router.dispatched ≡ w.router.dispatched ++ messages arrived)
        × (w'.router.socket ≡ some false)
        × (w'.matches_open ≡ false)
        × (w'.metrics_open ≡ false))
      × ((r' ≡ err e) × (w''.matches_open ≡ w.matches_open) × (w''.metrics_open ≡ w.metrics_open))
unfolding serve start stop
serve_lem arrived served e w =
    let opened = record w.router { socket = some true } in
    let on = recv_loop_on arrived opened w.router.dispatched in
    (
      (refl, ap (λ l. l.dispatched) on, ap (λ l. (stop l).socket) on, refl, refl),
      (refl, refl, refl),
    )
