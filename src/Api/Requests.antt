-- ===== src/Api/Requests.antt =====
-- The requests of central_server/api/admin.py on the running server: each is answered at once, but a `start` whose
-- checks pass, which is answered when its readiness poll ends.
use agentic_juggling.Prelude.{
  ℕ, String, Bool, true, Option, none, some, ◌≡◌, refl, ap, ◌∙◌, arith, eq_refl,
}
use agentic_juggling.Prelude.Int.{ℤ, pos}
use agentic_juggling.Prelude.Outcome.{Error, Outcome, ok, err}
use agentic_juggling.Primitives.{Primitives}
use agentic_juggling.Server.{Server}
use agentic_juggling.Server.Wire.{Raw}
use agentic_juggling.Manager
use agentic_juggling.Manager.{Pending, all_ready, start_begin}
use agentic_juggling.Manager.Lifecycle.{state_in, put_state, start_begin_failure, state-poll}
use agentic_juggling.Match.Store.{MatchState}
use agentic_juggling.World.Lifecycle.{state_of}
use agentic_juggling.World.{World, Event, step, get_elem?, begun, woken}
use agentic_juggling.Api.{
  CreateMatchRequest, Response, config_of, create_match, get_match, list_matches, start_match,
  stop_match,
}

-- the id of a new match is fresh
pub data Request : Type 0 where
  create : String → CreateMatchRequest → Request
  get : String → Request
  list : Request
  start : String → Request
  stop : String → Request

-- what the server gives back at once, if anything: a response, or the exception of a route that catches none
abbrev pub Answer : Type 0
Answer = Option (Outcome Response)

-- a `start` that raises at its checks is answered
abbrev pub begun_answer : String → Outcome Pending → Answer
begun_answer match_id (ok q) = none
begun_answer match_id (err e) = some (ok (start_match match_id (err e)))

abbrev pub polled_answer : String → Option (Outcome (Unit {0})) → Answer
polled_answer match_id none = none
polled_answer match_id (some r) = some (ok (start_match match_id r))

abbrev pub poll_answer : Primitives → ℤ → World → Option Pending → Answer
poll_answer p now w none = none
poll_answer p now w (some q) = polled_answer q.match_id (Manager.poll p now q w.server).0

-- `ready_timeout: float = 30.0`
abbrev pub ready_timeout : ℤ
ready_timeout = pos 300_000

module _ (p : Primitives) where
  unfoldable pub serve : ℤ → Request → World → Answer × World
  unfolding create_match stop_match
  serve now (Request.create match_id body) w =
      let (r, s) = create_match match_id now body w.server in (some r, record w { server = s })
  serve now (Request.get match_id) w = (some (ok (get_match match_id w.server)), w)
  serve now Request.list w = (some (ok (list_matches w.server)), w)
  serve now (Request.start match_id) w =
      let begin = Manager.start_begin match_id ready_timeout now w.server in
      (begun_answer match_id begin.0, begun w begin)
  serve now (Request.stop match_id) w =
      let (r, s) = stop_match p now match_id w.server in (some (ok r), record w { server = s })

-- the event of a request that is more than a question
abbrev pub event_of : ℤ → Request → Option Event
event_of now (Request.create match_id body) = some (Event.create (config_of match_id now body))
event_of now (Request.get match_id) = none
event_of now Request.list = none
event_of now (Request.start match_id) = some (Event.start match_id ready_timeout)
event_of now (Request.stop match_id) = some (Event.stop match_id)

module _ (p : Primitives) (alive : ℕ → Bool) (loads : String → Raw) where
  -- the world after the event, if there is one
  abbrev pub after : ℤ → World → Option Event → World
  after now w none = w
  after now w (some e) = step p alive loads w now e

  -- the routes do to the server what the events do
  event_lem :
      (now : ℤ) (request : Request) (w : World)
      → (serve p now request w).1 ≡ after now w (event_of now request)
  unfolding serve step
  event_lem now (Request.create match_id body) w = refl
  event_lem now (Request.get match_id) w = refl
  event_lem now Request.list w = refl
  event_lem now (Request.start match_id) w = refl
  event_lem now (Request.stop match_id) w = refl

  poll_running :
      (now : ℤ) (q : Pending) (s : Server) {r : Response}
      → polled_answer q.match_id (Manager.poll p now q s).0 ≡ some (ok r)
      → r.status ≡ 200
      → all_ready q.expected s ≡ true
  unfolding Manager.poll start_match
  poll_running now q s h k = ground arith

  -- a request that is refused has changed nothing
  refused :
      (now : ℤ) (match_id : String) (w : World) {e : Error}
      → (start_begin match_id ready_timeout now w.server).0 ≡ err e
      → (serve p now (Request.start match_id) w).1 ≡ w
  unfolding serve
  refused now match_id w h =
      ap (λ r. begun w (r, (start_begin match_id ready_timeout now w.server).1)) h
      ∙ ap (λ s. record w { server = s })
          (start_begin_failure match_id match_id ready_timeout now w.server h)

  state-woken :
      (j : String) (w : World) (i : ℕ) (x : Option (Outcome (Unit {0}))) (s : Server)
      → state_of j (woken w i (x, s)) ≡ state_in j s.store
  state-woken j w i none s = refl
  state-woken j w i (some r) s = refl

  state-step :
      (now : ℤ) (w : World) (i : ℕ) (j : String) {q : Pending}
      → get_elem? w.starting i ≡ some q
      → state_of j (step p alive loads w now (Event.poll i))
        ≡ state_in j (Manager.poll p now q w.server).1.store
  unfolding step
  state-step now w i j {q} h =
      rw h (state-woken j w i (Manager.poll p now q w.server).0 (Manager.poll p now q w.server).1)

  ready_running :
      (now : ℤ) (q : Pending) (s : Server)
      → all_ready q.expected s ≡ true
      → state_in q.match_id (Manager.poll p now q s).1.store
        ≡ put_state MatchState.running (state_in q.match_id s.store)
  ready_running now q s h = ground (arith, state-poll p now q.match_id q s, eq_refl q.match_id)

  -- A start is answered with status 200 only when its match runs: the round of the readiness poll that gives this
  -- answer finds all assigned nodes ready and leaves the match, if it is still there, RUNNING.
  pub start_answered :
      (now : ℤ) (w : World) (i : ℕ) (q : Pending) {r : Response}
      → get_elem? w.starting i ≡ some q
      → poll_answer p now w (some q) ≡ some (ok r)
      → r.status ≡ 200
      → (all_ready q.expected w.server ≡ true)
        × (state_of q.match_id (step p alive loads w now (Event.poll i))
            ≡ put_state MatchState.running (state_of q.match_id w))
  start_answered now w i q h a k =
      let ready = poll_running now q w.server a k in
      (ready, state-step now w i q.match_id h ∙ ready_running now q w.server ready)
