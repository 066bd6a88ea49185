-- ===== src/World/Transitions.antt =====
-- Which moves between states one event of the central server can make (central_server/match/manager.py).
use agentic_juggling.Prelude.{
  ℕ, String, Bool, true, false, ◌≡◌, refl, Option, none, some, arith, eq_iff, All, inl, inr,
}
use agentic_juggling.Prelude.Int.{ℤ}
use agentic_juggling.Prelude.Dict.{lookup-insert}
use agentic_juggling.Prelude.Outcome.{Outcome, ok, err}
use agentic_juggling.Primitives.{Primitives}
use agentic_juggling.Match.Config.{MatchConfig}
use agentic_juggling.Match.Store
use agentic_juggling.Match.Store.{MatchState, MatchStore}
use agentic_juggling.Server.{Timer}
use agentic_juggling.Server.Wire.{Raw}
use agentic_juggling.Server.Router.Frames.{store-dispatch}
use agentic_juggling.Manager
use agentic_juggling.Manager.{Pending, start_begin, poll, all_ready, stop}
use agentic_juggling.Manager.Lifecycle.{
  state_in, state-start_begin, start_begin_failure, state-poll, state-stop, state-auto_stop,
  Stopped,
}
use agentic_juggling.World.{World, Event, get_elem?, step, begun, poll_at, fire_at}
use agentic_juggling.World.Lifecycle.{state_of, All-get_elem?}

-- LOBBY → STARTING → RUNNING → FINISHED, back to LOBBY when the nodes are not ready in time, and to
-- FINISHED from anywhere by a stop; `none` is a match that is not there yet.
abbrev pub allowed : Option MatchState → Option MatchState → Bool
allowed none none = true
allowed none (some MatchState.lobby) = true
allowed (some MatchState.lobby) (some MatchState.lobby) = true
allowed (some MatchState.lobby) (some MatchState.starting) = true
allowed (some MatchState.lobby) (some MatchState.finished) = true
allowed (some MatchState.starting) (some MatchState.lobby) = true
allowed (some MatchState.starting) (some MatchState.starting) = true
allowed (some MatchState.starting) (some MatchState.running) = true
allowed (some MatchState.starting) (some MatchState.finished) = true
allowed (some MatchState.running) (some MatchState.running) = true
allowed (some MatchState.running) (some MatchState.finished) = true
allowed (some MatchState.finished) (some MatchState.finished) = true
allowed _ _ = false

allowed_refl : (o : Option MatchState) → allowed o o ≡ true
allowed_refl none = refl
allowed_refl (some MatchState.lobby) = refl
allowed_refl (some MatchState.starting) = refl
allowed_refl (some MatchState.running) = refl
allowed_refl (some MatchState.finished) = refl

allowed_finish : (x : MatchState) → allowed (some x) (some MatchState.finished) ≡ true
allowed_finish MatchState.lobby = refl
allowed_finish MatchState.starting = refl
allowed_finish MatchState.running = refl
allowed_finish MatchState.finished = refl

-- no stop has overtaken a waiting `start`: the match of each is still in STARTING
abbrev pub NotOvertaken : World → Type 0
NotOvertaken w = All (λ q. state_of q.match_id w ≡ some MatchState.starting) w.starting

allowed-create :
    (config : MatchConfig) (j : String) (st : MatchStore)
    → allowed (state_in j st) (state_in j (Store.create config st).1) ≡ true
unfolding Store.create Store.get Store.new_record
allowed-create config j st = ground (
  arith,
  eq_iff config.match_id j,
  allowed_refl (state_in j st),
  lookup-insert config.match_id j (Store.new_record config) st.rows,
)

Stopped-allowed :
    (j id : String) (before after : Option MatchState)
    → Stopped j id before after
    → allowed before after ≡ true
Stopped-allowed j id before after (inl same) = rw same (allowed_refl before)
Stopped-allowed j id none after (inr (e, done)) = rw done refl
Stopped-allowed j id (some x) after (inr (e, done)) = rw done (allowed_finish x)

module _ (p : Primitives) (alive : ℕ → Bool) (loads : String → Raw) (j : String) where
  begun-allowed :
      (id : String) (timeout now : ℤ) (w : World) (r : Outcome Pending)
      → (start_begin id timeout now w.server).0 ≡ r
      → allowed (state_of j w) (state_of j (begun w (r, (start_begin id timeout now w.server).1)))
        ≡ true
  begun-allowed id timeout now w (ok q) e =
      let (same, was, after) = state-start_begin id j timeout now w.server e in
      ground (arith, eq_iff id j, was, after, allowed_refl (state_of j w))
  begun-allowed id timeout now w (err x) e =
      rw (start_begin_failure id j timeout now w.server e) (allowed_refl (state_of j w))

  poll_at-allowed :
      (i : ℕ) (now : ℤ) (w : World) (o : Option Pending)
      → get_elem? w.starting i ≡ o
      → NotOvertaken w
      → allowed (state_of j w) (state_of j (poll_at p alive loads i now w o)) ≡ true
  unfolding poll_at
  poll_at-allowed i now w none e h = allowed_refl (state_of j w)
  poll_at-allowed i now w (some q) e h =
      let was =
        All-get_elem? (λ q. state_of q.match_id w ≡ some MatchState.starting) w.starting i h e in
      ground (
        arith,
        eq_iff q.match_id j,
        was,
        state-poll p now j q w.server,
        allowed_refl (state_of j w),
      )

  fire_at-allowed :
      (now : ℤ) (w : World) (o : Option Timer)
      → allowed (state_of j w) (state_of j (fire_at p alive loads now w o)) ≡ true
  unfolding fire_at
  fire_at-allowed now w none = allowed_refl (state_of j w)
  fire_at-allowed now w (some t) = ground (
    arith,
    allowed_refl (state_of j w),
    Stopped-allowed j t.match_id _ _ (state-auto_stop p now j t w.server),
  )

  -- One event moves each match along the documented life cycle or leaves it where it is, provided that
  -- no stop has overtaken a `start` that still waits.
  pub step-allowed :
      (w : World) (now : ℤ) (e : Event)
      → NotOvertaken w
      → allowed (state_of j w) (state_of j (step p alive loads w now e)) ≡ true
  unfolding step Manager.create
  step-allowed w now (Event.create config) h = allowed-create config j w.server.store
  step-allowed w now (Event.start id timeout) h = begun-allowed id timeout now w _ refl
  step-allowed w now (Event.stop id) h =
      Stopped-allowed j id _ _ (state-stop p now j none id w.server)
  step-allowed w now (Event.poll i) h = poll_at-allowed i now w _ refl h
  step-allowed w now (Event.fire i) h = fire_at-allowed now w _
  step-allowed w now (Event.receive frames) h =
      rw (store-dispatch p alive now loads frames w.server) (allowed_refl (state_of j w))
