-- ===== src/World/Committed.antt =====
-- The database of the matches in the runs of the central server (central_server/match/store.py and
-- central_server/match/manager.py).
use agentic_juggling.Prelude.{
  ℕ, String, Bool, true, false, ◌≡◌, refl, Option, none, some, List, [], ◌∷◌, arith, All,
  Option-cases, inl, inr,
}
use agentic_juggling.Prelude.Int.{ℤ}
use agentic_juggling.Prelude.Outcome.{Outcome, ok, err, continue}
use agentic_juggling.Primitives.{Primitives}
use agentic_juggling.Match.Config.{MatchConfig, NodeAssignment, parse_assignments}
use agentic_juggling.Match.Store
use agentic_juggling.Match.Store.{MatchStore, MatchRecord, MatchState}
use agentic_juggling.Server.{Server}
use agentic_juggling.Server.Wire.{Raw}
use agentic_juggling.Server.Router.Frames.{store-dispatch}
use agentic_juggling.Manager
use agentic_juggling.Manager.{
  Pending, start_begin, start_finish, schedule_auto_stop, set_match, poll, stop, stop_row,
  stop_assigned, cancel_auto_stop,
}
use agentic_juggling.Manager.Dispatch.{store-dispatch_start, store-cancel_auto_stop}
use agentic_juggling.World.{World, Event, step, run, begun, poll_at}

-- what the connection reads is what the database holds
abbrev pub Committed : MatchStore → Type 0
Committed st = st.durable ≡ st.rows

-- the end of an auto-stop's sleep
abbrev pub is_fire : Event → Bool
is_fire (Event.fire i) = true
is_fire _ = false

create-Committed :
    (config : MatchConfig) (st : MatchStore) → Committed st → Committed (Store.create config st).1
unfolding Store.create
create-Committed config st h = ground (arith, h)

update_state-Committed :
    (id : String) (x : MatchState) (t0 : Option ℤ) (st : MatchStore)
    → Committed (Store.update_state id x t0 st)
unfolding Store.update_state
update_state-Committed id x t0 st = refl

start_begin-Committed :
    (id : String) (timeout now : ℤ) (s : Server)
    → Committed s.store
    → Committed (start_begin id timeout now s).1.store
unfolding start_begin Manager.get
start_begin-Committed id timeout now s h =
    ground (arith, update_state-Committed id MatchState.starting none s.store)

module _ (p : Primitives) (now : ℤ) where
  poll-Committed :
      (q : Pending) (s : Server) → Committed s.store → Committed (poll p now q s).1.store
  unfolding poll start_finish schedule_auto_stop
  poll-Committed q s h = ground (
    arith,
    store-dispatch_start p now q.match_id now q.assignments
        (set_match q.match_id MatchState.running (some now) s),
    update_state-Committed q.match_id MatchState.running (some now) s.store,
    update_state-Committed q.match_id MatchState.lobby none s.store,
  )

  calm : (id : String) (s : Server) → (cancel_auto_stop p now none id s).0 ≡ false
  unfolding cancel_auto_stop
  calm id s = ground arith

  stop_parsed-Committed :
      (id : String) (r : Outcome (List NodeAssignment)) (s : Server)
      → Committed s.store
      → Committed (continue r (stop_assigned p now false id) s).1.store
  unfolding stop_assigned Store.update_state
  stop_parsed-Committed id (err e) s h = h
  stop_parsed-Committed id (ok nas) s h = refl

  stop_row-Committed :
      (id : String) (row : MatchRecord) (s : Server)
      → Committed s.store
      → Committed (stop_row p now none id row s).1.store
  unfolding stop_row
  stop_row-Committed id row s h = ground (
    arith,
    calm id s,
    store-cancel_auto_stop p now id none s,
    stop_parsed-Committed id (parse_assignments row.config_json)
        (cancel_auto_stop p now none id s).1,
  )

  stop-Committed :
      (id : String) (s : Server) → Committed s.store → Committed (stop p now none id s).1.store
  unfolding stop
  stop-Committed id s h = elim (Option-cases (Store.get id s.store)) [
    | inl e ↦ rw e h
    | inr (row, e) ↦ rw e (stop_row-Committed id row s h)
  ]

module _ (p : Primitives) (alive : ℕ → Bool) (loads : String → Raw) where
  begun-Committed :
      (w : World) (r : Outcome Pending) (s : Server)
      → Committed s.store
      → Committed (begun w (r, s)).server.store
  begun-Committed w (ok q) s h = h
  begun-Committed w (err e) s h = h

  poll_at-Committed :
      (i : ℕ) (now : ℤ) (w : World) (o : Option Pending)
      → Committed w.server.store
      → Committed (poll_at p alive loads i now w o).server.store
  unfolding poll_at
  poll_at-Committed i now w none h = h
  poll_at-Committed i now w (some q) h = ground (arith, poll-Committed p now q w.server h)

  step-Committed :
      (w : World) (now : ℤ) (e : Event)
      → is_fire e ≡ false
      → Committed w.server.store
      → Committed (step p alive loads w now e).server.store
  unfolding step Manager.create
  step-Committed w now (Event.create config) k h = create-Committed config w.server.store h
  step-Committed w now (Event.start id timeout) k h =
      begun-Committed w _ _ (start_begin-Committed id timeout now w.server h)
  step-Committed w now (Event.stop id) k h = stop-Committed p now id w.server h
  step-Committed w now (Event.poll i) k h = poll_at-Committed i now w _ h
  step-Committed w now (Event.fire i) k h = absurd (ground (arith, k))
  step-Committed w now (Event.receive frames) k h =
      rw (store-dispatch p alive now loads frames w.server) h

  -- From a database that holds what the connection reads, every run in which no auto-stop wakes up
  -- leads to one that does: all that the server has written about matches is committed.
  pub run-Committed :
      (w : World) (es : List (ℤ × Event))
      → All (λ (t : ℤ × Event). is_fire t.1 ≡ false) es
      → Committed w.server.store
      → Committed (run p alive loads w es).server.store
  unfolding run
  run-Committed w [] k h = h
  run-Committed w ((now, e) ∷ es) k h =
      run-Committed (step p alive loads w now e) es k.1 (step-Committed w now e k.0 h)
