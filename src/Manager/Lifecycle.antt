-- ===== src/Manager/Lifecycle.antt =====
-- What each call of the match manager does to the state of every match
-- (central_server/match/manager.py).
use agentic_juggling.Prelude.{
  ℕ, String, Bool, true, false, ◌≡◌, refl, Option, none, some, List, arith, ◌==◌, eq_iff,
  if◌then◌else◌, Option-cases, inl, inr, ◌⊎◌,
}
use agentic_juggling.Prelude.Int.{ℤ, leb_ℤ}
use agentic_juggling.Prelude.Dict.{lookup-modify}
use agentic_juggling.Prelude.Outcome.{Error, Outcome, ok, err, continue}
use agentic_juggling.Primitives.{Primitives}
use agentic_juggling.Match.Config.{NodeAssignment, parse_assignments}
use agentic_juggling.Match.Store
use agentic_juggling.Match.Store.{MatchState, MatchRecord, MatchStore, same_state, set_row}
use agentic_juggling.Server.{Server, Timer}
use agentic_juggling.Manager.{
  Pending, get, set_match, start_begin, all_ready, start_finish, poll, cancel_auto_stop,
  stop_assigned, stop_row, stop, auto_stop, schedule_auto_stop,
}
use agentic_juggling.Manager.Dispatch.{
  store-dispatch_start, store-stop_nodes, store-cancel_auto_stop,
}

abbrev pub row_state : Option MatchRecord → Option MatchState
row_state none = none
row_state (some m) = some m.state

-- the state of a match as the store's connection reads it
abbrev pub state_in : String → MatchStore → Option MatchState
state_in j st = row_state (Store.get j st)

-- the same of a match that is there, with its state set
abbrev pub put_state : MatchState → Option MatchState → Option MatchState
put_state x none = none
put_state x (some _) = some x

-- the state in which a round of the readiness poll leaves its match: all nodes ready, or out of time
abbrev pub polled : Bool → Bool → Option MatchState → Option MatchState
polled true late o = put_state MatchState.running o
polled false true o = put_state MatchState.lobby o
polled false false o = o

-- the state in which `stop` of the match `id` may leave the match `j`: as it was, or finished
abbrev pub Stopped : String → String → Option MatchState → Option MatchState → Type 0
Stopped j id before after =
    (after ≡ before) ⊎ ((id ≡ j) × (after ≡ put_state MatchState.finished before))

module _ (id j : String) (x : MatchState) (t0 : Option ℤ) (st : MatchStore) where
  state-execute_update :
      state_in j (Store.execute_update id x t0 st)
      ≡ (if id == j then put_state x (state_in j st) else state_in j st)
  unfolding Store.execute_update Store.get set_row
  state-execute_update = rw lookup-modify (ground arith)

  pub state-update_state :
      state_in j (Store.update_state id x t0 st)
      ≡ (if id == j then put_state x (state_in j st) else state_in j st)
  unfolding Store.update_state Store.get set_row
  state-update_state = rw lookup-modify (ground arith)

module _ (id j : String) (timeout now : ℤ) (s : Server) where
  -- A `start` that gets past its checks has moved its match from LOBBY to STARTING.
  pub state-start_begin :
      {w : Pending}
      → (start_begin id timeout now s).0 ≡ ok w
      → (w.match_id ≡ id)
        × (state_in id s.store ≡ some MatchState.lobby)
        × (state_in j (start_begin id timeout now s).1.store
            ≡ (if id == j then some MatchState.starting else state_in j s.store))
  unfolding start_begin get
  state-start_begin h =
      ground (arith, eq_iff id j, state-update_state id j MatchState.starting none s.store)

  -- One that raises at its checks has changed nothing.
  pub start_begin_failure :
      {e : Error} → (start_begin id timeout now s).0 ≡ err e → (start_begin id timeout now s).1 ≡ s
  unfolding start_begin get
  start_begin_failure h = ground arith

module _ (p : Primitives) (now : ℤ) (j : String) where
  pub state-start_finish :
      (w : Pending) (s : Server)
      → state_in j (start_finish p now w s).1.store ≡ (
          if w.match_id == j
          then put_state MatchState.running (state_in j s.store)
          else state_in j s.store)
  unfolding start_finish schedule_auto_stop
  state-start_finish w s = ground (
    arith,
    store-dispatch_start p now w.match_id now w.assignments
        (set_match w.match_id MatchState.running (some now) s),
    state-update_state w.match_id j MatchState.running (some now) s.store,
  )

  pub state-poll :
      (w : Pending) (s : Server)
      → state_in j (poll p now w s).1.store ≡ (
          if w.match_id == j
          then polled (all_ready w.expected s) (leb_ℤ w.deadline now) (state_in j s.store)
          else state_in j s.store)
  unfolding poll
  state-poll w s =
      ground (
        arith,
        state-start_finish w s,
        state-update_state w.match_id j MatchState.lobby none s.store,
      )

  pub state-stop_assigned :
      (interrupted : Bool) (id : String) (nas : List NodeAssignment) (s : Server)
      → state_in j (stop_assigned p now interrupted id nas s).1.store ≡ (
          if id == j
          then put_state MatchState.finished (state_in j s.store)
          else state_in j s.store)
  unfolding stop_assigned
  state-stop_assigned interrupted id nas s = ground (
    arith,
    store-stop_nodes p now id nas s,
    state-execute_update id j MatchState.finished none s.store,
    state-update_state id j MatchState.finished none s.store,
  )

  state-stop_parsed :
      (interrupted : Bool) (id : String) (r : Outcome (List NodeAssignment)) (s : Server)
      → Stopped j id
          (state_in j s.store)
          (state_in j (continue r (stop_assigned p now interrupted id) s).1.store)
  state-stop_parsed interrupted id (err e) s = inl refl
  state-stop_parsed interrupted id (ok nas) s =
      ground (arith, state-stop_assigned interrupted id nas s, eq_iff id j)

  state-stop_row :
      (caller : Option ℕ) (id : String) (row : MatchRecord) (s : Server)
      → Stopped j id (state_in j s.store) (state_in j (stop_row p now caller id row s).1.store)
  unfolding stop_row
  state-stop_row caller id row s = ground (
    arith,
    store-cancel_auto_stop p now id caller s,
    state-stop_parsed (cancel_auto_stop p now caller id s).0 id (parse_assignments row.config_json)
        (cancel_auto_stop p now caller id s).1,
  )

  -- `stop` finishes a match that is there, whoever calls it, or leaves its state; it touches no other.
  pub state-stop :
      (caller : Option ℕ) (id : String) (s : Server)
      → Stopped j id (state_in j s.store) (state_in j (stop p now caller id s).1.store)
  unfolding stop
  state-stop caller id s = elim (Option-cases (Store.get id s.store)) [
    | inl e ↦ rw e (inl refl)
    | inr (row, e) ↦ rw e (state-stop_row caller id row s)
  ]

  pub state-auto_stop :
      (t : Timer) (s : Server)
      → Stopped j t.match_id (state_in j s.store) (state_in j (auto_stop p now t s).1.store)
  unfolding auto_stop
  state-auto_stop t s = state-stop (some t.id) t.match_id s
