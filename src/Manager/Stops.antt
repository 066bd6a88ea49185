-- ===== src/Manager/Stops.antt =====
-- How a match ends (central_server/match/manager.py): by a request, or by its auto-stop task, which finds and
-- cancels itself.
use agentic_juggling.Prelude.{
  ℕ, String, Bool, true, false, ◌≡◌, refl, ap, ◌∙◌, Option, none, some, List, arith, eq_refl,
}
use agentic_juggling.Prelude.Int.{ℤ}
use agentic_juggling.Prelude.Dict.{lookup, lookup-erase}
use agentic_juggling.Prelude.Outcome.{Error, ok, err}
use agentic_juggling.Primitives.{Primitives}
use agentic_juggling.Crypto
use agentic_juggling.Match.Config.{NodeAssignment, parse_assignments}
use agentic_juggling.Match.Store
use agentic_juggling.Match.Store.{MatchState, MatchRecord, MatchStore, same_state}
use agentic_juggling.Server.{Server, Timer}
use agentic_juggling.Manager.{stop, stop_row, stop_assigned, cancel_auto_stop, auto_stop}
use agentic_juggling.Manager.Dispatch.{store-stop_nodes, store-cancel_auto_stop, frame-stop_nodes}
use agentic_juggling.Manager.Lifecycle.{state_in, state-stop_assigned}

-- `stop` from its loop on, for a caller that has not cancelled itself
module _ (p : Primitives) (now : ℤ) (id : String) (nas : List NodeAssignment) (s : Server) where
  stop_assigned_ok :
      let (r, s') = stop_assigned p now false id nas s in
      (r ≡ ok tt)
      × (s'.store.durable ≡ s'.store.rows)
      × (lookup id s'.crypto.match_keys ≡ none)
      × (s'.auto_stop_tasks ≡ s.auto_stop_tasks)
  unfolding stop_assigned Store.update_state Crypto.revoke_match_key
  stop_assigned_ok = (
    refl,
    refl,
    rw lookup-erase (rw (eq_refl id) refl),
    ap (λ (s' : Server). s'.auto_stop_tasks) (frame-stop_nodes p now id nas s),
  )

  state-stop_assigned_self :
      (interrupted : Bool) {x : MatchState}
      → state_in id s.store ≡ some x
      → state_in id (stop_assigned p now interrupted id nas s).1.store ≡ some MatchState.finished
  state-stop_assigned_self interrupted h =
      ground (arith, state-stop_assigned p now id interrupted id nas s, eq_refl id)

  durable-stop_assigned : (stop_assigned p now true id nas s).1.store.durable ≡ s.store.durable
  unfolding stop_assigned Store.execute_update
  durable-stop_assigned = ap (λ (st : MatchStore). st.durable) (store-stop_nodes p now id nas s)

  cancel_auto_stop_request :
      ((cancel_auto_stop p now none id s).0 ≡ false)
      × (lookup id (cancel_auto_stop p now none id s).1.auto_stop_tasks ≡ none)
  unfolding cancel_auto_stop
  cancel_auto_stop_request = ground (arith, eq_refl id, lookup-erase id id s.auto_stop_tasks)

  cancel_auto_stop_self :
      (task : ℕ)
      → lookup id s.auto_stop_tasks ≡ some task
      → (cancel_auto_stop p now (some task) id s).0 ≡ true
  unfolding cancel_auto_stop
  cancel_auto_stop_self task h = ground arith

module _ (p : Primitives) (now : ℤ) (id : String) (s : Server) where
  -- `stop` of a match that is there and not finished, as its steps
  pub stop_steps :
      (caller : Option ℕ) {row : MatchRecord} {nas : List NodeAssignment}
      → Store.get id s.store ≡ some row
      → same_state row.state MatchState.finished ≡ false
      → parse_assignments row.config_json ≡ ok nas
      → stop p now caller id s
        ≡ stop_assigned p now
            (cancel_auto_stop p now caller id s).0
            id
            nas
            (cancel_auto_stop p now caller id s).1
  unfolding stop stop_row
  stop_steps caller found live parsed = rw (found, live, parsed) refl

  -- A stop by a request of a match that is there, not finished and of a readable configuration ends
  -- well: the match is finished, and that is committed; its key is revoked and its auto-stop is no
  -- longer filed.
  pub stop_request :
      {row : MatchRecord} {nas : List NodeAssignment}
      → Store.get id s.store ≡ some row
      → same_state row.state MatchState.finished ≡ false
      → parse_assignments row.config_json ≡ ok nas
      → let (r, s') = stop p now none id s in
        (r ≡ ok tt)
        × (state_in id s'.store ≡ some MatchState.finished)
        × (s'.store.durable ≡ s'.store.rows)
        × (lookup id s'.crypto.match_keys ≡ none)
        × (lookup id s'.auto_stop_tasks ≡ none)
  stop_request {row = row} {nas = nas} found live parsed =
      let s₁ = (cancel_auto_stop p now none id s).1 in
      let (calm, gone) = cancel_auto_stop_request p now id nas s in
      let (done, saved, revoked, same) = stop_assigned_ok p now id nas s₁ in
      let was : state_in id s₁.store ≡ some row.state =
        rw (store-cancel_auto_stop p now id none s, found) refl in
      rw (stop_steps none found live parsed, calm)
        (
          done,
          state-stop_assigned_self p now id nas s₁ false was,
          saved,
          revoked,
          ap (lookup id) same ∙ gone,
        )

-- When an auto-stop wakes up that is filed under its match, which is there, not finished and of a
-- readable configuration, `stop` finds the waking task and cancels it. So the task ends in a
-- CancelledError: the match reads as finished on the connection, but the database still holds what it
-- held before.
pub auto_stop_interrupted :
    (p : Primitives) (now : ℤ) (t : Timer) (s : Server) {row : MatchRecord}
    {nas : List NodeAssignment}
    → lookup t.match_id s.auto_stop_tasks ≡ some t.id
    → Store.get t.match_id s.store ≡ some row
    → same_state row.state MatchState.finished ≡ false
    → parse_assignments row.config_json ≡ ok nas
    → let (r, s') = auto_stop p now t s in
      (r ≡ err Error.cancelled)
      × (state_in t.match_id s'.store ≡ some MatchState.finished)
      × (s'.store.durable ≡ s.store.durable)
unfolding auto_stop
auto_stop_interrupted p now t s {row = row} {nas = nas} filed found live parsed =
    let id = t.match_id in
    let s₁ = (cancel_auto_stop p now (some t.id) id s).1 in
    let was : state_in id s₁.store ≡ some row.state =
      rw (store-cancel_auto_stop p now id (some t.id) s, found) refl in
    let kept = store-cancel_auto_stop p now id (some t.id) s in
    rw
      (
        stop_steps p now id s (some t.id) found live parsed,
        cancel_auto_stop_self p now id nas s t.id filed,
      )
      (
        unfold stop_assigned in refl,
        state-stop_assigned_self p now id nas s₁ true was,
        durable-stop_assigned p now id nas s₁ ∙ ap (λ (st : MatchStore). st.durable) kept,
      )
