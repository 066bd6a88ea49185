-- ===== src/Manager/Registered.antt =====
-- The node registry under the operations of central_server/match/manager.py.
use agentic_juggling.Prelude.{
  ℕ, String, Bool, true, false, refl, Option, some, List, [], ◌∷◌, arith, Option-cases, inl, inr,
}
use agentic_juggling.Prelude.Int.{ℤ}
use agentic_juggling.Prelude.Outcome.{Outcome, ok, err, continue}
use agentic_juggling.Primitives.{Primitives}
use agentic_juggling.Crypto.{generate_match_key}
use agentic_juggling.Match.Config.{NodeAssignment, parse_assignments}
use agentic_juggling.Match.Store
use agentic_juggling.Match.Store.{MatchRecord}
use agentic_juggling.Registry.{NodeState, same_state}
use agentic_juggling.Registry.{NodeRegistry}
use agentic_juggling.Registry.Kept.{Kept}
use agentic_juggling.Server.{Server}
use agentic_juggling.Server.Router.{send}
use agentic_juggling.Manager.{
  Pending, start_node, start_nodes, dispatch_start, start_finish, schedule_auto_stop, poll,
  stop_node, stop_nodes, stop_assigned, stop_row, stop, cancel_auto_stop, set_match,
}

module _ {A : String → String → Type 0} {I : NodeRegistry → Type 0} (K : Kept A I) (p : Primitives)
    (now : ℤ) (id : String) where
  start_node-kept :
      (t0 : ℤ) (na : NodeAssignment) (s : Server)
      → I s.registry
      → I (start_node p now id t0 na s).1.registry
  unfolding start_node send same_state
  start_node-kept t0 na s h =
      ground (arith, K.update_state_keeps s.registry h na.node_id NodeState.running now refl)

  start_nodes-kept :
      (t0 : ℤ) (nas : List NodeAssignment) (s : Server)
      → I s.registry
      → I (start_nodes p now id t0 nas s).1.registry
  unfolding start_nodes
  start_nodes-kept t0 [] s h = h
  start_nodes-kept t0 (na ∷ nas) s h = ground (
    arith,
    start_node-kept t0 na s h,
    start_nodes-kept t0 nas s h,
    start_nodes-kept t0 nas (start_node p now id t0 na s).1,
  )

  dispatch_start-kept :
      (t0 : ℤ) (nas : List NodeAssignment) (s : Server)
      → I s.registry
      → I (dispatch_start p now id t0 nas s).1.registry
  unfolding dispatch_start
  dispatch_start-kept t0 nas s h = ground (
    arith,
    start_nodes-kept t0 nas (record s { crypto = (generate_match_key p id s.crypto).1 }) h,
  )

  stop_node-kept :
      (na : NodeAssignment) (s : Server) → I s.registry → I (stop_node p now id na s).registry
  unfolding stop_node send same_state
  stop_node-kept na s h =
      ground (arith, K.update_state_keeps s.registry h na.node_id NodeState.ready now refl)

  pub stop_nodes-kept :
      (nas : List NodeAssignment) (s : Server)
      → I s.registry
      → I (stop_nodes p now id nas s).registry
  unfolding stop_nodes
  stop_nodes-kept [] s h = h
  stop_nodes-kept (na ∷ nas) s h =
      stop_nodes-kept nas (stop_node p now id na s) (stop_node-kept na s h)

  stop_parsed-kept :
      (interrupted : Bool) (r : Outcome (List NodeAssignment)) (s : Server)
      → I s.registry
      → I (continue r (stop_assigned p now interrupted id) s).1.registry
  unfolding stop_assigned
  stop_parsed-kept interrupted (err e) s h = h
  stop_parsed-kept true (ok nas) s h = stop_nodes-kept nas s h
  stop_parsed-kept false (ok nas) s h = stop_nodes-kept nas s h

  cancel-kept :
      (caller : Option ℕ) (s : Server)
      → I s.registry
      → I (cancel_auto_stop p now caller id s).1.registry
  unfolding cancel_auto_stop
  cancel-kept caller s h = ground arith

  stop_row-kept :
      (caller : Option ℕ) (row : MatchRecord) (s : Server)
      → I s.registry
      → I (stop_row p now caller id row s).1.registry
  unfolding stop_row
  stop_row-kept caller row s h = ground (
    arith,
    stop_parsed-kept (cancel_auto_stop p now caller id s).0 (parse_assignments row.config_json)
        (cancel_auto_stop p now caller id s).1 (cancel-kept caller s h),
  )

  pub stop-kept :
      (caller : Option ℕ) (s : Server) → I s.registry → I (stop p now caller id s).1.registry
  unfolding stop
  stop-kept caller s h = elim (Option-cases (Store.get id s.store)) [
    | inl e ↦ rw e h
    | inr (row, e) ↦ rw e (stop_row-kept caller row s h)
  ]

pub poll-kept :
    {A : String → String → Type 0} {I : NodeRegistry → Type 0} (K : Kept A I) (p : Primitives)
    (now : ℤ) (q : Pending) (s : Server)
    → I s.registry
    → I (poll p now q s).1.registry
unfolding poll start_finish schedule_auto_stop
poll-kept K p now q s h = ground (
  arith,
  dispatch_start-kept K p now q.match_id now q.assignments
      (set_match q.match_id Store.MatchState.running (some now) s) h,
)
