-- ===== src/World/Nodes.antt =====
-- The node registry in the runs of the central server (central_server/registry/nodes.py and all that
-- calls it).
use agentic_juggling.Prelude.{
  ◌⊎◌, inl, inr, ℕ, String, Bool, true, ◌≡◌, Option, none, some, List, [], ◌∷◌, arith,
}
use agentic_juggling.Prelude.Int.{ℤ}
use agentic_juggling.Prelude.Outcome.{Outcome, ok, err}
use agentic_juggling.Primitives.{Primitives}
use agentic_juggling.Registry
use agentic_juggling.Registry.{NodeState, NodeRegistry, same_state}
use agentic_juggling.Registry.Invariant.{IsValid, all_connected_lem, new_registry-IsValid}
use agentic_juggling.Registry.Kept.{Kept, Admitted, Anyone, valid, admitted, new_registry-Admitted}
use agentic_juggling.Prelude.Dict.{Dict, lookup, values, has_key}
use agentic_juggling.Server.{Server, Timer, new_server}
use agentic_juggling.Server.Wire.{Raw}
use agentic_juggling.Match.Store.{MatchStore}
use agentic_juggling.Metrics.Store.{MetricsStore}
use agentic_juggling.Manager
use agentic_juggling.Manager.{
  Pending, start_node, start_nodes, dispatch_start, start_finish, schedule_auto_stop, poll,
  stop_nodes, stop_assigned, stop_row, stop, cancel_auto_stop, auto_stop, start_begin, set_match,
}
use agentic_juggling.World.{World, booted, Event, step, run, begun, poll_at, fire_at}
use agentic_juggling.Manager.Registered.{stop-kept, poll-kept}
use agentic_juggling.Server.Router.Registered.{Presents, dispatch-kept}

-- the event is a REGISTER message with the id and the token
abbrev pub Registers : (String → Raw) → Event → String → String → Type 0
Registers loads (Event.receive frames) id token = Presents loads frames id token
Registers loads (Event.create config) id token = ⊥
Registers loads (Event.start match_id timeout) id token = ⊥
Registers loads (Event.stop match_id) id token = ⊥
Registers loads (Event.poll i) id token = ⊥
Registers loads (Event.fire i) id token = ⊥

-- one of the events is
abbrev pub Registered : (String → Raw) → List (ℤ × Event) → String → String → Type 0
Registered loads [] id token = ⊥
Registered loads (e ∷ es) id token = Registers loads e.1 id token ⊎ Registered loads es id token

module _ {A : String → String → Type 0} {I : NodeRegistry → Type 0} (K : Kept A I) (p : Primitives)
    (alive : ℕ → Bool) (loads : String → Raw) where
  begun-kept :
      (w : World) (r : Outcome Pending) (s : Server)
      → I s.registry
      → I (begun w (r, s)).server.registry
  begun-kept w (ok q) s h = h
  begun-kept w (err e) s h = h

  start_begin-kept :
      (id : String) (timeout now : ℤ) (s : Server)
      → I s.registry
      → I (start_begin id timeout now s).1.registry
  unfolding start_begin Manager.get
  start_begin-kept id timeout now s h = ground arith

  poll_at-kept :
      (i : ℕ) (now : ℤ) (w : World) (o : Option Pending)
      → I w.server.registry
      → I (poll_at p alive loads i now w o).server.registry
  unfolding poll_at
  poll_at-kept i now w none h = h
  poll_at-kept i now w (some q) h = ground (arith, poll-kept K p now q w.server h)

  fire_at-kept :
      (now : ℤ) (w : World) (o : Option Timer)
      → I w.server.registry
      → I (fire_at p alive loads now w o).server.registry
  unfolding fire_at auto_stop
  fire_at-kept now w none h = h
  fire_at-kept now w (some t) h =
      ground (arith, stop-kept K p now t.match_id (some t.id) w.server h)

  step-kept :
      (w : World) (now : ℤ) (e : Event)
      → ((id token : String) → Registers loads e id token → A id token)
      → I w.server.registry
      → I (step p alive loads w now e).server.registry
  unfolding step Manager.create
  step-kept w now (Event.create config) a h = h
  step-kept w now (Event.start id timeout) a h =
      begun-kept w _ _ (start_begin-kept id timeout now w.server h)
  step-kept w now (Event.stop id) a h = stop-kept K p now id none w.server h
  step-kept w now (Event.poll i) a h = poll_at-kept i now w _ h
  step-kept w now (Event.fire i) a h = fire_at-kept now w _ h
  step-kept w now (Event.receive frames) a h = dispatch-kept K p alive now loads frames w.server a h

  run-kept :
      (w : World) (es : List (ℤ × Event))
      → ((e : Event) (id token : String) → Registers loads e id token → A id token)
      → I w.server.registry
      → I (run p alive loads w es).server.registry
  unfolding run
  run-kept w [] a h = h
  run-kept w ((now, e) ∷ es) a h =
      run-kept (step p alive loads w now e) es a (step-kept w now e (a e) h)

module _ (p : Primitives) (alive : ℕ → Bool) (loads : String → Raw) where
  -- From a valid registry every run leads to a valid one: each record is filed once, under its own id,
  -- and no node is marked as disconnected, so that `all_connected` lists all records.
  pub run_registry :
      (w : World) (es : List (ℤ × Event))
      → IsValid w.server.registry
      → let r = (run p alive loads w es).server.registry in
        IsValid r × (Registry.all_connected r ≡ values r.nodes)
  run_registry w es h =
      let valid = run-kept (valid Anyone) p alive loads w es (λ e id token _. tt) h in
      (valid, all_connected_lem (run p alive loads w es).server.registry valid)

  module _ (tokens : Dict String) where
    -- it was of P before, or one of the events is a REGISTER message with its configured token
    abbrev Joined : (String → Type 0) → List (ℤ × Event) → String → Type 0
    Joined P es j =
        P j ⊎ ((token : String) × (lookup j tokens ≡ some token) × Registered loads es j token)

    abbrev Joins : (String → Type 0) → Event → String → Type 0
    Joins P e j =
        P j ⊎ ((token : String) × (lookup j tokens ≡ some token) × Registers loads e j token)

    Joins-Joined :
        (P : String → Type 0) (now : ℤ) (e : Event) (es : List (ℤ × Event)) (j : String)
        → Joined (Joins P e) es j
        → Joined P ((now, e) ∷ es) j
    Joins-Joined P now e es j (inl (inl h)) = inl h
    Joins-Joined P now e es j (inl (inr (token, k, h))) = inr (token, k, inl h)
    Joins-Joined P now e es j (inr (token, k, h)) = inr (token, k, inr h)

    run-Joined :
        (P : String → Type 0) (w : World) (es : List (ℤ × Event))
        → Admitted tokens P w.server.registry
        → Admitted tokens (Joined P es) (run p alive loads w es).server.registry
    unfolding run
    run-Joined P w [] h = (h.0, λ j k. inl (h.1 j k))
    run-Joined P w ((now, e) ∷ es) h =
        let kept =
          step-kept
            (admitted (Registers loads e) tokens (Joins P e) (λ id token k a. inr (token, k, a))) p
            alive loads w now e (λ id token a. a) (h.0, λ j k. inl (h.1 j k)) in
        let after = run-Joined (Joins P e) (step p alive loads w now e) es kept in
        (after.0, λ j k. Joins-Joined P now e es j (after.1 j k))

  abbrev Nobody : String → Type 0
  Nobody j = ⊥

  -- Only nodes that have shown their token get in: from the boot of a server on, whatever its databases hold and whatever
  -- happens, for every node in the registry a token is configured and one of the messages that have come is a REGISTER
  -- with its id and this very token; and the registry is valid.
  pub run-booted :
      (tokens : Dict String) (matches : MatchStore) (metrics : MetricsStore) (es : List (ℤ × Event))
      → let r = (run p alive loads (booted tokens matches metrics) es).server.registry in
        ((j : String)
          → has_key j r.nodes ≡ true
          → (token : String) × (lookup j tokens ≡ some token) × Registered loads es j token)
        × IsValid r
  unfolding booted new_server
  run-booted tokens matches metrics es =
      let w = booted tokens matches metrics in
      (
        λ j k.
            not_before
              ((run-Joined tokens Nobody w es (new_registry-Admitted tokens Nobody)).1 j k),
        run-kept (valid Anyone) p alive loads w es (λ e id token _. tt)
            (new_registry-IsValid tokens),
      )
    where
      not_before : {B : Type 0} → ⊥ ⊎ B → B
      not_before (inl h) = elim h [ ]
      not_before (inr b) = b
