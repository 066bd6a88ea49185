-- ===== src/World/Overtaken.antt =====
-- A stop while a `start` waits for its nodes (central_server/match/manager.py).
use mathlib.Core.Path.{subst}
use agentic_juggling.Prelude.{
  sym, elem, all_of, ℕ, String, Bool, true, false, ◌≡◌, refl, ◌∙◌, ap, Option, none, some, List,
  arith, eq_refl,
}
use agentic_juggling.Prelude.Int.{ℤ}
use agentic_juggling.Prelude.Outcome.{ok}
use agentic_juggling.Primitives.{Primitives}
use agentic_juggling.Match.Config.{NodeAssignment, parse_assignments}
use agentic_juggling.Match.Store
use agentic_juggling.Match.Store.{MatchState, MatchRecord, same_state}
use agentic_juggling.Registry
use agentic_juggling.Registry.{NodeRegistry, NodeState, ids}
use agentic_juggling.Registry.Invariant.{IsValid}
use agentic_juggling.Server.{Server}
use agentic_juggling.Server.Wire.{Raw}
use agentic_juggling.Manager.{
  Pending, poll, all_ready, stop, cancel_auto_stop, stop_assigned, stop_nodes,
}
use agentic_juggling.Manager.Lifecycle.{state-poll}
use agentic_juggling.Manager.Readiness.{all_ready-stop_nodes}
use agentic_juggling.Manager.Stops.{stop_steps, stop_request}
use agentic_juggling.World.{World, Event, get_elem?, step, poll_at, woken}
use agentic_juggling.World.Lifecycle.{state_of}

all_ready-registry :
    (es : List String) (s s' : Server) → s.registry ≡ s'.registry → all_ready es s ≡ all_ready es s'
unfolding all_ready
all_ready-registry es s s' h =
    ap
      (λ (r : NodeRegistry).
        all_of (λ id. elem id (ids (Registry.all_in_state NodeState.ready r))) es)
      h

module _ (p : Primitives) (now : ℤ) (id : String) (s : Server) where
  registry-stop_assigned :
      (interrupted : Bool) (nas : List NodeAssignment)
      → (stop_nodes p now id nas s).registry ≡ (stop_assigned p now interrupted id nas s).1.registry
  unfolding stop_assigned
  registry-stop_assigned true nas = refl
  registry-stop_assigned false nas = refl

  registry-cancel_auto_stop :
      (caller : Option ℕ) → s.registry ≡ (cancel_auto_stop p now caller id s).1.registry
  unfolding cancel_auto_stop
  registry-cancel_auto_stop caller = ground arith

-- A stop leaves the nodes ready that a waiting `start` expects.
all_ready-stop :
    (p : Primitives) (now : ℤ) (id : String) (es : List String) (s : Server) {row : MatchRecord}
    {nas : List NodeAssignment}
    → Store.get id s.store ≡ some row
    → same_state row.state MatchState.finished ≡ false
    → parse_assignments row.config_json ≡ ok nas
    → IsValid s.registry
    → all_ready es s ≡ true
    → all_ready es (stop p now none id s).1 ≡ true
all_ready-stop p now id es s {nas = nas} found live parsed valid ready =
    let (interrupted, s₁) = cancel_auto_stop p now none id s in
    let same = registry-cancel_auto_stop p now id s none in
    let before : all_ready es s₁ ≡ true = sym (all_ready-registry es s s₁ same) ∙ ready in
    let last = (stop_assigned p now interrupted id nas s₁).1 in
    rw
      (
        stop_steps p now id s none found live parsed,
        ← all_ready-registry es (stop_nodes p now id nas s₁) last
            (registry-stop_assigned p now id s₁ interrupted nas),
      )
      (all_ready-stop_nodes p now id es nas s₁ (subst IsValid same valid) before)

-- A poll that finds the nodes ready sets the match running, whatever its state.
woken-running :
    (p : Primitives) (later : ℤ) (i : ℕ) (w : World) (q : Pending) {x : MatchState}
    → all_ready q.expected w.server ≡ true
    → state_of q.match_id w ≡ some x
    → state_of q.match_id (woken w i (poll p later q w.server)) ≡ some MatchState.running
woken-running p later i w q ready was =
    ground (arith, eq_refl q.match_id, state-poll p later q.match_id q w.server)

-- Let a `start` wait in STARTING, with a valid registry, a readable configuration and all its nodes
-- ready. A stop of the match finishes it; the next poll of the `start` sets the finished match running
-- again.
pub stop_overtakes_start :
    (p : Primitives) (alive : ℕ → Bool) (loads : String → Raw) (w : World) (i : ℕ) (now later : ℤ)
    {q : Pending} {row : MatchRecord} {nas : List NodeAssignment}
    → get_elem? w.starting i ≡ some q
    → Store.get q.match_id w.server.store ≡ some row
    → row.state ≡ MatchState.starting
    → parse_assignments row.config_json ≡ ok nas
    → IsValid w.server.registry
    → all_ready q.expected w.server ≡ true
    → let w₁ = step p alive loads w now (Event.stop q.match_id) in
      let w₂ = step p alive loads w₁ later (Event.poll i) in
      (state_of q.match_id w₁ ≡ some MatchState.finished)
      × (state_of q.match_id w₂ ≡ some MatchState.running)
unfolding step poll_at
stop_overtakes_start p alive loads w i now later {q} {row} {nas} at found starting parsed valid
      ready =
    let live : same_state row.state MatchState.finished ≡ false =
      rw starting (unfold same_state in refl) in
    let s₁ = (stop p now none q.match_id w.server).1 in
    let (_, done, _, _, _) = stop_request p now q.match_id w.server found live parsed in
    let ready₁ =
      all_ready-stop p now q.match_id q.expected w.server found live parsed valid ready in
    (done, rw at (woken-running p later i (record w { server = s₁ }) q ready₁ done))
