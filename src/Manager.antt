-- ===== src/Manager.antt =====
-- central_server/match/manager.py. A method runs from one point where the event loop may switch to the
-- next: `start` up to its readiness poll, one round of the poll, and what follows when it succeeds.
pub mod Dispatch
pub mod Lifecycle
pub mod Readiness
pub mod Stops
pub mod Registered
pub mod Recipients
use agentic_juggling.Prelude.{
  ℕ, ◌+◌, String, Bool, true, false, not, Option, none, some, List, [], ◌∷◌, ◌++◌, map, ◌==◌, ◌&&◌,
  if◌then◌else◌, nat_eq, keep, elem, all_of,
}
use agentic_juggling.Prelude.Int.{ℤ, ◌+ℤ◌, leb_ℤ}
use agentic_juggling.Prelude.Dict.{Dict, lookup, insert, erase}
use agentic_juggling.Prelude.Outcome.{
  Error, Outcome, ok, err, or_raise, Exec, pure, raise, lift, gets, update, ◌>>=◌, ◌>>◌,
}
use agentic_juggling.Primitives.{Primitives}
use agentic_juggling.Registry
use agentic_juggling.Registry.{NodeState, ids}
use agentic_juggling.Crypto
use agentic_juggling.Crypto.{PlainEntry}
use agentic_juggling.Match.Config.{PromptEntry, NodeAssignment, MatchConfig, parse_assignments}
use agentic_juggling.Match.Store
use agentic_juggling.Match.Store.{MatchState, MatchRecord, same_state}
use agentic_juggling.Server.{Server, Timer, on_crypto}
use agentic_juggling.Server.Wire
use agentic_juggling.Server.Router.{send}

-- A `start` that waits in `_await_ready`: its local variables.
pub record Pending : Type 0 where
  pub match_id : String
  pub row : MatchRecord
  pub assignments : List NodeAssignment
  pub expected : List String
  pub deadline : ℤ

unfoldable pub create : MatchConfig → Exec Server MatchRecord
create config s = let (r, store) = Store.create config s.store in (r, record s { store = store })

unfoldable pub get : String → Exec Server MatchRecord
get match_id s = (or_raise (Store.get match_id s.store) Error.match_not_found, s)

abbrev pub set_match : String → MatchState → Option ℤ → Server → Server
set_match match_id state t0 s = record s { store = Store.update_state match_id state t0 s.store }

abbrev pub check : Bool → Error → Exec Server (Unit {0})
check true e = pure tt
check false e = raise e

-- `start` up to its first poll
unfoldable pub start_begin : String → ℤ → ℤ → Exec Server Pending
unfolding same_state
start_begin match_id timeout now = do
  row ← get match_id
  check (same_state row.state MatchState.lobby) Error.wrong_state
  assignments ← lift (parse_assignments row.config_json)
  update (set_match match_id MatchState.starting none)
  pure (record {
    match_id = match_id;
    row = row;
    assignments = assignments;
    expected = map (λ na. na.node_id) assignments;
    deadline = now +ℤ timeout;
  })

-- `expected.issubset(ready)`
unfoldable pub all_ready : List String → Server → Bool
all_ready expected s =
    let ready = ids (Registry.all_in_state NodeState.ready s.registry) in
    all_of (λ id. elem id ready) expected

abbrev pub raw_schedule : List PromptEntry → List PlainEntry
raw_schedule = map (λ e. record { delay = e.delay; prompt = e.prompt })

module _ (p : Primitives) (now : ℤ) where
  -- one round of the loop in `_dispatch_start`, for a node that has a session
  unfoldable pub start_node : String → ℤ → NodeAssignment → Exec Server (Unit {0})
  start_node match_id t0 na = do
    schedule ← on_crypto (Crypto.encrypt_schedule p match_id (raw_schedule na.schedule))
    key ← on_crypto (Crypto.encrypt_match_key_for_node p match_id na.node_id)
    sent ← (λ s.
        let (done, s') =
          send na.node_id
            (Wire.start (record {
              match_id = match_id;
              agentname = na.agentname;
              t0 = t0;
              encrypted_match_key = key;
              schedule = schedule;
            }))
            s in
        (ok done, s'))
    update (λ s.
        if sent
        then record s {
          registry = Registry.update_state na.node_id NodeState.running now s.registry;
        }
        else s)

  unfoldable pub start_nodes : String → ℤ → List NodeAssignment → Exec Server (Unit {0})
  start_nodes match_id t0 [] = pure tt
  start_nodes match_id t0 (na ∷ nas) =
      let others = start_nodes match_id t0 nas in
      do
        known ← gets (λ s. Crypto.has_session na.node_id s.crypto)
        if known then start_node match_id t0 na else pure tt
        others

  unfoldable pub dispatch_start : String → ℤ → List NodeAssignment → Exec Server (Unit {0})
  dispatch_start match_id t0 assignments = do
    on_crypto (Crypto.generate_match_key p match_id)
    start_nodes match_id t0 assignments

  -- `asyncio.create_task(self._auto_stop(...))`, filed under the match
  unfoldable pub schedule_auto_stop : String → ℤ → Server → Server
  schedule_auto_stop match_id delay s = record s {
    auto_stop_tasks = insert match_id s.next_timer s.auto_stop_tasks;
    timers = s.timers ++ record { id = s.next_timer; match_id = match_id; due = now +ℤ delay } ∷ [];
    next_timer = s.next_timer + 1;
  }

  -- `start` after its wait
  unfoldable pub start_finish : Pending → Exec Server (Unit {0})
  start_finish w = do
    update (set_match w.match_id MatchState.running (some now))
    dispatch_start w.match_id now w.assignments
    update (schedule_auto_stop w.match_id w.row.duration_s)

  -- One round of `_await_ready`: `none` if it sleeps on, else how `start` ended.
  unfoldable pub poll : Pending → Server → Option (Outcome (Unit {0})) × Server
  poll w s =
      if all_ready w.expected s
      then (let (r, s') = start_finish w s in (some r, s'))
      else if leb_ℤ w.deadline now
      then (some (err Error.ready_timeout), set_match w.match_id MatchState.lobby none s)
      else (none, s)

  -- one round of the loop in `stop`
  unfoldable pub stop_node : String → NodeAssignment → Server → Server
  stop_node match_id na s =
      let (sent, s') = send na.node_id (Wire.stop match_id) s in
      if sent
      then record s' { registry = Registry.update_state na.node_id NodeState.ready now s'.registry }
      else s'

  unfoldable pub stop_nodes : String → List NodeAssignment → Server → Server
  stop_nodes match_id [] s = s
  stop_nodes match_id (na ∷ nas) s = stop_nodes match_id nas (stop_node match_id na s)

  abbrev pub is_task : Option ℕ → ℕ → Bool
  is_task none id = false
  is_task (some caller) id = nat_eq caller id

  -- `self._auto_stop_tasks.pop(match_id, None)` and `task.cancel()`: the server without the task, and
  -- whether the task that was cancelled is the caller itself
  unfoldable pub cancel_auto_stop : Option ℕ → String → Server → Bool × Server
  cancel_auto_stop caller match_id s = elim (lookup match_id s.auto_stop_tasks) [
    | none ↦ (false, s)
    | some id ↦ (
      is_task caller id,
      record s {
        auto_stop_tasks = erase match_id s.auto_stop_tasks;
        timers = keep (λ t. not (nat_eq t.id id)) s.timers;
      },
    )
  ]

  -- The end of `stop`. A task that has cancelled itself is interrupted where it first waits, in the
  -- UPDATE, which the connection's thread still executes, and before the commit.
  unfoldable pub finish : Bool → String → Exec Server (Unit {0})
  finish interrupted match_id s =
      if interrupted
      then (
        err Error.cancelled,
        record s { store = Store.execute_update match_id MatchState.finished none s.store },
      )
      else (ok tt, set_match match_id MatchState.finished none s)

  -- `stop` from its loop on
  unfoldable pub stop_assigned : Bool → String → List NodeAssignment → Exec Server (Unit {0})
  unfolding finish
  stop_assigned interrupted match_id assignments s =
      let s₁ = stop_nodes match_id assignments s in
      finish interrupted match_id
        (record s₁ { crypto = Crypto.revoke_match_key match_id s₁.crypto })

  -- `stop` of a match that was found
  unfoldable pub stop_row : Option ℕ → String → MatchRecord → Exec Server (Unit {0})
  unfolding same_state
  stop_row caller match_id row s =
      if same_state row.state MatchState.finished
      then (ok tt, s)
      else (let (interrupted, s₁) = cancel_auto_stop caller match_id s in
          (do
            assignments ← lift (parse_assignments row.config_json)
            stop_assigned interrupted match_id assignments)
            s₁)

  -- `stop`, called by a request (`none`) or by an auto-stop task
  unfoldable pub stop : Option ℕ → String → Exec Server (Unit {0})
  unfolding get
  stop caller match_id = do row ← get match_id; stop_row caller match_id row

  -- `except MatchError: logger.error(...)`
  unfoldable pub logged : Outcome (Unit {0}) → Outcome (Unit {0})
  logged (err Error.match_not_found) = ok tt
  logged (err Error.wrong_state) = ok tt
  logged (err Error.ready_timeout) = ok tt
  logged r = r

  -- `_auto_stop` when its sleep is over: the task calls `stop` and ends.
  unfoldable pub auto_stop : Timer → Exec Server (Unit {0})
  unfolding logged
  auto_stop t s =
      let (r, s') = stop (some t.id) t.match_id s in
      (logged r, record s' { timers = keep (λ u. not (nat_eq u.id t.id)) s'.timers })
