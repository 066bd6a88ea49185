-- ===== src/World.antt =====
-- The running server: its state, the `start` calls that wait for their nodes, and the events that the
-- event loop interleaves (HTTP requests, messages of nodes, rounds of the readiness poll, auto-stops).
pub mod Lifecycle
pub mod Transitions
pub mod Overtaken
pub mod Nodes
pub mod Committed
pub mod Contract
pub mod Refinement
use agentic_juggling.Prelude.{
  ℕ, zero, suc, String, Bool, Option, none, some, List, [], ◌∷◌, ◌++◌, if◌then◌else◌,
}
use agentic_juggling.Prelude.Int.{ℤ, leb_ℤ}
use agentic_juggling.Prelude.Outcome.{Outcome, ok, err}
use agentic_juggling.Primitives.{Primitives}
use agentic_juggling.Prelude.Dict.{Dict}
use agentic_juggling.Match.Store.{MatchStore}
use agentic_juggling.Metrics.Store.{MetricsStore}
use agentic_juggling.Match.Config.{MatchConfig}
use agentic_juggling.Server.{Server, Timer, new_server}
use agentic_juggling.Server.Wire.{Raw}
use agentic_juggling.Server.Router.{dispatch}
use agentic_juggling.Manager
use agentic_juggling.Manager.{Pending}

pub record World : Type 0 where
  pub server : Server
  pub starting : List Pending

-- a server that has just booted
unfoldable pub booted : Dict String → MatchStore → MetricsStore → World
unfolding new_server
booted tokens matches metrics = record { server = new_server tokens matches metrics; starting = [] }

pub data Event : Type 0 where
  -- `POST /match`, `POST /match/{id}/start`, `POST /match/{id}/stop`
  create : MatchConfig → Event
  start : String → ℤ → Event
  stop : String → Event
  -- the i-th waiting `start` wakes up; the i-th task ends its sleep, if it is over
  poll : ℕ → Event
  fire : ℕ → Event
  -- a multipart message arrives
  receive : List String → Event

abbrev pub get_elem? {ℓ} : {A : Type ℓ} → List A → ℕ → Option A
get_elem? [] i = none
get_elem? (x ∷ xs) zero = some x
get_elem? (x ∷ xs) (suc i) = get_elem? xs i

abbrev pub remove_at {ℓ} : {A : Type ℓ} → List A → ℕ → List A
remove_at [] i = []
remove_at (x ∷ xs) zero = xs
remove_at (x ∷ xs) (suc i) = x ∷ remove_at xs i

-- A `start` whose checks passed joins those that wait.
abbrev pub begun : World → Outcome Pending × Server → World
begun w (ok q, s) = record { server = s; starting = w.starting ++ q ∷ [] }
begun w (err e, s) = record w { server = s }

-- One that is done leaves them.
abbrev pub woken : World → ℕ → Option (Outcome (Unit {0})) × Server → World
woken w i (none, s) = record w { server = s }
woken w i (some _, s) = record { server = s; starting = remove_at w.starting i }

module _ (p : Primitives) (alive : ℕ → Bool) (loads : String → Raw) where
  poll_at : ℕ → ℤ → World → Option Pending → World
  poll_at i now w none = w
  poll_at i now w (some q) = woken w i (Manager.poll p now q w.server)

  fire_at : ℤ → World → Option Timer → World
  fire_at now w none = w
  fire_at now w (some t) =
      if leb_ℤ t.due now then record w { server = (Manager.auto_stop p now t w.server).1 } else w

  unfoldable pub step : World → ℤ → Event → World
  unfolding poll_at fire_at
  step w now (Event.create config) = record w { server = (Manager.create config w.server).1 }
  step w now (Event.start id timeout) = begun w (Manager.start_begin id timeout now w.server)
  step w now (Event.stop id) = record w { server = (Manager.stop p now none id w.server).1 }
  step w now (Event.poll i) = poll_at i now w (get_elem? w.starting i)
  step w now (Event.fire i) = fire_at now w (get_elem? w.server.timers i)
  step w now (Event.receive frames) = record w {
    server = (dispatch p alive now loads frames w.server).1;
  }

  -- a run: the events with the times at which they happen
  unfoldable pub run : World → List (ℤ × Event) → World
  unfolding step
  run w [] = w
  run w ((now, e) ∷ rest) = run (step w now e) rest
