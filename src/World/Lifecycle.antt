-- ===== src/World/Lifecycle.antt =====
-- The life cycle of the matches in every run of the central server, whatever the interleaving
-- (central_server/match/manager.py, central_server/SERVER_SPEC.md).
use mathlib.Core.Path.{subst}
use mathlib.Core.Option.{some-injective}
use agentic_juggling.Prelude.{
  ℕ, zero, suc, String, Bool, ◌≡◌, ◌≢◌, refl, ◌∙◌, sym, Option, none, some, List, [], ◌∷◌, ◌++◌,
  arith, eq_iff, All,
}
use agentic_juggling.Prelude.Int.{ℤ}
use agentic_juggling.Prelude.Dict.{lookup-insert}
use agentic_juggling.Prelude.Outcome.{Outcome, ok, err}
use agentic_juggling.Primitives.{Primitives}
use agentic_juggling.Match.Config.{MatchConfig}
use agentic_juggling.Match.Store
use agentic_juggling.Match.Store.{MatchState, MatchStore}
use agentic_juggling.Server.{Timer}
use agentic_juggling.Server.Wire.{Raw}
use agentic_juggling.Server.Router.Frames.{store-dispatch}
use agentic_juggling.Manager
use agentic_juggling.Manager.{Pending, start_begin, poll, all_ready}
use agentic_juggling.Manager.Lifecycle.{
  state_in, state-start_begin, start_begin_failure, state-poll, state-stop, state-auto_stop,
}
use agentic_juggling.World.{World, Event, get_elem?, remove_at, step, run, begun, poll_at, fire_at}

abbrev pub state_of : String → World → Option MatchState
state_of j w = state_in j w.server.store

-- none of the waiting `start` calls is about the match
abbrev pub NotStarting : String → List Pending → Type 0
NotStarting j qs = All (λ q. q.match_id ≢ j) qs

pub All-get_elem? {ℓ κ} :
    {A : Type ℓ} (P : A → Type κ) (xs : List A) (i : ℕ) {x : A}
    → All P xs
    → get_elem? xs i ≡ some x
    → P x
All-get_elem? P [] i h e = cc
All-get_elem? P (x ∷ xs) zero h e = subst P (some-injective _ _ e) h.0
All-get_elem? P (x ∷ xs) (suc i) h e = All-get_elem? P xs i h.1 e

All-remove_at {ℓ κ} :
    {A : Type ℓ} (P : A → Type κ) (xs : List A) (i : ℕ) → All P xs → All P (remove_at xs i)
All-remove_at P [] i h = tt
All-remove_at P (x ∷ xs) zero h = h.1
All-remove_at P (x ∷ xs) (suc i) h = (h.0, All-remove_at P xs i h.1)

All-snoc {ℓ κ} :
    {A : Type ℓ} (P : A → Type κ) (xs : List A) (x : A) → All P xs → P x → All P (xs ++ x ∷ [])
All-snoc P [] x h k = (k, tt)
All-snoc P (y ∷ ys) x h k = (h.0, All-snoc P ys x h.1 k)

-- A `create` under the id of a match that is there raises and changes nothing.
state-create_taken :
    (config : MatchConfig) (j : String) (st : MatchStore) {x : MatchState}
    → state_in j st ≡ some x
    → state_in j (Store.create config st).1 ≡ some x
unfolding Store.create Store.get Store.new_record
state-create_taken config j st h = ground (
  arith,
  eq_iff config.match_id j,
  lookup-insert config.match_id j (Store.new_record config) st.rows,
)

module _ (p : Primitives) (alive : ℕ → Bool) (loads : String → Raw) (j : String) where
  -- `j` is finished and no `start` of it waits
  abbrev Closed : World → Type 0
  Closed w = (state_of j w ≡ some MatchState.finished) × NotStarting j w.starting

  begun-Closed :
      (id : String) (timeout now : ℤ) (w : World) (r : Outcome Pending)
      → (start_begin id timeout now w.server).0 ≡ r
      → Closed w
      → Closed (begun w (r, (start_begin id timeout now w.server).1))
  begun-Closed id timeout now w (ok q) e h =
      let (same, was, after) = state-start_begin id j timeout now w.server e in
      let other : id ≢ j = λ (k : id ≡ j). ground (arith, h.0, was, k) in
      (
        ground (arith, eq_iff id j, after, h.0, other),
        All-snoc (λ q. q.match_id ≢ j) w.starting q h.1
            (λ (k : q.match_id ≡ j). other (sym same ∙ k)),
      )
  begun-Closed id timeout now w (err x) e h = rw (start_begin_failure id j timeout now w.server e) h

  poll_at-Closed :
      (i : ℕ) (now : ℤ) (w : World) (o : Option Pending)
      → get_elem? w.starting i ≡ o
      → Closed w
      → Closed (poll_at p alive loads i now w o)
  unfolding poll_at
  poll_at-Closed i now w none e h = h
  poll_at-Closed i now w (some q) e h =
      let other = All-get_elem? (λ q. q.match_id ≢ j) w.starting i h.1 e in
      let fewer = All-remove_at (λ q. q.match_id ≢ j) w.starting i h.1 in
      let same = state-poll p now j q w.server in
      ground (arith, eq_iff q.match_id j, other, fewer, same)

  fire_at-Closed :
      (now : ℤ) (w : World) (o : Option Timer) → Closed w → Closed (fire_at p alive loads now w o)
  unfolding fire_at
  fire_at-Closed now w none h = h
  fire_at-Closed now w (some t) h = ground (arith, state-auto_stop p now j t w.server)

  step-Closed : (w : World) (now : ℤ) (e : Event) → Closed w → Closed (step p alive loads w now e)
  unfolding step Manager.create
  step-Closed w now (Event.create config) h = (state-create_taken config j w.server.store h.0, h.1)
  step-Closed w now (Event.start id timeout) h = begun-Closed id timeout now w _ refl h
  step-Closed w now (Event.stop id) h = ground (arith, state-stop p now j none id w.server)
  step-Closed w now (Event.poll i) h = poll_at-Closed i now w _ refl h
  step-Closed w now (Event.fire i) h = fire_at-Closed now w _ h
  step-Closed w now (Event.receive frames) h =
      (rw (store-dispatch p alive now loads frames w.server) h.0, h.1)

  run-Closed : (w : World) (es : List (ℤ × Event)) → Closed w → Closed (run p alive loads w es)
  unfolding run
  run-Closed w [] h = h
  run-Closed w ((now, e) ∷ es) h =
      run-Closed (step p alive loads w now e) es (step-Closed w now e h)

  -- FINISHED is final: if no `start` of a finished match still waits, then whatever the events, the
  -- match stays finished, and no `start` of it ever waits again.
  pub run_finished :
      (w : World) (es : List (ℤ × Event))
      → state_of j w ≡ some MatchState.finished
      → NotStarting j w.starting
      → (state_of j (run p alive loads w es) ≡ some MatchState.finished)
        × NotStarting j (run p alive loads w es).starting
  run_finished w es h k = run-Closed w es (h, k)
