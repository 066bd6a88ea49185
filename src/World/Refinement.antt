-- ===== src/World/Refinement.antt =====
-- The central server against the contract of its matches.
use mathlib.Core.Path.{subst, fun_ext}
use mathlib.Core.List.{map-append}
use agentic_juggling.Prelude.{
  ℕ, zero, suc, String, Bool, ◌≡◌, refl, ◌∙◌, sym, ap, Option, none, some, List, [], ◌∷◌, ◌++◌,
  arith, ◌==◌, eq_iff, map, Bool-cases, inl, inr, if◌then◌else◌,
}
use agentic_juggling.Prelude.Int.{ℤ, leb_ℤ}
use agentic_juggling.Prelude.Dict.{has_key, lookup-insert}
use agentic_juggling.Prelude.Outcome.{Error, Outcome, ok, err}
use agentic_juggling.Primitives.{Primitives}
use agentic_juggling.Match.Config.{MatchConfig}
use agentic_juggling.Match.Store
use agentic_juggling.Match.Store.{MatchState, MatchStore}
use agentic_juggling.Server.{Server, Timer}
use agentic_juggling.Server.Wire.{Raw}
use agentic_juggling.Server.Router.{dispatch}
use agentic_juggling.Server.Router.Frames.{store-dispatch}
use agentic_juggling.Manager
use agentic_juggling.Manager.{Pending, start_begin, poll, all_ready, set_match}
use agentic_juggling.Manager.Lifecycle.{
  state_in, state-start_begin, start_begin_failure, state-start_finish, state-update_state,
  state-stop, state-auto_stop, Stopped, put_state,
}
use agentic_juggling.World.{
  World, Event, get_elem?, remove_at, step, run, begun, woken, poll_at, fire_at,
}
use agentic_juggling.World.Contract.{
  States, Matches, set, add, Move, stay, created, begin, launched, timed_out, stopped, Moves, done,
  next, view,
}

-- a move that leads to the same, match by match
reaches :
    {u : Matches} (f g : States) (ws ws' : List String)
    → ((j : String) → g j ≡ f j)
    → ws' ≡ ws
    → Move u (record { states = f; waiting = ws })
    → Move u (record { states = g; waiting = ws' })
reaches {u} f g ws ws' h k m =
    subst (λ ws. Move u (record { states = g; waiting = ws })) (sym k)
      (subst (λ f. Move u (record { states = f; waiting = ws })) (sym (fun_ext h)) m)

map-remove_at :
    (qs : List Pending) (i : ℕ)
    → map (λ q. q.match_id) (remove_at qs i) ≡ remove_at (map (λ q. q.match_id) qs) i
map-remove_at [] i = refl
map-remove_at (q ∷ qs) zero = refl
map-remove_at (q ∷ qs) (suc i) = ap (λ ids. q.match_id ∷ ids) (map-remove_at qs i)

map-get_elem? :
    (qs : List Pending) (i : ℕ) {q : Pending}
    → get_elem? qs i ≡ some q
    → get_elem? (map (λ q. q.match_id) qs) i ≡ some q.match_id
map-get_elem? [] i h = cc
map-get_elem? (p ∷ qs) zero {q} h = cc
map-get_elem? (p ∷ qs) (suc i) h = map-get_elem? qs i h

-- what a call to `stop` does, when it is one of the moves
abbrev StoppedAll : String → MatchStore → MatchStore → Type 0
StoppedAll id st st' = (j : String) → Stopped j id (state_in j st) (state_in j st')

unchanged :
    (id : String) (st st' : MatchStore)
    → StoppedAll id st st'
    → state_in id st' ≡ state_in id st
    → (j : String) → state_in j st' ≡ state_in j st
unchanged id st st' h same j = elim (h j) [
  | inl e ↦ e
  | inr (k, _) ↦ subst (λ j. state_in j st' ≡ state_in j st) k same
]

finishes :
    (id : String) (st st' : MatchStore)
    → StoppedAll id st st'
    → state_in id st' ≡ put_state MatchState.finished (state_in id st)
    → (j : String) → state_in j st' ≡ set id MatchState.finished (λ j. state_in j st) j
finishes id st st' h over j = elim (Bool-cases (id == j)) [
  | inl e ↦ rw e (
      subst (λ j. state_in j st' ≡ put_state MatchState.finished (state_in j st))
        (ground (arith, eq_iff id j, e)) over)
  | inr e ↦
      rw e
        (elim (h j) [ inl same ↦ same | inr (k, _) ↦ absurd (ground (arith, eq_iff id j, e, k)) ])
]

stop-Move :
    (id : String) (w : World) (s' : Server)
    → StoppedAll id w.server.store s'.store
    → Move (view w) (view (record w { server = s' }))
stop-Move id w s' h = elim (h id) [
  | inl same ↦
      reaches (view w).states _ _ _ (unchanged id w.server.store s'.store h same) refl
        (stay (view w))
  | inr (_, over) ↦
      reaches (set id MatchState.finished (view w).states) _ _ _
        (finishes id w.server.store s'.store h over) refl (stopped id (view w))
]

create-Move :
    (config : MatchConfig) (w : World)
    → Move (view w) (view (record w { server = (Manager.create config w.server).1 }))
unfolding Manager.create Store.create Store.get Store.new_record
create-Move config w = elim (Bool-cases (has_key config.match_id w.server.store.rows)) [
  | inl e ↦ rw e (stay (view w))
  | inr e ↦ rw e (
      reaches (add config.match_id (view w).states) _ _ _
        (λ j.
          ground
            (arith, lookup-insert config.match_id j (Store.new_record config) w.server.store.rows))
        refl (created config.match_id (view w) (ground arith)))
]

module _ (p : Primitives) (alive : ℕ → Bool) (loads : String → Raw) where
  begun-Move :
      (id : String) (timeout now : ℤ) (w : World) (r : Outcome Pending)
      → (start_begin id timeout now w.server).0 ≡ r
      → Move (view w) (view (begun w (r, (start_begin id timeout now w.server).1)))
  begun-Move id timeout now w (ok q) e =
      let (same, was, _) = state-start_begin id id timeout now w.server e in
      reaches (set id MatchState.starting (view w).states) _ _ _
        (λ j.
          let (_, _, after) = state-start_begin id j timeout now w.server e in
          ground (arith, eq_iff id j, was, after))
        (map-append (λ q. q.match_id) w.starting (q ∷ [])
          ∙ ap (λ id. map (λ q. q.match_id) w.starting ++ id ∷ []) same)
        (begin id (view w) was)
  begun-Move id timeout now w (err x) e =
      subst (λ s. Move (view w) (view (record w { server = s })))
        (sym (start_begin_failure id id timeout now w.server e)) (stay (view w))

  -- a round that does not find the nodes ready
  poll-Move_late :
      (i : ℕ) (now : ℤ) (w : World) (q : Pending)
      → get_elem? w.starting i ≡ some q
      → Move (view w) (
          view (
            woken w i (
              if leb_ℤ q.deadline now
              then (
                some (err Error.ready_timeout),
                set_match q.match_id MatchState.lobby none w.server,
              )
              else (none, w.server))))
  poll-Move_late i now w q e = elim (Bool-cases (leb_ℤ q.deadline now)) [
    | inl k ↦ rw k (
        reaches (set q.match_id MatchState.lobby (view w).states) _ _ _
          (λ j. state-update_state q.match_id j MatchState.lobby none w.server.store)
          (map-remove_at w.starting i)
          (timed_out i q.match_id (view w) (map-get_elem? w.starting i e)))
    | inr k ↦ rw k (stay (view w))
  ]

  poll-Move :
      (i : ℕ) (now : ℤ) (w : World) (q : Pending)
      → get_elem? w.starting i ≡ some q
      → Move (view w) (view (woken w i (poll p now q w.server)))
  unfolding poll
  poll-Move i now w q e = elim (Bool-cases (all_ready q.expected w.server)) [
    | inl k ↦ rw k (
        reaches (set q.match_id MatchState.running (view w).states) _ _ _
          (λ j. ground (arith, state-start_finish p now j q w.server)) (map-remove_at w.starting i)
          (launched i q.match_id (view w) (map-get_elem? w.starting i e)))
    | inr k ↦ rw k (poll-Move_late i now w q e)
  ]

  poll_at-Move :
      (i : ℕ) (now : ℤ) (w : World) (o : Option Pending)
      → get_elem? w.starting i ≡ o
      → Move (view w) (view (poll_at p alive loads i now w o))
  unfolding poll_at
  poll_at-Move i now w none e = stay (view w)
  poll_at-Move i now w (some q) e = poll-Move i now w q e

  fire_at-Move :
      (now : ℤ) (w : World) (o : Option Timer)
      → Move (view w) (view (fire_at p alive loads now w o))
  unfolding fire_at
  fire_at-Move now w none = stay (view w)
  fire_at-Move now w (some t) = elim (Bool-cases (leb_ℤ t.due now)) [
    | inl e ↦ rw e (
        stop-Move t.match_id w (Manager.auto_stop p now t w.server).1
          (λ j. state-auto_stop p now j t w.server))
    | inr e ↦ rw e (stay (view w))
  ]

  step-Move : (w : World) (now : ℤ) (e : Event) → Move (view w) (view (step p alive loads w now e))
  unfolding step
  step-Move w now (Event.create config) = create-Move config w
  step-Move w now (Event.start id timeout) = begun-Move id timeout now w _ refl
  step-Move w now (Event.stop id) =
      stop-Move id w (Manager.stop p now none id w.server).1
        (λ j. state-stop p now j none id w.server)
  step-Move w now (Event.poll i) = poll_at-Move i now w _ refl
  step-Move w now (Event.fire i) = fire_at-Move now w _
  step-Move w now (Event.receive frames) =
      let s' = (dispatch p alive now loads frames w.server).1 in
      subst
        (λ st. Move (view w) (record { states = λ j. state_in j st; waiting = (view w).waiting }))
        (sym (store-dispatch p alive now loads frames w.server)) (stay (view w))

  -- Whatever the events, the server keeps the contract of its matches: seen from outside, a run is a sequence of
  -- its moves.
  pub run-Moves :
      (w : World) (es : List (ℤ × Event)) → Moves (view w) (view (run p alive loads w es))
  unfolding run
  run-Moves w [] = done (view w)
  run-Moves w ((now, e) ∷ es) =
      next (view w) (view (step p alive loads w now e)) _ (step-Move w now e)
        (run-Moves (step p alive loads w now e) es)
