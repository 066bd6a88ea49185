-- ===== src/Api/Matches.antt =====
-- The routes of central_server/api/admin.py, one after another.
use agentic_juggling.Prelude.{
  String, true, ◌≡◌, refl, ◌∙◌, Option, none, some, arith, eq_refl, inl, inr, ◌⊎◌, Bool-cases, ap,
  sym,
}
use agentic_juggling.Prelude.Int.{ℤ}
use agentic_juggling.Prelude.Dict.{lookup-insert}
use agentic_juggling.Prelude.Outcome.{Error, Outcome, ok, err}
use agentic_juggling.Primitives.{Primitives}
use agentic_juggling.Match.Config.{parse_assignments}
use agentic_juggling.Match.Store
use agentic_juggling.Match.Store.{MatchState, MatchRecord, same_state}
use agentic_juggling.Server.{Server}
use agentic_juggling.Manager
use agentic_juggling.Manager.{stop_row}
use agentic_juggling.Manager.Lifecycle.{state_in}
use agentic_juggling.Manager.Stops.{stop_request}
use agentic_juggling.Api.{
  Body, Response, CreateMatchRequest, config_of, create_match, get_match, moved, stop_match,
}

-- A `create_match` that does not raise answers 201, and the match is found under its id: in LOBBY,
-- with the request's numbers and no start time.
create_match-get_match :
    (match_id : String) (now : ℤ) (body : CreateMatchRequest) (s : Server) {r : Response}
    → (create_match match_id now body s).0 ≡ ok r
    → (r ≡ record { status = 201; body = Body.summary match_id MatchState.lobby })
      × (get_match match_id (create_match match_id now body s).1 ≡ record {
        status = 200;
        body =
            Body.details match_id MatchState.lobby body.duration_s none body.token_weight
              body.idle_penalty;
      })
unfolding create_match get_match config_of Manager.create Manager.get Store.create Store.get
    Store.new_record
create_match-get_match match_id now body s h = ground (
  arith,
  eq_refl match_id,
  lookup-insert match_id match_id (Store.new_record (config_of match_id now body)) s.store.rows,
)

same_state-finished :
    (x : MatchState) → same_state x MatchState.finished ≡ true → x ≡ MatchState.finished
unfolding same_state
same_state-finished MatchState.lobby h = absurd (ground (arith, h))
same_state-finished MatchState.starting h = absurd (ground (arith, h))
same_state-finished MatchState.running h = absurd (ground (arith, h))
same_state-finished MatchState.finished h = refl

parsed-cases : {A : Type 0} (o : Outcome A) → ((a : A) × (o ≡ ok a)) ⊎ ((e : Error) × (o ≡ err e))
parsed-cases (ok a) = inl (a, refl)
parsed-cases (err e) = inr (e, refl)

module _ (p : Primitives) (now : ℤ) (id : String) (s : Server) where
  stop-found :
      (row : MatchRecord)
      → Store.get id s.store ≡ some row
      → Manager.stop p now none id s ≡ stop_row p now none id row s
  unfolding Manager.stop Manager.get
  stop-found row found = rw found refl

  stop_row-finished :
      (row : MatchRecord)
      → Store.get id s.store ≡ some row
      → (stop_row p now none id row s).0 ≡ ok tt
      → state_in id (stop_row p now none id row s).1.store ≡ some MatchState.finished
  unfolding stop_row
  stop_row-finished row found h = elim (Bool-cases (same_state row.state MatchState.finished)) [
    | inl e ↦ rw (e, found) (ap some (same_state-finished row.state e))
    | inr e ↦ elim (parsed-cases (parse_assignments row.config_json)) [
      | inl (nas, f) ↦
          let (_, done, _, _, _) = stop_request p now id s found e f in
          sym
            (ap (λ (t : Outcome (Unit {0}) × Server). state_in id t.1.store) (stop-found row found))
          ∙ done
      | inr (x, f) ↦ absurd (ground (arith, h, f, e))
    ]
  ]

  -- A stop of a match that is finished does nothing.
  stop_finished :
      state_in id s.store ≡ some MatchState.finished → Manager.stop p now none id s ≡ (ok tt, s)
  unfolding Manager.stop Manager.get stop_row same_state
  stop_finished h = ground (arith, h)

module _ (p : Primitives) (now : ℤ) (id : String) (s : Server) where
  stop_ok-finished :
      (o : Option MatchRecord)
      → Store.get id s.store ≡ o
      → (Manager.stop p now none id s).0 ≡ ok tt
      → state_in id (Manager.stop p now none id s).1.store ≡ some MatchState.finished
  unfolding Manager.stop Manager.get
  stop_ok-finished none found h = absurd (ground (arith, found, h))
  stop_ok-finished (some row) found h =
      rw found (stop_row-finished p now id s row found (rw found at h))

  status-moved :
      (state : MatchState) (o : Outcome (Unit {0})) → (moved id state o).status ≡ 200 → o ≡ ok tt
  unfolding moved
  status-moved state (ok tt) h = refl
  status-moved state (err e) h = absurd (ground (arith, h))

  -- A stop that answers 200 leaves the match finished, and to stop the match again with nothing in between, whatever
  -- the clock says then, is answered the same and changes nothing.
  pub stop_match-stop_match :
      (then_now : ℤ)
      → (stop_match p now id s).0.status ≡ 200
      → let s' = (stop_match p now id s).1 in
        (state_in id s'.store ≡ some MatchState.finished)
        × (stop_match p then_now id s'
            ≡ (record { status = 200; body = Body.summary id MatchState.finished }, s'))
  unfolding stop_match moved
  stop_match-stop_match then_now h =
      let fine = status-moved MatchState.finished (Manager.stop p now none id s).0 h in
      let done = stop_ok-finished (Store.get id s.store) refl fine in
      (done, rw (stop_finished p then_now id (Manager.stop p now none id s).1 done) refl)
