-- ===== src/World/Contract.antt =====
-- What the matches of the central server look like from outside (central_server/SERVER_SPEC.md): the state of
-- each and the `start` calls that wait for nodes, and the moves that these can make.
use agentic_juggling.Prelude.{
  ℕ, String, ◌≡◌, Option, none, some, List, [], ◌∷◌, ◌++◌, ◌==◌, map, if◌then◌else◌,
}
use agentic_juggling.Match.Store.{MatchState}
use agentic_juggling.Manager.Lifecycle.{put_state}
use agentic_juggling.World.{World, get_elem?, remove_at}
use agentic_juggling.World.Lifecycle.{state_of}

abbrev pub States : Type 0
States = String → Option MatchState

pub record Matches : Type 0 where
  pub states : States
  pub waiting : List String

-- a match that is there is set to a state; all others stay
abbrev pub set : String → MatchState → States → States
set j x f k = if j == k then put_state x (f k) else f k

-- a new match
abbrev pub add : String → States → States
add j f k = if j == k then some MatchState.lobby else f k

pub data Move : Matches → Matches → Type 0 where
  -- nothing that shows
  stay : (v : Matches) → Move v v
  created :
      (j : String) (v : Matches) → v.states j ≡ none → Move v (record v { states = add j v.states })
  -- a `start` of a match in LOBBY, which then waits
  begin :
      (j : String) (v : Matches)
      → v.states j ≡ some MatchState.lobby
      → Move v
          (record { states = set j MatchState.starting v.states; waiting = v.waiting ++ j ∷ [] })
  -- the i-th that waits ends: its nodes are ready, or its time is over
  launched :
      (i : ℕ) (j : String) (v : Matches)
      → get_elem? v.waiting i ≡ some j
      → Move v
          (record { states = set j MatchState.running v.states; waiting = remove_at v.waiting i })
  timed_out :
      (i : ℕ) (j : String) (v : Matches)
      → get_elem? v.waiting i ≡ some j
      → Move v
          (record { states = set j MatchState.lobby v.states; waiting = remove_at v.waiting i })
  -- a stop, of the operator or at the end of the time
  stopped :
      (j : String) (v : Matches) → Move v (record v { states = set j MatchState.finished v.states })

-- moves, one after the other
pub data Moves : Matches → Matches → Type 0 where
  done : (v : Matches) → Moves v v
  next : (u v w : Matches) → Move u v → Moves v w → Moves u w

-- the matches of a running server
abbrev pub view : World → Matches
view w = record { states = λ j. state_of j w; waiting = map (λ q. q.match_id) w.starting }
