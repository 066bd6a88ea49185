-- ===== src/Broadcast.antt =====
-- central_server/api/broadcast.py: the WebSocket subscribers of each match. A socket is a number; a
-- set of sockets is the list of its members. What sending does is the argument `alive`: a send to
-- a socket that is not alive raises.
pub mod Subscribers
use agentic_juggling.Prelude.{
  ℕ, String, Bool, true, false, not, ◌||◌, Option, none, some, List, [], ◌∷◌, ◌++◌, nat_eq, keep,
  or_default, if◌then◌else◌,
}
use agentic_juggling.Prelude.Dict.{Dict, lookup, insert, modify}

abbrev pub Connections : Type 0
Connections = Dict (List ℕ)

abbrev pub member : ℕ → List ℕ → Bool
member w [] = false
member w (v ∷ vs) = nat_eq v w || member w vs

-- `set.add`, `set.discard`
abbrev pub add : ℕ → List ℕ → List ℕ
add w ws = if member w ws then ws else ws ++ w ∷ []

abbrev pub discard : ℕ → List ℕ → List ℕ
discard w ws = keep (λ v. not (nat_eq v w)) ws

-- `setdefault(match_id, set()).add(ws)`
unfoldable pub connect : String → ℕ → Connections → Connections
connect match_id ws c = insert match_id (add ws (or_default (lookup match_id c) [])) c

unfoldable pub disconnect : String → ℕ → Connections → Connections
disconnect match_id ws c = modify match_id (discard ws) c

abbrev pub discard_all : List ℕ → List ℕ → List ℕ
discard_all [] ws = ws
discard_all (d ∷ ds) ws = discard_all ds (discard d ws)

-- The sockets that got the data, and the subscribers without those whose send raised.
unfoldable pub broadcast : (ℕ → Bool) → String → Connections → List ℕ × Connections
broadcast alive match_id c =
    let ws = or_default (lookup match_id c) [] in
    let dead = keep (λ w. not (alive w)) ws in (keep alive ws, modify match_id (discard_all dead) c)
