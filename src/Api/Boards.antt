-- ===== src/Api/Boards.antt =====
-- The routes of central_server/api/leaderboard.py.
use agentic_juggling.Prelude.{ℕ, String, Bool, ◌≡◌, some, List, arith}
use agentic_juggling.Primitives.{Primitives}
use agentic_juggling.Metrics.Scoring.{Ranked}
use agentic_juggling.Broadcast.{member, broadcast}
use agentic_juggling.Broadcast.Subscribers.{broadcast-connect}
use agentic_juggling.Server.{Server}
use agentic_juggling.Api.{Body, get_leaderboard, leaderboard_ws}

-- A socket that is connected to the leaderboard of a match gets the board that `get_leaderboard`
-- returns, and the next update of the match reaches it exactly if it is alive.
leaderboard_ws_lem :
    (p : Primitives) (alive : ℕ → Bool) (match_id : String) (ws : ℕ) (s : Server)
    {board : String × List Ranked}
    → (leaderboard_ws p match_id ws s).0 ≡ some board
    → (get_leaderboard p match_id s ≡ record { status = 200; body = Body.board board })
      × (member ws (broadcast alive match_id (leaderboard_ws p match_id ws s).1.connections).0
          ≡ alive ws)
unfolding leaderboard_ws get_leaderboard
leaderboard_ws_lem p alive match_id ws s h =
    ground (arith, h, (broadcast-connect alive match_id match_id ws ws s.connections).0)
