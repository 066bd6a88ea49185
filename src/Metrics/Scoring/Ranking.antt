-- ===== src/Metrics/Scoring/Ranking.antt =====
-- The order of the leaderboard of central_server/metrics/scoring.py.
use agentic_juggling.Prelude.Int.{ℤ}
use agentic_juggling.Metrics.Scoring.{NodeScore}

abbrev pub score : NodeScore → ℤ
score ns = ns.score
