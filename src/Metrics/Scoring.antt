-- ===== src/Metrics/Scoring.antt =====
-- central_server/metrics/scoring.py: the scores of a match and the leaderboard.
pub mod Ranking
pub mod Rounding
use agentic_juggling.Prelude.{ℕ, suc, ◌+◌, ◌*◌, String, Bool, List, [], ◌∷◌, if◌then◌else◌}
use agentic_juggling.Prelude.Int.{ℤ, pos, negsuc, ◌*ℤ◌, ◌-ℤ◌, ltb_ℤ, unit, div_nearest, sub_ℕ}
use agentic_juggling.Prelude.Dict.{Dict}
use agentic_juggling.Sorting.{falling, sort_by}
use agentic_juggling.Metrics.Store.{MetricsStore, Total, get_totals_per_node}

pub record NodeScore : Type 0 where
  pub node_id : String
  pub tokens_used : ℤ
  pub idle_seconds : ℤ
  pub score : ℤ

pub record Leaderboard : Type 0 where
  pub match_id : String
  pub rankings : List NodeScore

-- Whether the double of a node's score is away from zero beyond the middle, where the decimal number lies halfway between two
-- ticks: it depends on the weights and on the rows in the store, of the match and the node.
abbrev pub Ties : Type 0
Ties = String → ℤ → ℤ → MetricsStore → String → Bool

-- `round(x, 4)` of an `x` that is given in ticks of a tick
unfoldable pub round_ticks : Bool → ℤ → ℤ
unfolding div_nearest
round_ticks away (pos n) = pos (div_nearest away n)
round_ticks away (negsuc n) = sub_ℕ 0 (div_nearest away (suc n))

-- tokens are whole, weights and idle times are ticks
unfoldable pub score_of : Bool → ℤ → ℤ → Total → ℤ
unfolding round_ticks ◌*ℤ◌ ◌-ℤ◌
score_of away token_weight idle_penalty t =
    round_ticks away (t.tokens_used *ℤ pos unit *ℤ token_weight -ℤ t.idle_seconds *ℤ idle_penalty)

unfoldable pub node_scores : (String → Bool) → ℤ → ℤ → Dict Total → List NodeScore
node_scores away w i [] = []
node_scores away w i ((id, t) ∷ rest) =
    record {
      node_id = id;
      tokens_used = t.tokens_used;
      idle_seconds = t.idle_seconds;
      score = score_of (away id) w i t;
    }
    ∷ node_scores away w i rest

-- `sorted(scores, key=lambda ns: ns.score, reverse=True)`
unfoldable pub ranked_scores : List NodeScore → List NodeScore
unfolding sort_by
ranked_scores = sort_by falling (λ ns. ns.score)

unfoldable pub compute : Ties → String → ℤ → ℤ → MetricsStore → Leaderboard
unfolding node_scores ranked_scores score_of get_totals_per_node
compute ties match_id token_weight idle_penalty s = record {
  match_id = match_id;
  rankings = ranked_scores (
      node_scores (ties match_id token_weight idle_penalty s) token_weight idle_penalty
        (get_totals_per_node match_id s));
}

pub record Ranked : Type 0 where
  pub rank : ℕ
  pub node_id : String
  pub score : ℤ
  pub tokens_used : ℤ
  pub idle_seconds : ℤ

unfoldable pub ranked_from : ℕ → List NodeScore → List Ranked
ranked_from i [] = []
ranked_from i (ns ∷ rest) =
    record {
      rank = i + 1;
      node_id = ns.node_id;
      score = ns.score;
      tokens_used = ns.tokens_used;
      idle_seconds = ns.idle_seconds;
    }
    ∷ ranked_from (i + 1) rest

-- the "rankings" of `serialize`, beside the board's "match_id"
unfoldable pub serialize : Leaderboard → String × List Ranked
unfolding ranked_from
serialize board = (board.match_id, ranked_from 0 board.rankings)
