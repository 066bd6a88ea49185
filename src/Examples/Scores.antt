-- ===== src/Examples/Scores.antt =====
-- The theorems on the metrics store, the leaderboard and its subscribers, at concrete inputs.
use agentic_juggling.Prelude.{
  true, false, refl, ◌≡◌, some, none, if◌then◌else◌, [], nat_eq, ◌||◌, ◌&&◌, or_default, ◌==◌,
}
use agentic_juggling.Prelude.Int.{pos, negsuc}
use agentic_juggling.Prelude.Dict.{lookup}
use agentic_juggling.Metrics.Store.{Total, get_totals_per_node}
use agentic_juggling.Metrics.Store.Totals.{any_row, counts_for, sums_of, lookup-get_totals_per_node}
use agentic_juggling.Metrics.Scoring.{score_of}
use agentic_juggling.Broadcast.{member, connect, broadcast}
use agentic_juggling.Broadcast.Subscribers.{broadcast-connect}
use agentic_juggling.Examples.{metrics, running, alive}

lookup-get_totals_per_node_example : lookup "n1" (get_totals_per_node "m1" metrics) ≡ (
    if any_row (counts_for "m1" "n1") metrics.metrics
    then some (sums_of (counts_for "m1" "n1") metrics.metrics)
    else none)
lookup-get_totals_per_node_example = lookup-get_totals_per_node "m1" "n1" metrics

broadcast-connect_example :
    let (reached, after) = broadcast alive "m1" (connect "m1" 3 running.connections) in
    (member 3 reached
      ≡ ((nat_eq 3 3 || member 3 (or_default (lookup "m1" running.connections) [])) && alive 3))
    × (or_default (lookup "m1" after) []
        ≡ (if "m1" == "m1" then reached else or_default (lookup "m1" running.connections) []))
broadcast-connect_example = broadcast-connect alive "m1" "m1" 3 3 running.connections

-- no tokens, and 0.015 seconds idle at 0.01 each
abbrev total : Total
total = record { tokens_used = pos 0; idle_seconds = pos 150 }

-- -0.00015 as the double of Python gives it, and the other side
toward_zero : score_of false (pos 100) (pos 100) total ≡ negsuc 0
unfolding score_of
toward_zero = refl

away_from_zero : score_of true (pos 100) (pos 100) total ≡ negsuc 1
unfolding score_of
away_from_zero = refl
