-- ===== src/Metrics/Scoring/Rounding.antt =====
-- `round(..., 4)` of a score in central_server/metrics/scoring.py.
use agentic_juggling.Prelude.{◌+◌, ◌*◌, ◌%◌, ◌≤◌, ◌<◌, ◌≡◌}
use agentic_juggling.Prelude.Int.{ℤ, pos_part, neg_part}

-- y ticks are at most half a tick from x ticks of a tick
abbrev pub Within : ℤ → ℤ → Type 0
Within x y =
    (2 * (10_000 * pos_part y + neg_part x) ≤ 2 * (10_000 * neg_part y + pos_part x) + 10_000)
    × (2 * (10_000 * neg_part y + pos_part x) ≤ 2 * (10_000 * pos_part y + neg_part x) + 10_000)

-- y ticks are less than half a tick from x ticks of a tick
abbrev pub Closer : ℤ → ℤ → Type 0
Closer x y =
    (2 * (10_000 * pos_part y + neg_part x) < 2 * (10_000 * neg_part y + pos_part x) + 10_000)
    × (2 * (10_000 * neg_part y + pos_part x) < 2 * (10_000 * pos_part y + neg_part x) + 10_000)

-- x ticks of a tick lie halfway between two ticks
abbrev pub Halfway : ℤ → Type 0
Halfway x = (pos_part x + neg_part x) % 10_000 ≡ 5_000
