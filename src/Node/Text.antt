-- ===== src/Node/Text.antt =====
-- Decimal numbers in texts, as `f"{i}"` writes them.
pub mod Distinct
use Prim.Native.String
use agentic_juggling.Prelude.{ℕ, zero, suc, ◌+◌, ◌/◌, ◌%◌, String, if◌then◌else◌, nat_eq, ltb}

digit : ℕ → String
digit d =
    if nat_eq d 0
    then "0"
    else if nat_eq d 1
    then "1"
    else if nat_eq d 2
    then "2"
    else if nat_eq d 3
    then "3"
    else if nat_eq d 4
    then "4"
    else if nat_eq d 5
    then "5"
    else if nat_eq d 6
    then "6"
    else if nat_eq d 7
    then "7"
    else if nat_eq d 8
    then "8"
    else "9"

-- n has at most n + 1 digits
decimal_from : ℕ → ℕ → String
decimal_from zero n = ""
decimal_from (suc fuel) n =
    let front = String.◌++◌ (decimal_from fuel (n / 10)) (digit (n % 10)) in
    if ltb n 10 then digit n else front

unfoldable pub decimal : ℕ → String
unfolding decimal_from digit
decimal n = decimal_from (n + 1) n
