-- ===== src/Node/Runner/Tokens.antt =====
-- node/agent_runner.py: TOKEN_RE and the count of the tokens that a piece of the agent's output reports.
use agentic_juggling.Prelude.{ℕ, ◌+◌, ◌*◌, Bool, ◌||◌, List, [], ◌∷◌, nat_eq, is_some, or_default}
use agentic_juggling.Prelude.Unicode.{digit_value, is_space, member}
use agentic_juggling.Node.Runner.Pattern.{Re, find_groups}

-- a letter under IGNORECASE: the two cases, and what else Python takes for it
letter : ℕ → ℕ → List ℕ → Re
letter lower upper others = Re.class (λ c. member c (lower ∷ upper ∷ others))

abbrev pub is_gap : ℕ → Bool
is_gap c = is_space c || nat_eq c 58

abbrev pub is_digit : ℕ → Bool
is_digit c = is_some (digit_value c)

-- `token`, with an `s` or without
tokens : Re
unfolding letter
tokens = Re.seq (letter 116 84 []) (
    Re.seq (letter 111 79 []) (
      Re.seq (letter 107 75 (8490 ∷ [])) (
        Re.seq (letter 101 69 [])
          (Re.seq (letter 110 78 []) (Re.maybe (letter 115 83 (383 ∷ [])))))))

input : Re
unfolding letter
input = Re.seq (letter 105 73 (304 ∷ 305 ∷ [])) (
    Re.seq (letter 110 78 [])
      (Re.seq (letter 112 80 []) (Re.seq (letter 117 85 []) (letter 116 84 []))))

-- `(?:tokens?[\s:]+|input[\s:]+)` and `(\d+)`
unfoldable pub token_prefix : Re
unfolding tokens input
token_prefix = Re.alt (Re.seq tokens (Re.many is_gap)) (Re.seq input (Re.many is_gap))

unfoldable pub token_group : Re
unfolding digit_value
token_group = Re.many is_digit

-- `int(m.group(1))`: a match has decimal digits only, and at most 4096 of them
unfoldable pub number : ℕ → List ℕ → ℕ
number acc [] = acc
number acc (c ∷ cs) = number (10 * acc + or_default (digit_value c) 0) cs

abbrev pub sum_groups : List (List ℕ) → ℕ
sum_groups [] = 0
sum_groups (g ∷ gs) = number 0 g + sum_groups gs

-- `for m in TOKEN_RE.finditer(text): tokens_used += int(m.group(1))`
unfoldable pub count_tokens : List ℕ → ℕ
unfolding find_groups token_prefix token_group number
count_tokens text = sum_groups (find_groups token_prefix token_group 0 text)
