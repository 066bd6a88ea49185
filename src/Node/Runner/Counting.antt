-- ===== src/Node/Runner/Counting.antt =====
-- The totals and the reports of a run of node/agent_runner.py.
use mathlib.Core.List.{append_assoc}
use agentic_juggling.Prelude.{
  ℕ, ◌+◌, String, Bool, ◌≡◌, refl, ◌∙◌, sym, ap, none, List, [], ◌∷◌, ◌++◌, arith, append-nil,
  Bool-cases, ◌⊎◌, inl, inr,
}
use agentic_juggling.Prelude.Int.{ℤ, pos, ◌-ℤ◌, leb_ℤ}
use agentic_juggling.Primitives.{Bytes}
use agentic_juggling.Node.Runner.Pattern.{find_groups, match, rests}
use agentic_juggling.Node.Runner.Chunks.{Avoids, find_groups-append}
use agentic_juggling.Node.Runner.Tokens.{token_prefix, token_group, sum_groups, count_tokens}
use agentic_juggling.Node.Runner.Loop.{
  Round, Message, Runner, begin, take_output, metrics_message, push_metrics, round, rounds, run,
}

-- a character that no report of tokens contains
abbrev pub Plain : ℕ → Type 0
Plain x = Avoids token_prefix x × Avoids token_group x

sum_groups-append : (gs hs : List (List ℕ)) → sum_groups (gs ++ hs) ≡ sum_groups gs + sum_groups hs
sum_groups-append [] hs = omega arith
sum_groups-append (g ∷ gs) hs = omega (arith, sum_groups-append gs hs)

no_match : match token_prefix token_group [] ≡ none
unfolding match rests token_prefix
no_match = refl

pub count_tokens-append :
    (u v : List ℕ) (x : ℕ) → Plain x → count_tokens (u ++ x ∷ v) ≡ count_tokens u + count_tokens v
unfolding count_tokens
count_tokens-append u v x h =
    ap sum_groups
      (find_groups-append token_prefix token_group x v 0 u h.0 h.1 no_match (omega arith))
    ∙ sum_groups-append (find_groups token_prefix token_group 0 u)
        (find_groups token_prefix token_group 0 v)

-- a text that ends with a character that no report contains
abbrev pub Whole : List ℕ → Type 0
Whole t = (u : List ℕ) × (x : ℕ) × (t ≡ u ++ x ∷ []) × Plain x

-- each of the texts but the last does
abbrev pub Cuts : List (List ℕ) → Type 0
Cuts [] = Unit
Cuts (t ∷ []) = Unit
Cuts (t ∷ t' ∷ ts) = Whole t × Cuts (t' ∷ ts)

abbrev pub joined : List (List ℕ) → List ℕ
joined [] = []
joined (t ∷ ts) = t ++ joined ts

zero_plus : (n : ℕ) → 0 + n ≡ n
zero_plus n = omega arith

nothing : count_tokens [] ≡ 0
unfolding count_tokens
nothing = refl

abbrev count_all : List (List ℕ) → ℕ
count_all [] = 0
count_all (t ∷ ts) = count_tokens t + count_all ts

count_Whole : (t v : List ℕ) → Whole t → count_tokens (t ++ v) ≡ count_tokens t + count_tokens v
count_Whole t v (u, x, e, h) =
    ap (λ t. count_tokens (t ++ v)) e
    ∙ ap count_tokens (append_assoc u (x ∷ []) v)
    ∙ count_tokens-append u v x h
    ∙ ap (λ n. n + count_tokens v) (omega (arith, count_tokens-append u [] x h, nothing))
    ∙ ap (λ t. count_tokens t + count_tokens v) (sym e)

count_all-joined : (ts : List (List ℕ)) → Cuts ts → count_all ts ≡ count_tokens (joined ts)
count_all-joined [] h = sym nothing
count_all-joined (t ∷ []) h = rw (append-nil t) (omega arith)
count_all-joined (t ∷ t' ∷ ts) h =
    omega (arith, count_Whole t (joined (t' ∷ ts)) h.0, count_all-joined (t' ∷ ts) h.1)

-- The messages are reports of some of the rounds, in their order, and each says that the agent has been idle for exactly the
-- time from the end of the read of its round to the report.
abbrev pub Brisk : List Round → List Message → Type 0
Brisk [] [] = Unit
Brisk [] (m ∷ ms) = ⊥
Brisk (r ∷ rs) [] = Unit
Brisk (r ∷ rs) (m ∷ ms) =
    ((m.idle_seconds ≡ r.idle_at -ℤ r.output_at) × Brisk rs ms) ⊎ Brisk rs (m ∷ ms)

skip-Brisk : (r : Round) (rs : List Round) (ms : List Message) → Brisk rs ms → Brisk (r ∷ rs) ms
skip-Brisk r rs [] h = tt
skip-Brisk r rs (m ∷ ms) h = inr h

-- what the rounds read, as text
abbrev pub texts : (Bytes → List ℕ) → List Round → List (List ℕ)
texts decode [] = []
texts decode (r ∷ rs) = decode r.chunk ∷ texts decode rs

module _ (terminal_id : String) (decode : Bytes → List ℕ) where
  tokens_used-push_metrics :
      (now : ℤ) (listening : Bool) (s : Runner)
      → (push_metrics terminal_id now listening s).tokens_used ≡ s.tokens_used
  unfolding push_metrics
  tokens_used-push_metrics now listening s = ground arith

  tokens_used-round :
      (r : Round) (s : Runner)
      → (round terminal_id decode r s).tokens_used ≡ s.tokens_used + count_tokens (decode r.chunk)
  unfolding round take_output
  tokens_used-round r s =
      ground (arith, tokens_used-push_metrics r.idle_at r.listening (take_output decode r s))

  tokens_used-rounds :
      (rs : List Round) (s : Runner)
      → (rounds terminal_id decode rs s).tokens_used ≡ s.tokens_used + count_all (texts decode rs)
  unfolding rounds
  tokens_used-rounds [] s = omega arith
  tokens_used-rounds (r ∷ rs) s =
      omega (arith, tokens_used-round r s, tokens_used-rounds rs (round terminal_id decode r s))

  -- However the output of an agent is cut into reads, the runner has counted at the end what TOKEN_RE finds in
  -- the whole output, provided that each read but the last ends with a character that no report of tokens contains.
  pub tokens_used-run :
      (output_at push_at end_at : ℤ) (rs : List Round) (listening : Bool)
      → Cuts (texts decode rs)
      → (run terminal_id decode output_at push_at rs end_at listening).tokens_used
        ≡ count_tokens (joined (texts decode rs))
  unfolding run
  tokens_used-run output_at push_at end_at rs listening h =
      tokens_used-push_metrics end_at listening
        (rounds terminal_id decode rs (begin output_at push_at))
      ∙ tokens_used-rounds rs (begin output_at push_at)
      ∙ zero_plus (count_all (texts decode rs))
      ∙ count_all-joined (texts decode rs) h

  round_cases :
      (r : Round) (s : Runner)
      → ((round terminal_id decode r s).sent ≡ s.sent)
        ⊎ ((m : Message) × ((round terminal_id decode r s).sent ≡ s.sent ++ m ∷ [])
            × (m.idle_seconds ≡ r.idle_at -ℤ r.output_at))
  unfolding round take_output push_metrics metrics_message
  round_cases r s = elim (Bool-cases (leb_ℤ (pos 50_000) (r.checked_at -ℤ s.last_push))) [
    | inl e ↦ rw e (elim (Bool-cases r.listening) [
      | inl l ↦ rw l (inr (_, refl, refl))
      | inr l ↦ rw l (inl refl)
    ])
    | inr e ↦ rw e (inl refl)
  ]

  -- The reports that the runner sends while its agent writes do not show how long the agent was silent: those that some
  -- rounds add belong to some of the rounds, in their order, one at most to each, and each says that the agent has been
  -- idle for exactly the time that the runner took, in that round, from the end of the read to the report.
  pub rounds-Brisk :
      (rs : List Round) (s : Runner)
      → (ms : List Message) × ((rounds terminal_id decode rs s).sent ≡ s.sent ++ ms) × Brisk rs ms
  unfolding rounds
  rounds-Brisk [] s = ([], sym (append-nil s.sent), tt)
  rounds-Brisk (r ∷ rs) s =
      let (ms, e, b) = rounds-Brisk rs (round terminal_id decode r s) in
      elim (round_cases r s) [
        | inl q ↦ (ms, e ∙ ap (λ (l : List Message). l ++ ms) q, skip-Brisk r rs ms b)
        | inr (m, q, idle) ↦ (
          m ∷ ms,
          e ∙ ap (λ (l : List Message). l ++ ms) q ∙ append_assoc s.sent (m ∷ []) ms,
          inl (idle, b),
        )
      ]
