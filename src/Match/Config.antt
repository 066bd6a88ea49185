-- ===== src/Match/Config.antt =====
-- The configuration part of central_server/match/store.py: its dataclasses, the JSON document that
-- `create` writes and `parse_assignments`, which reads it back.
pub mod Text
use agentic_juggling.Prelude.{
  ℕ, String, ◌≡◌, refl, List, [], ◌∷◌, ◌&&◌, if◌then◌else◌, elem, all_of,
}
use agentic_juggling.Prelude.Int.{ℤ}
use agentic_juggling.Prelude.Outcome.{Error, Outcome, ok, err}
use agentic_juggling.Json.{
  Json, Items, num, str, arr, obj, nil, cons, end, field, at_key, keys, as_str, as_num, as_obj,
  as_arr,
}

pub record PromptEntry : Type 0 where
  pub delay : ℤ
  pub prompt : String

pub record NodeAssignment : Type 0 where
  pub node_id : String
  pub agentname : String
  pub schedule : List PromptEntry

pub record MatchConfig : Type 0 where
  pub duration_s : ℤ
  pub nodes : List NodeAssignment
  pub token_weight : ℤ
  pub idle_penalty : ℤ
  pub match_id : String
  pub version : ℕ
  pub created_at : ℤ

infixl 5 ◌>>=◌
abbrev pub ◌>>=◌ : {A B : Type 0} → Outcome A → (A → Outcome B) → Outcome B
ok a >>= f = f a
err e >>= f = err e

dump_schedule : List PromptEntry → Items
dump_schedule [] = nil
dump_schedule (p ∷ ps) =
    cons (obj (field "delay" (num p.delay) (field "prompt" (str p.prompt) end))) (dump_schedule ps)

dump_nodes : List NodeAssignment → Items
dump_nodes [] = nil
dump_nodes (na ∷ nas) =
    cons
      (obj (
        field "node_id" (str na.node_id) (
          field "agentname" (str na.agentname)
            (field "schedule" (arr (dump_schedule na.schedule)) end))))
      (dump_nodes nas)

-- the argument of `json.dumps` in `create`
unfoldable pub dump_config : List NodeAssignment → Json
unfolding dump_nodes dump_schedule
dump_config nodes = arr (dump_nodes nodes)

-- `PromptEntry(**p)`: a key that is missing or not a field is a TypeError
parse_prompt : Json → Outcome PromptEntry
parse_prompt j = do
  o ← as_obj j
  if all_of (λ k. elem k ("delay" ∷ "prompt" ∷ [])) (keys o)
        && all_of (λ k. elem k (keys o)) ("delay" ∷ "prompt" ∷ [])
      then (do
        delay ← as_num (← at_key "delay" o)
        prompt ← as_str (← at_key "prompt" o)
        ok (record { delay = delay; prompt = prompt }))
      else err Error.type_error

parse_schedule : Items → Outcome (List PromptEntry)
parse_schedule nil = ok []
parse_schedule (cons j rest) =
    let others = parse_schedule rest in do p ← parse_prompt j; ps ← others; ok (p ∷ ps)

parse_assignment : Json → Outcome NodeAssignment
parse_assignment j = do
  o ← as_obj j
  node_id ← as_str (← at_key "node_id" o)
  agentname ← as_str (← at_key "agentname" o)
  schedule ← parse_schedule (← as_arr (← at_key "schedule" o))
  ok (record { node_id = node_id; agentname = agentname; schedule = schedule })

parse_nodes : Items → Outcome (List NodeAssignment)
parse_nodes nil = ok []
parse_nodes (cons j rest) =
    let others = parse_nodes rest in do na ← parse_assignment j; nas ← others; ok (na ∷ nas)

unfoldable pub parse_assignments : Json → Outcome (List NodeAssignment)
unfolding parse_nodes parse_assignment parse_schedule parse_prompt at_key
parse_assignments j = do items ← as_arr j; parse_nodes items

parse-dump_schedule : (ps : List PromptEntry) → parse_schedule (dump_schedule ps) ≡ ok ps
unfolding parse_schedule dump_schedule parse_prompt at_key
parse-dump_schedule [] = refl
parse-dump_schedule (p ∷ ps) = rw (parse-dump_schedule ps) refl

parse-dump_nodes : (nas : List NodeAssignment) → parse_nodes (dump_nodes nas) ≡ ok nas
unfolding parse_nodes dump_nodes parse_assignment at_key
parse-dump_nodes [] = refl
parse-dump_nodes (na ∷ nas) = rw (parse-dump_schedule na.schedule, parse-dump_nodes nas) refl

-- What `create` writes is read back as the same assignments, so a stored match can be replayed.
pub parse_assignments-dump_config :
    (nodes : List NodeAssignment) → parse_assignments (dump_config nodes) ≡ ok nodes
unfolding parse_assignments dump_config
parse_assignments-dump_config nodes = parse-dump_nodes nodes
