-- ===== src/Node/Main/Stop.antt =====
-- What a STOP leaves of a START, `on_start` and `on_stop` of node/main.py.
use agentic_juggling.Prelude.{
  ℕ, ◌+◌, ◌<◌, String, Bool, false, not, ◌≡◌, refl, ◌∙◌, none, some, List, [], ◌∷◌, ◌++◌, arith,
  eq_refl, All, keep, nat_eq, append-nil,
}
use agentic_juggling.Prelude.Int.{ℤ}
use agentic_juggling.Prelude.Dict.{lookup, lookup-erase}
use agentic_juggling.Prelude.Outcome.{ok}
use agentic_juggling.Primitives.{Primitives}
use agentic_juggling.Crypto.{SealedEntry}
use agentic_juggling.NodeCrypto.{unwrap_match_key}
use agentic_juggling.Node.{FireTask, Node}
use agentic_juggling.Node.Scheduler
use agentic_juggling.Node.Scheduler.{fire_tasks}
use agentic_juggling.Node.Main.{of_packet, on_start, on_stop}
use agentic_juggling.Server.Wire.{StartPacket}

abbrev not_of : ℕ → FireTask → Bool
not_of id t = not (nat_eq t.owner id)

keep-fire_tasks :
    (id : ℕ) (m : String) (t0 now : ℤ) (i : ℕ) (es : List SealedEntry)
    → keep (not_of id) (fire_tasks id m t0 now i es) ≡ []
unfolding fire_tasks
keep-fire_tasks id m t0 now i [] = refl
keep-fire_tasks id m t0 now i (e ∷ es) = ground (arith, keep-fire_tasks id m t0 now (i + 1) es)

keep-append :
    (q : FireTask → Bool) (xs ys : List FireTask) → keep q (xs ++ ys) ≡ keep q xs ++ keep q ys
keep-append q [] ys = refl
keep-append q (x ∷ xs) ys = ground (arith, keep-append q xs ys)

keep_others : (id : ℕ) (ts : List FireTask) → All (λ t. t.owner < id) ts → keep (not_of id) ts ≡ ts
keep_others id [] h = refl
keep_others id (t ∷ ts) h = ground (arith, keep_others id ts h.1)

-- On a node whose tasks belong to earlier schedulers, a STOP undoes a START whose match key unwraps:
-- the tasks that it scheduled are cancelled, and only those; the match key and the state file are
-- gone, and the reporter is stopped.
pub on_stop-on_start :
    (p : Primitives) (default_agent : String) (now : ℤ) (k : StartPacket) (n : Node)
    → (unwrap_match_key p k.match_id k.encrypted_match_key n.crypto).0 ≡ ok tt
    → All (λ t. t.owner < n.next_scheduler) n.tasks
    → let n' = on_stop (on_start p default_agent now (of_packet k) n).1 in
      (n'.tasks ≡ n.tasks)
      × (lookup k.match_id n'.crypto.match_keys ≡ none)
      × (n'.state_file ≡ none)
      × (n'.reporter ≡ some false)
unfolding on_stop on_start of_packet Scheduler.start Scheduler.stop
on_stop-on_start p default_agent now k n taken fresh =
    let id = n.next_scheduler in
    let mine = fire_tasks id k.match_id k.t0 now 0 k.schedule in
    let left : keep (not_of id) (n.tasks ++ mine) ≡ n.tasks =
      keep-append (not_of id) n.tasks mine
      ∙ rw (keep-fire_tasks id k.match_id k.t0 now 0 k.schedule, keep_others id n.tasks fresh)
          (append-nil n.tasks) in
    (rw taken left, rw taken (rw lookup-erase (rw (eq_refl k.match_id) refl)), refl, rw taken refl)
