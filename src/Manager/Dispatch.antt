-- ===== src/Manager/Dispatch.antt =====
-- What `_dispatch_start` and the loop of `stop` leave alone (central_server/match/manager.py).
use agentic_juggling.Prelude.{ℕ, String, ◌≡◌, refl, ◌∙◌, List, [], ◌∷◌, arith}
use agentic_juggling.Prelude.Int.{ℤ}
use agentic_juggling.Primitives.{Primitives}
use agentic_juggling.Crypto.{generate_match_key}
use agentic_juggling.Match.Config.{NodeAssignment}
use agentic_juggling.Server.{Server}
use agentic_juggling.Server.Router.{send}
use agentic_juggling.Manager.{
  start_node, start_nodes, dispatch_start, stop_node, stop_nodes, cancel_auto_stop,
}
use agentic_juggling.Prelude.{Option}

module _ (p : Primitives) (now : ℤ) (match_id : String) where
  store-start_node :
      (t0 : ℤ) (na : NodeAssignment) (s : Server)
      → (start_node p now match_id t0 na s).1.store ≡ s.store
  unfolding start_node send
  store-start_node t0 na s = ground arith

  store-start_nodes :
      (t0 : ℤ) (nas : List NodeAssignment) (s : Server)
      → (start_nodes p now match_id t0 nas s).1.store ≡ s.store
  unfolding start_nodes
  store-start_nodes t0 [] s = refl
  store-start_nodes t0 (na ∷ nas) s = ground (
    arith,
    store-start_node t0 na s,
    store-start_nodes t0 nas s,
    store-start_nodes t0 nas (start_node p now match_id t0 na s).1,
  )

  pub store-dispatch_start :
      (t0 : ℤ) (nas : List NodeAssignment) (s : Server)
      → (dispatch_start p now match_id t0 nas s).1.store ≡ s.store
  unfolding dispatch_start
  store-dispatch_start t0 nas s = ground (
    arith,
    store-start_nodes t0 nas (record s { crypto = (generate_match_key p match_id s.crypto).1 }),
  )

  store-stop_node :
      (na : NodeAssignment) (s : Server) → (stop_node p now match_id na s).store ≡ s.store
  unfolding stop_node send
  store-stop_node na s = ground arith

  pub store-stop_nodes :
      (nas : List NodeAssignment) (s : Server) → (stop_nodes p now match_id nas s).store ≡ s.store
  unfolding stop_nodes
  store-stop_nodes [] s = refl
  store-stop_nodes (na ∷ nas) s =
      store-stop_nodes nas (stop_node p now match_id na s) ∙ store-stop_node na s

  pub store-cancel_auto_stop :
      (caller : Option ℕ) (s : Server)
      → (cancel_auto_stop p now caller match_id s).1.store ≡ s.store
  unfolding cancel_auto_stop
  store-cancel_auto_stop caller s = ground arith

  frame-stop_node :
      (na : NodeAssignment) (s : Server)
      → stop_node p now match_id na s ≡ record s {
        registry = (stop_node p now match_id na s).registry;
        sent = (stop_node p now match_id na s).sent;
      }
  unfolding stop_node send
  frame-stop_node na s = ground arith

  -- The loop of `stop` writes to the registry and to the socket, and to nothing else.
  pub frame-stop_nodes :
      (nas : List NodeAssignment) (s : Server)
      → stop_nodes p now match_id nas s ≡ record s {
        registry = (stop_nodes p now match_id nas s).registry;
        sent = (stop_nodes p now match_id nas s).sent;
      }
  unfolding stop_nodes
  frame-stop_nodes [] s = refl
  frame-stop_nodes (na ∷ nas) s =
      ground (arith, frame-stop_node na s, frame-stop_nodes nas (stop_node p now match_id na s))
