-- ===== src/Delivery.antt =====
-- A START packet on its way: packed by central_server/match/manager.py, unpacked by node/main.py.
pub mod Prompts
pub mod Metrics
pub mod Registration
use agentic_juggling.Prelude.{String, ◌≡◌, refl, some, [], ◌∷◌, ◌++◌, arith, eq_refl, ◌+◌, length}
use agentic_juggling.Prelude.Int.{ℤ}
use agentic_juggling.Prelude.Dict.{lookup, insert, lookup-insert}
use agentic_juggling.Prelude.Outcome.{ok}
use agentic_juggling.Primitives.{Bytes, Primitives, Lawful}
use agentic_juggling.Registry
use agentic_juggling.Crypto.{NodeSession}
use agentic_juggling.Crypto.Wrap.{Opens, encrypt_schedule-Opens, encrypt_match_key-unwrap}
use agentic_juggling.Match.Config.{NodeAssignment}
use agentic_juggling.Server.{Server}
use agentic_juggling.Server.Wire
use agentic_juggling.Server.Wire.{StartPacket}
use agentic_juggling.Server.Router.{send}
use agentic_juggling.Manager.{start_node, raw_schedule}
use agentic_juggling.Node
use agentic_juggling.Node.{Saved, Node}
use agentic_juggling.Node.Scheduler.{fire_tasks}
use agentic_juggling.Node.Main.{on_start, of_packet}

module _ (p : Primitives) (l : Lawful p) where
  pub start_node-on_start :
      (match_id default_agent ident : String) (now t0 later : ℤ) (na : NodeAssignment) (s : Server)
      (n : Node) {key : Bytes} {session : NodeSession}
      → lookup match_id s.crypto.match_keys ≡ some key
      → lookup na.node_id s.crypto.sessions ≡ some session
      → Registry.identity_for na.node_id s.registry ≡ some ident
      → n.crypto.session_key ≡ some session.session_key
      → (k : StartPacket) × ((start_node p now match_id t0 na s).0 ≡ ok tt)
        × ((start_node p now match_id t0 na s).1.sent
            ≡ s.sent ++ record { identity = ident; message = Wire.start k } ∷ [])
        × ((on_start p default_agent later (of_packet k) n).0 ≡ ok tt)
        × ((on_start p default_agent later (of_packet k) n).1.tasks
            ≡ n.tasks ++ fire_tasks n.next_scheduler match_id t0 later 0 k.schedule)
        × ((on_start p default_agent later (of_packet k) n).1.state_file
            ≡ some (record {
              match_id = match_id;
              t0 = t0;
              agentname = na.agentname;
              schedule = k.schedule;
            }))
        × Opens p match_id
            (on_start p default_agent later (of_packet k) n).1.crypto
            (raw_schedule na.schedule)
            k.schedule
  unfolding start_node send on_start of_packet Node.Scheduler.start
  start_node-on_start match_id default_agent ident now t0 later na s n {key} {session} hk hs hi hn =
      let c₁ = record s.crypto { draws = s.crypto.draws + length (raw_schedule na.schedule) } in
      let (blob, wrapped, opened) =
        encrypt_match_key-unwrap p l match_id na.node_id c₁ n.crypto hk hs hn in
      let m = record n.crypto { match_keys = insert match_id key n.crypto.match_keys } in
      let (ss, sealed, opens) =
        encrypt_schedule-Opens p l match_id (raw_schedule na.schedule) s.crypto m hk
          (rw lookup-insert (rw (eq_refl match_id) refl)) in
      (
        record {
          match_id = match_id;
          agentname = na.agentname;
          t0 = t0;
          encrypted_match_key = blob;
          schedule = ss;
        },
        rw (sealed, wrapped) refl,
        rw (sealed, wrapped) (ground (arith, hi)),
        rw opened refl,
        rw opened refl,
        rw opened refl,
        rw opened opens,
      )
