-- ===== src/Delivery/Prompts.antt =====
-- From the operator's schedule to the windows of a node (central_server/match/manager.py, node/main.py,
-- node/scheduler.py).
use agentic_juggling.Prelude.{
  ℕ, zero, suc, String, true, ◌≡◌, refl, ◌∙◌, ap, some, List, [], ◌∷◌, ◌++◌, arith, All, inl,
}
use agentic_juggling.Prelude.Int.{ℤ, leb_ℤ, ◌+ℤ◌, max_ℤ}
use agentic_juggling.Prelude.Dict.{lookup}
use agentic_juggling.Prelude.Outcome.{Outcome, ok, err}
use agentic_juggling.Primitives.{Bytes, Primitives, Lawful}
use agentic_juggling.Registry
use agentic_juggling.Crypto.{NodeSession, PlainEntry, SealedEntry}
use agentic_juggling.Crypto.Wrap.{Opens}
use agentic_juggling.NodeCrypto.{NodeCrypto, decrypt_prompt, unwrap_match_key}
use agentic_juggling.Match.Config.{NodeAssignment}
use agentic_juggling.Server.{Server}
use agentic_juggling.Server.Wire
use agentic_juggling.Server.Wire.{StartPacket}
use agentic_juggling.Manager.{start_node, raw_schedule}
use agentic_juggling.World.{get_elem?}
use agentic_juggling.Node.{Saved, FireTask, MatchScheduler, Node}
use agentic_juggling.Node.Scheduler
use agentic_juggling.Node.Scheduler.{terminal_id, due_at, fire_tasks}
use agentic_juggling.Node.Main.{on_start, of_packet}
use agentic_juggling.Codec.Utf8.{text}
use agentic_juggling.Server.Wire.Text.{frame, msg_type}
use agentic_juggling.Node.Main.Packet.{loads_packet, loads_packet-frame}
use agentic_juggling.Node.Connection.{dispatch}
use agentic_juggling.Node.Run.{NodeEvent, run}
use agentic_juggling.Node.Run.Fate.{Waits, Fate, Idle, Spawns, Runs}
use agentic_juggling.Node.Run.Fires.{run-Kept}
use agentic_juggling.Node.Run.Scheduled.{task_of, Waits-append}
use agentic_juggling.Node.Scheduler.Timing.{due_at_lem}
use agentic_juggling.Delivery.{start_node-on_start}

module _ (p : Primitives) where
  Opens-get_elem? :
      (m : String) (c : NodeCrypto) (i : ℕ) (es : List PlainEntry) (ss : List SealedEntry)
      {e : PlainEntry}
      → Opens p m c es ss
      → get_elem? es i ≡ some e
      → (s : SealedEntry) × (get_elem? ss i ≡ some s)
        × (s.delay ≡ e.delay)
        × ((decrypt_prompt p m s.encrypted_prompt c).0 ≡ ok e.prompt)
  Opens-get_elem? m c i [] ss o h = absurd (cc)
  Opens-get_elem? m c i (x ∷ es) [] o h = elim o [ ]
  Opens-get_elem? m c zero (x ∷ es) (s ∷ ss) {e} o h =
      let q : x ≡ e = cc in
      (
        s,
        refl,
        o.0 ∙ ap (λ (y : PlainEntry). y.delay) q,
        o.1 ∙ ap (λ (y : PlainEntry). ok y.prompt) q,
      )
  Opens-get_elem? m c (suc i) (x ∷ es) (s ∷ ss) o h = Opens-get_elem? m c i es ss o.2 h

  -- the scheduler is that of the match that was saved
  on_start-Runs :
      (agent : String) (now : ℤ) (k : StartPacket) (n : Node) (v : Saved)
      → (on_start p agent now (of_packet k) n).0 ≡ ok tt
      → (on_start p agent now (of_packet k) n).1.state_file ≡ some v
      → Runs n.next_scheduler v.agentname v.match_id
          (on_start p agent now (of_packet k) n).1.scheduler
  unfolding on_start of_packet Scheduler.start
  on_start-Runs agent now k n v h w =
      go (unwrap_match_key p k.match_id k.encrypted_match_key n.crypto).0 refl
    where
      saved : Saved
      saved = record {
        match_id = k.match_id;
        t0 = k.t0;
        agentname = k.agentname;
        schedule = k.schedule;
      }

      same : some saved ≡ some v → saved ≡ v
      same q = cc

      go :
          (r : Outcome (Unit {0}))
          → (unwrap_match_key p k.match_id k.encrypted_match_key n.crypto).0 ≡ r
          → Runs n.next_scheduler v.agentname v.match_id
              (on_start p agent now (of_packet k) n).1.scheduler
      go (ok u) e =
          let q = same (rw e at w) in
          rw e (refl, ap (λ (x : Saved). x.agentname) q, ap (λ (x : Saved). some x.match_id) q)
      go (err x) e = absurd (ground (arith, e, h))

module _ (p : Primitives) (l : Lawful p) (default_agent : String) where
  dispatch-on_start :
      (later : ℤ) (raw : String) (k : StartPacket) (n : Node)
      → loads_packet raw ≡ some (of_packet k)
      → dispatch p default_agent loads_packet later (msg_type (Wire.start k) ∷ raw ∷ []) n
        ≡ on_start p default_agent later (of_packet k) n
  unfolding dispatch msg_type
  dispatch-on_start later raw k n h = rw (h, dispatch) refl

  -- From the operator's schedule to the node's windows. A match has a key, and a node without tasks has an identity
  -- and shares its session key with the server. Then the node is sent one START, whose frame is a text; it takes the
  -- packet from this text, and whatever happens up to some time but another START or a STOP (tasks go on in any
  -- order, windows report, other messages come), as long as each window that is to open in that time can be opened,
  -- each entry of the schedule then has its one task that still waits, due at the start of the match plus its delay,
  -- or that time has come, no task waits for its terminal any more, and a window of the assigned agent is open there
  -- with the very prompt that the operator wrote.
  pub start_node-run :
      (match_id ident : String) (now t0 later until : ℤ) (na : NodeAssignment) (s : Server)
      (n : Node) (retired : List MatchScheduler) (es : List (ℤ × NodeEvent)) (i : ℕ) {key : Bytes}
      {session : NodeSession} {entry : PlainEntry}
      → lookup match_id s.crypto.match_keys ≡ some key
      → lookup na.node_id s.crypto.sessions ≡ some session
      → Registry.identity_for na.node_id s.registry ≡ some ident
      → n.crypto.session_key ≡ some session.session_key
      → n.tasks ≡ []
      → All (λ e. (leb_ℤ e.0 until ≡ true) × Idle e.1 × Spawns e.1) es
      → get_elem? (raw_schedule na.schedule) i ≡ some entry
      → (k : StartPacket) × (raw : String) × ((start_node p now match_id t0 na s).1.sent
          ≡ s.sent ++ record { identity = ident; message = Wire.start k } ∷ [])
        × (text (frame (Wire.start k)) ≡ some raw)
        × (let (r, n') =
              dispatch p default_agent loads_packet later (msg_type (Wire.start k) ∷ raw ∷ []) n in
            (r ≡ ok tt)
            × ((t : FireTask) × (t.terminal_id ≡ terminal_id match_id i)
                × (t.due ≡ max_ℤ later (t0 +ℤ entry.delay))
                × Fate na.agentname entry.prompt until t
                    (run p default_agent loads_packet es
                      (record { node = n'; retired = retired })).node))
  start_node-run match_id ident now t0 later until na s n retired es i {key} {session} {entry} hk hs
        hi hn ht he hg =
      let (k, started, sent, taken, tasks, saved, opens) =
        start_node-on_start p l match_id default_agent ident now t0 later na s n hk hs hi hn in
      let (raw, framed, loaded) = loads_packet-frame k in
      let n' = (on_start p default_agent later (of_packet k) n).1 in
      let (x, at, delay, opened) =
        Opens-get_elem? p match_id n'.crypto i (raw_schedule na.schedule) k.schedule opens hg in
      let waits : Waits (task_of n.next_scheduler match_id t0 later i x) n'.tasks =
        Waits-append n.next_scheduler match_id t0 later i k.schedule n.tasks n'.tasks ht tasks at in
      let t = task_of n.next_scheduler match_id t0 later i x in
      (
        k,
        raw,
        sent,
        framed,
        rw (dispatch-on_start later raw k n loaded) (
          taken,
          (
            t,
            refl,
            ap (due_at later t0) delay ∙ due_at_lem later t0 entry.delay,
            (run-Kept p n.next_scheduler na.agentname match_id entry.prompt until t n'.crypto refl
                opened default_agent loads_packet es (record { node = n'; retired = retired }) he
                (on_start-Runs p default_agent later k n _ taken saved, refl, inl waits)).2,
          ),
        ),
      )
