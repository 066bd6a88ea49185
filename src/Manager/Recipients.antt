-- ===== src/Manager/Recipients.antt =====
-- Who gets a START, `_dispatch_start` of central_server/match/manager.py.
use mathlib.Core.Path.{subst}
use mathlib.Core.List.{append_assoc, append-nil}
use agentic_juggling.Prelude.{
  ℕ, ◌+◌, String, ◌≡◌, refl, ◌∙◌, ap, sym, Option, none, some, List, [], ◌∷◌, ◌++◌, arith, eq_refl,
  if◌then◌else◌, Option-cases, inl, inr,
}
use agentic_juggling.Prelude.Int.{ℤ}
use agentic_juggling.Prelude.Dict.{Dict, lookup, insert, lookup-insert, lookup-modify}
use agentic_juggling.Prelude.Outcome.{ok}
use agentic_juggling.Codec.Base64.{b64e}
use agentic_juggling.Codec.Utf8.{utf8}
use agentic_juggling.Primitives.{Bytes, Primitives}
use agentic_juggling.Registry
use agentic_juggling.Registry.{NodeState, NodeRegistry, set_state}
use agentic_juggling.Crypto.{
  NodeSession, CryptoManager, PlainEntry, SealedEntry, encrypt_schedule, encrypt_prompt,
  encrypt_match_key_for_node, generate_match_key, has_session,
}
use agentic_juggling.Match.Config.{NodeAssignment}
use agentic_juggling.Server.{Server}
use agentic_juggling.Server.Wire
use agentic_juggling.Server.Wire.{StartPacket, Outbound}
use agentic_juggling.Server.Router.{send}
use agentic_juggling.Manager.{start_node, start_nodes, dispatch_start, raw_schedule}

abbrev pub add_target :
    Option String → NodeAssignment → List (String × NodeAssignment) → List (String × NodeAssignment)
add_target none na ts = ts
add_target (some ident) na ts = (ident, na) ∷ ts

-- the assignments whose nodes have a session and a record with an identity, each with this identity
abbrev pub targets : Server → List NodeAssignment → List (String × NodeAssignment)
targets s [] = []
targets s (na ∷ nas) =
    let rest = targets s nas in
    if has_session na.node_id s.crypto
    then add_target (Registry.identity_for na.node_id s.registry) na rest
    else rest

abbrev pub delays : List SealedEntry → List ℤ
delays [] = []
delays (e ∷ es) = e.delay ∷ delays es

abbrev pub planned : List PlainEntry → List ℤ
planned [] = []
planned (e ∷ es) = e.delay ∷ planned es

-- a START of the match for the assignment, to the identity, with the time of the match, the agent and the delays
abbrev pub IsStart : String → ℤ → String × NodeAssignment → Outbound → Type 0
IsStart m t0 (ident, na) o =
    (k : StartPacket) × (o ≡ record { identity = ident; message = Wire.start k })
    × (k.match_id ≡ m)
    × (k.t0 ≡ t0)
    × (k.agentname ≡ na.agentname)
    × (delays k.schedule ≡ planned (raw_schedule na.schedule))

-- one for each, in this order
abbrev pub Starts : String → ℤ → List (String × NodeAssignment) → List Outbound → Type 0
Starts m t0 [] [] = Unit
Starts m t0 [] (o ∷ os) = ⊥
Starts m t0 (t ∷ ts) [] = ⊥
Starts m t0 (t ∷ ts) (o ∷ os) = IsStart m t0 t o × Starts m t0 ts os

module _ (p : Primitives) (m : String) where
  encrypt_schedule_ok :
      (es : List PlainEntry) (c : CryptoManager) {key : Bytes}
      → lookup m c.match_keys ≡ some key
      → (ss : List SealedEntry) × (n : ℕ) × (encrypt_schedule p m es c
          ≡ (ok ss, record c { draws = n }))
        × (delays ss ≡ planned es)
  unfolding encrypt_schedule encrypt_prompt
  encrypt_schedule_ok [] c h = ([], c.draws, refl, refl)
  encrypt_schedule_ok (e ∷ es) c {key} h =
      let nonce = p.urandom 12 c.draws in
      let blob = b64e (nonce ++ p.encrypt key nonce (utf8 e.prompt) (some (utf8 m))) in
      let (ss, n, rest, same) = encrypt_schedule_ok es (record c { draws = c.draws + 1 }) h in
      (
        record { delay = e.delay; encrypted_prompt = blob } ∷ ss,
        n,
        rw (h, rest) refl,
        ap (λ (l : List ℤ). e.delay ∷ l) same,
      )

  encrypt_match_key_ok :
      (id : String) (c : CryptoManager) {key : Bytes} {x : NodeSession}
      → lookup m c.match_keys ≡ some key
      → lookup id c.sessions ≡ some x
      → (blob : String) × (encrypt_match_key_for_node p m id c
          ≡ (ok blob, record c { draws = c.draws + 1 }))
  unfolding encrypt_match_key_for_node
  encrypt_match_key_ok id c {key} {x} h k =
      let nonce = p.urandom 12 c.draws in
      (b64e (nonce ++ p.encrypt x.session_key nonce key none), rw (h, k) refl)

-- the server when a START has been tried
abbrev sent_to : ℤ → NodeAssignment → ℕ → StartPacket → Option String → Server → Server
sent_to now na n k none s = record s { crypto = record s.crypto { draws = n } }
sent_to now na n k (some ident) s = record s {
  crypto = record s.crypto { draws = n };
  sent = s.sent ++ record { identity = ident; message = Wire.start k } ∷ [];
  registry = Registry.update_state na.node_id NodeState.running now s.registry;
}

abbrev sent_for : Option String → StartPacket → List Outbound
sent_for none k = []
sent_for (some ident) k = record { identity = ident; message = Wire.start k } ∷ []

module _ (p : Primitives) (now : ℤ) (m : String) (t0 : ℤ) where
  start_node_ok :
      (na : NodeAssignment) (s : Server) {key : Bytes} {x : NodeSession}
      → lookup m s.crypto.match_keys ≡ some key
      → lookup na.node_id s.crypto.sessions ≡ some x
      → (n : ℕ) × (k : StartPacket) × (start_node p now m t0 na s
          ≡ (ok tt, sent_to now na n k (Registry.identity_for na.node_id s.registry) s))
        × ((ident : String)
            → IsStart m t0 (ident, na) (record { identity = ident; message = Wire.start k }))
  unfolding start_node send
  start_node_ok na s h k =
      let (ss, n, sealed, same) = encrypt_schedule_ok p m (raw_schedule na.schedule) s.crypto h in
      let (blob, wrapped) =
        encrypt_match_key_ok p m na.node_id (record s.crypto { draws = n }) h k in
      let packet : StartPacket = record {
        match_id = m;
        agentname = na.agentname;
        t0 = t0;
        encrypted_match_key = blob;
        schedule = ss;
      } in
      (
        n + 1,
        packet,
        rw (sealed, wrapped) (ground arith),
        λ ident. (packet, refl, refl, refl, refl, same),
      )

identity_for-update_state :
    (k j : String) (x : NodeState) (now : ℤ) (r : NodeRegistry)
    → Registry.identity_for j (Registry.update_state k x now r) ≡ Registry.identity_for j r
unfolding Registry.identity_for Registry.update_state
identity_for-update_state k j x now r = ground (arith, lookup-modify k j (set_state x now) r.nodes)

targets-sent_to :
    (now : ℤ) (na : NodeAssignment) (n : ℕ) (k : StartPacket) (o : Option String) (s : Server)
    (nas : List NodeAssignment)
    → targets (sent_to now na n k o s) nas ≡ targets s nas
unfolding has_session
targets-sent_to now na n k o s [] = refl
targets-sent_to now na n k none s (b ∷ nas) = ground (arith, targets-sent_to now na n k none s nas)
targets-sent_to now na n k (some ident) s (b ∷ nas) = ground (
  arith,
  identity_for-update_state na.node_id b.node_id NodeState.running now s.registry,
  targets-sent_to now na n k (some ident) s nas,
)

targets-keyed :
    (keys : Dict Bytes) (n : ℕ) (s : Server) (nas : List NodeAssignment)
    → targets (record s { crypto = record s.crypto { match_keys = keys; draws = n } }) nas
      ≡ targets s nas
unfolding has_session
targets-keyed keys n s [] = refl
targets-keyed keys n s (b ∷ nas) = ground (arith, targets-keyed keys n s nas)

keys-sent_to :
    (now : ℤ) (na : NodeAssignment) (n : ℕ) (k : StartPacket) (o : Option String) (s : Server)
    → (sent_to now na n k o s).crypto.match_keys ≡ s.crypto.match_keys
keys-sent_to now na n k none s = refl
keys-sent_to now na n k (some ident) s = refl

sent-sent_to :
    (now : ℤ) (na : NodeAssignment) (n : ℕ) (k : StartPacket) (o : Option String) (s : Server)
    → (sent_to now na n k o s).sent ≡ s.sent ++ sent_for o k
sent-sent_to now na n k none s = sym (append-nil s.sent)
sent-sent_to now na n k (some ident) s = refl

Starts-add_target :
    (m : String) (t0 : ℤ) (na : NodeAssignment) (k : StartPacket) (o : Option String)
    (ts : List (String × NodeAssignment)) (os : List Outbound)
    → ((ident : String)
        → IsStart m t0 (ident, na) (record { identity = ident; message = Wire.start k }))
    → Starts m t0 ts os
    → Starts m t0 (add_target o na ts) (sent_for o k ++ os)
Starts-add_target m t0 na k none ts os h r = r
Starts-add_target m t0 na k (some ident) ts os h r = (h ident, r)

module _ (p : Primitives) (now : ℤ) (m : String) (t0 : ℤ) where
  start_nodes_lem :
      (nas : List NodeAssignment) (s : Server) {key : Bytes}
      → lookup m s.crypto.match_keys ≡ some key
      → let (r, s') = start_nodes p now m t0 nas s in
        (r ≡ ok tt)
        × (os : List Outbound) × (s'.sent ≡ s.sent ++ os)
        × Starts m t0 (targets s nas) os
  unfolding start_nodes has_session
  start_nodes_lem [] s h = (refl, [], sym (append-nil s.sent), tt)
  start_nodes_lem (na ∷ nas) s h = elim (Option-cases (lookup na.node_id s.crypto.sessions)) [
    | inl e ↦ rw e (start_nodes_lem nas s h)
    | inr (x, e) ↦
        let (n, k, done, is_start) = start_node_ok p now m t0 na s h e in
        let o = Registry.identity_for na.node_id s.registry in
        let after = sent_to now na n k o s in
        let (fine, os, went, all) =
          start_nodes_lem nas after (ap (lookup m) (keys-sent_to now na n k o s) ∙ h) in
        rw (e, done)
          (
            fine,
            sent_for o k ++ os,
            went
                ∙ ap (λ (l : List Outbound). l ++ os) (sent-sent_to now na n k o s)
                ∙ append_assoc s.sent (sent_for o k) os,
            Starts-add_target m t0 na k o (targets s nas) os is_start
                (subst (λ ts. Starts m t0 ts os) (targets-sent_to now na n k o s nas) all),
          )
  ]

  -- The dispatch of a match that has no key yet raises nothing, and sends one START of this match for each assignment whose
  -- node has a session and an identity, to this identity and in the order of the assignments, with the time of
  -- the match and the agent and delays of the assignment; and it sends nothing else.
  pub dispatch_start_lem :
      (nas : List NodeAssignment) (s : Server)
      → lookup m s.crypto.match_keys ≡ none
      → let (r, s') = dispatch_start p now m t0 nas s in
        (r ≡ ok tt)
        × (os : List Outbound) × (s'.sent ≡ s.sent ++ os)
        × Starts m t0 (targets s nas) os
  unfolding dispatch_start generate_match_key
  dispatch_start_lem nas s h =
      let key = p.urandom 32 s.crypto.draws in
      let keys = insert m key s.crypto.match_keys in
      let n = s.crypto.draws + 1 in
      let there : lookup m keys ≡ some key =
        rw (lookup-insert m m key s.crypto.match_keys, eq_refl m) refl in
      let (fine, os, went, all) =
        start_nodes_lem nas (record s { crypto = record s.crypto { match_keys = keys; draws = n } })
          there in
      rw h (fine, os, went, subst (λ ts. Starts m t0 ts os) (targets-keyed keys n s nas) all)
