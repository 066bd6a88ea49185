-- ===== src/Examples/Traffic.antt =====
-- The theorems on the router's handlers, at concrete inputs.
use agentic_juggling.Codec.Base64.{b64d, b64e}
use agentic_juggling.Prelude.{
  ◌&&◌, or_default, String, true, false, ◌≡◌, ◌≢◌, refl, some, none, [], ◌∷◌, ◌++◌, arith, eq_iff,
  ◌==◌, if◌then◌else◌, is_some,
}
use agentic_juggling.Prelude.Int.{pos, ◌-ℤ◌, ◌+ℤ◌}
use agentic_juggling.Prelude.Dict.{lookup}
use agentic_juggling.Prelude.Outcome.{Error, ok, err}
use agentic_juggling.Primitives.Toy.{toy}
use agentic_juggling.Registry
use agentic_juggling.Registry.{NodeState}
use agentic_juggling.Crypto.{establish_session, has_session}
use agentic_juggling.NodeCrypto.{new_node_crypto, pubkey_b64}
use agentic_juggling.Match.Store
use agentic_juggling.Match.Store.{MatchState}
use agentic_juggling.Metrics.Store.{get_totals_per_node, zero_total}
use agentic_juggling.Metrics.Scoring.{compute, serialize}
use agentic_juggling.Broadcast.{broadcast}
use agentic_juggling.Server.{Server}
use agentic_juggling.Server.Wire.{Payload, empty, register_ok}
use agentic_juggling.Server.Router.{handle_register, handle_metrics, was_running, started}
use agentic_juggling.Server.Router.Register.{
  node_state, handle_register_accepted, handle_register_bad_key,
}
use agentic_juggling.Server.Router.Ingest.{handle_metrics_stored}
use agentic_juggling.Codec.Utf8.{text}
use agentic_juggling.Primitives.{Bytes}
use agentic_juggling.Primitives.Toy.{toy-Lawful}
use agentic_juggling.Server.Wire.{Message}
use agentic_juggling.Server.Wire.Text.{frame, msg_type}
use agentic_juggling.Server.Wire.Request.{loads_payload}
use agentic_juggling.Server.Router
use agentic_juggling.Node.{Node}
use agentic_juggling.Node.Connection.{Reply, Registered, connect_and_register}
use agentic_juggling.Node.Connection.Answer.{register_frame, loads_reply}
use agentic_juggling.Delivery.Registration.{register-connect_and_register}
use agentic_juggling.Examples.{node}
use agentic_juggling.Examples.{server, running, node_record, match_row, crypto, alive}

abbrev good_key : String
good_key = pubkey_b64 toy (new_node_crypto toy 4)

abbrev claim : String → String → Payload
claim token key = record empty { node_id = some "n1"; token = some token; ecdh_pubkey = some key }

abbrev lobby : Server
lobby = server MatchState.lobby none NodeState.running

wrong_token : lookup "n1" running.registry.allowed_tokens ≢ some "guess"
unfolding lookup
wrong_token = ground (arith, eq_iff "secret" "guess")

token_known : lookup "n1" running.registry.allowed_tokens ≡ some "secret"
unfolding lookup
token_known = refl

good_key_given : (good_key == "") ≡ false
unfolding pubkey_b64 new_node_crypto toy b64e
good_key_given = refl

abbrev reply : String
reply = b64e (toy.public_bytes (toy.generate 3))

good_key_taken : (establish_session toy "n1" good_key crypto).0 ≡ ok reply
unfolding establish_session pubkey_b64 new_node_crypto toy b64d b64e
good_key_taken = refl

handle_register_accepted_example :
    let (r, s') = handle_register toy alive (pos 60) "id2" (claim "secret" good_key) running in
    let before = Registry.get "n1" running.registry in
    (r ≡ ok tt)
    × (s'.sent
        ≡ running.sent
          ++ record {
            identity = "id2";
            message = register_ok (is_some before) (was_running before) reply;
          }
            ∷ [])
    × (Registry.identity_for "n1" s'.registry ≡ some "id2")
    × (node_state (Registry.get "n1" s'.registry)
        ≡ some (if was_running before then NodeState.connected else NodeState.ready))
handle_register_accepted_example =
    handle_register_accepted toy alive (pos 60) "id2" (claim "secret" good_key) running token_known
      good_key_given good_key_taken

-- a node that comes back under another identity
abbrev joining : Node
joining = record node { crypto = new_node_crypto toy 4 }

joining_key : joining.crypto.private_key ≡ toy.generate 4
unfolding new_node_crypto toy
joining_key = refl

register-connect_and_register_example :
    (raw : String) × (back : String) × (answer : Message) × (reply : Reply) × (k : Bytes) × (text
        (register_frame toy "n1" "secret" "host" "10.0.0.1" joining.crypto)
      ≡ some raw)
    × (let (r, s') =
          Router.dispatch toy alive
            (pos 60)
            loads_payload
            ("id2" ∷ "REGISTER" ∷ raw ∷ [])
            running in
        let before = was_running (Registry.get "n1" running.registry) in
        (r ≡ ok tt)
        × (s'.sent ≡ running.sent ++ record { identity = "id2"; message = answer } ∷ [])
        × (lookup "n1" s'.crypto.sessions ≡ some (record { node_id = "n1"; session_key = k }))
        × (Registry.identity_for "n1" s'.registry ≡ some "id2")
        × (node_state (Registry.get "n1" s'.registry)
            ≡ some (if before then NodeState.connected else NodeState.ready))
        × (text (frame answer) ≡ some back)
        × (loads_reply (msg_type answer) back ≡ ok reply)
        × (connect_and_register toy "codex" (some reply) joining ≡ (
          ok (Registered.pair true before),
          record joining { crypto = record joining.crypto { session_key = some k } },
        )))
register-connect_and_register_example =
    register-connect_and_register toy toy-Lawful "codex" alive "n1" "secret" "host" "10.0.0.1" "id2"
      (pos 60) 4 running joining joining_key good_key_given token_known

bad_key_given : ("a" == "") ≡ false
bad_key_given = refl

bad_key_refused : (establish_session toy "n1" "a" crypto).0 ≡ err Error.decode_error
unfolding establish_session toy b64d
bad_key_refused = refl

handle_register_bad_key_example :
    let (r, s') = handle_register toy alive (pos 60) "id2" (claim "secret" "a") running in
    (r ≡ err Error.decode_error)
    × (s'.sent ≡ running.sent)
    × (has_session "n1" s'.crypto ≡ false)
    × (node_state (Registry.get "n1" s'.registry) ≡ some NodeState.connected)
handle_register_bad_key_example =
    handle_register_bad_key toy alive (pos 60) "id2" (claim "secret" "a") running token_known
      bad_key_given bad_key_refused

abbrev told : String → Payload
told node_id = record empty {
  node_id = some node_id;
  match_id = some "m1";
  tokens_used = some (pos 10);
}

node_known : Registry.get "n1" running.registry ≡ some (node_record NodeState.running)
unfolding Registry.get lookup
node_known = refl

row_found : Store.get "m1" running.store ≡ some (match_row MatchState.running (some (pos 50)))
unfolding Store.get lookup
row_found = refl

handle_metrics_stored_example :
    let before = or_default (lookup "n1" (get_totals_per_node "m1" running.metrics)) zero_total in
    let s' = handle_metrics toy alive (pos 60) (told "n1") running in
    (s'.metrics ≡ record running.metrics {
      metrics =
          running.metrics.metrics
          ++ record {
            match_id = "m1";
            node_id = "n1";
            terminal_id = "";
            t_rel = pos 60 -ℤ pos 50;
            idle_seconds = pos 0;
            tokens_used = pos 10;
          }
            ∷ [];
    })
    × ((j k : String)
        → lookup k (get_totals_per_node j s'.metrics) ≡ (
            if ("m1" == j) && ("n1" == k)
            then some (record {
              tokens_used = before.tokens_used +ℤ pos 10;
              idle_seconds = before.idle_seconds +ℤ pos 0;
            })
            else lookup k (get_totals_per_node j running.metrics)))
    × (s'.pushed
        ≡ running.pushed
          ++ (
            (broadcast alive "m1" running.connections).0,
            (serialize (compute toy.ties "m1" (pos 100) (pos 10_000) s'.metrics)).0,
            (serialize (compute toy.ties "m1" (pos 100) (pos 10_000) s'.metrics)).1,
          )
            ∷ [])
handle_metrics_stored_example =
    handle_metrics_stored toy alive (pos 60) (told "n1") running node_known row_found refl

node_unknown : Registry.get "n9" running.registry ≡ none
unfolding Registry.get lookup
node_unknown = refl

not_started : started (Store.get "m1" lobby.store) ≡ none
unfolding Store.get lookup
not_started = refl
