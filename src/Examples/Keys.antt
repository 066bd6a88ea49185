-- ===== src/Examples/Keys.antt =====
-- The theorems on keys, prompts and START packets, at concrete inputs.
use agentic_juggling.Codec.Base64.{b64d, b64e}
use agentic_juggling.Codec.Base64.RoundTrip.{b64d-b64e}
use agentic_juggling.Prelude.{
  List, String, ◌≡◌, ◌≢◌, refl, none, some, [], ◌∷◌, ◌++◌, arith, eq_iff,
}
use agentic_juggling.Prelude.Int.{pos}
use agentic_juggling.Prelude.Dict.{lookup}
use agentic_juggling.Prelude.Outcome.{Error, ok, err}
use agentic_juggling.Primitives.Toy.{toy, toy-Lawful, toy-Authenticates}
use agentic_juggling.Registry
use agentic_juggling.Crypto.{establish_session, encrypt_prompt}
use agentic_juggling.Crypto.Wrap.{encrypt_prompt_replay}
use agentic_juggling.NodeCrypto.{new_node_crypto, decrypt_prompt}
use agentic_juggling.Server.Wire
use agentic_juggling.Server.Wire.{Outbound}
use agentic_juggling.Manager.{dispatch_start}
use agentic_juggling.Manager.Recipients.{Starts, targets, dispatch_start_lem}
use agentic_juggling.Examples.{crypto, node_crypto, assignment, running}

private_key : (new_node_crypto toy 4).private_key ≡ toy.generate 4
unfolding new_node_crypto toy
private_key = refl

bad_key : (establish_session toy "n1" "" crypto).0 ≡ err Error.invalid_key
unfolding establish_session toy b64d
bad_key = refl

m1-ne-m2 : ◌≢◌ {A = String} "m1" "m2"
m1-ne-m2 = ground (arith, eq_iff "m1" "m2")

own_key : lookup "m1" crypto.match_keys ≡ some (5 ∷ [])
unfolding lookup
own_key = refl

same_key :
    lookup "m2" (record node_crypto { match_keys = ("m2", 5 ∷ []) ∷ [] }).match_keys ≡ some (5 ∷ [])
unfolding lookup
same_key = refl

encrypt_prompt_replay_example :
    (blob : String) × ((encrypt_prompt toy "m1" "hello" crypto).0 ≡ ok blob)
    × (decrypt_prompt toy "m2" blob (record node_crypto { match_keys = ("m2", 5 ∷ []) ∷ [] })
        ≡ (err Error.invalid_tag, record node_crypto { match_keys = ("m2", 5 ∷ []) ∷ [] }))
encrypt_prompt_replay_example =
    encrypt_prompt_replay toy toy-Lawful "m1" "m2" "hello" crypto
      (record node_crypto { match_keys = ("m2", 5 ∷ []) ∷ [] }) toy-Authenticates m1-ne-m2 own_key
      same_key

has_session : lookup "n1" crypto.sessions ≡ some (record { node_id = "n1"; session_key = 7 ∷ [] })
unfolding lookup
has_session = refl

no_key : lookup "m2" running.crypto.match_keys ≡ none
unfolding lookup
no_key = ground (arith, eq_iff "m1" "m2")

dispatch_start_lem_example :
    let (r, s') = dispatch_start toy (pos 60) "m2" (pos 60) (assignment ∷ []) running in
    (r ≡ ok tt)
    × (os : List Outbound) × (s'.sent ≡ running.sent ++ os)
    × Starts "m2" (pos 60) (targets running (assignment ∷ [])) os
dispatch_start_lem_example =
    dispatch_start_lem toy (pos 60) "m2" (pos 60) (assignment ∷ []) running no_key

b64d-b64e_example : b64d (b64e (0 ∷ 255 ∷ 62 ∷ 63 ∷ [])) ≡ some (0 ∷ 255 ∷ 62 ∷ 63 ∷ [])
b64d-b64e_example = b64d-b64e (0 ∷ 255 ∷ 62 ∷ 63 ∷ []) (omega arith)
