-- ===== src/Node/Connection/Answer.antt =====
-- The texts of a registration in node/connection.py: the REGISTER object and the server's answer.
use agentic_juggling.Prelude.{Bool, ◌≡◌, refl, ap, Option, none, some, String}
use agentic_juggling.Prelude.Outcome.{Error, Outcome, ok, err}
use agentic_juggling.Prelude.Unicode.{codes}
use agentic_juggling.Codec.{Bytes}
use agentic_juggling.Codec.Utf8.{text}
use agentic_juggling.Primitives.{Primitives}
use agentic_juggling.NodeCrypto.{NodeCrypto, pubkey_b64}
use agentic_juggling.Json.{Json, Fields, flag, str, obj, end, field}
use agentic_juggling.Json.Read.{get, loads}
use agentic_juggling.Json.Document.{dumps_bytes, text-dumps_bytes}
use agentic_juggling.Server.Wire.{Raw, register_ok}
use agentic_juggling.Server.Wire.Text.{frame}
use agentic_juggling.Server.Wire.Request.{payload_of, loads_payload, raw_of, text_in}
use agentic_juggling.Node.Connection.{Reply}

abbrev pub register_fields : Primitives → String → String → String → String → NodeCrypto → Fields
register_fields p node_id token hostname ip c = field "node_id" (str node_id) (
    field "token" (str token) (
      field "hostname" (str hostname)
        (field "ip" (str ip) (field "ecdh_pubkey" (str (pubkey_b64 p c)) end))))

unfoldable pub register_frame : Primitives → String → String → String → String → NodeCrypto → Bytes
unfolding dumps_bytes pubkey_b64
register_frame p node_id token hostname ip c =
    dumps_bytes (obj (register_fields p node_id token hostname ip c))

abbrev flag_in : Option Json → Option Bool
flag_in (some (flag b)) = some b
flag_in _ = none

abbrev reply_in : String → Option Json → Outcome Reply
reply_in msg_type none = err Error.decode_error
reply_in msg_type (some (obj fs)) = ok (record {
  msg_type = msg_type;
  server_ecdh_pubkey = text_in (get "server_ecdh_pubkey" fs);
  was_running = flag_in (get "was_running" fs);
})
reply_in msg_type (some _) = err Error.attribute_error

-- `json.loads(raw)`, with the keys that are read from it; a value of another type than the protocol's counts as missing
unfoldable pub loads_reply : String → String → Outcome Reply
unfolding loads
loads_reply msg_type raw = reply_in msg_type (loads (codes raw))

-- The server gets the very keys that the node has written.
pub loads_payload-register_frame :
    (p : Primitives) (node_id token hostname ip : String) (c : NodeCrypto)
    → (raw : String) × (text (register_frame p node_id token hostname ip c) ≡ some raw)
      × (loads_payload raw
          ≡ Raw.object (payload_of (register_fields p node_id token hostname ip c)))
unfolding register_frame loads_payload
loads_payload-register_frame p node_id token hostname ip c =
    let (raw, e, back) =
      text-dumps_bytes (obj (register_fields p node_id token hostname ip c))
        (refl, (tt, (refl, (tt, (refl, (tt, (refl, (tt, (refl, (tt, tt)))))))))) in
    (raw, e, ap raw_of back)

-- The node takes the key and the flag from the server's answer.
pub loads_reply-frame :
    (reconnect was_running : Bool) (key : String)
    → (raw : String) × (text (frame (register_ok reconnect was_running key)) ≡ some raw)
      × (loads_reply "REGISTER_OK" raw
          ≡ ok (record {
            msg_type = "REGISTER_OK";
            server_ecdh_pubkey = some key;
            was_running = some was_running;
          }))
unfolding frame loads_reply
loads_reply-frame reconnect was_running key =
    let (raw, e, back) =
      text-dumps_bytes
        (obj (
          field "reconnect" (flag reconnect)
            (field "was_running" (flag was_running) (field "server_ecdh_pubkey" (str key) end))))
        (refl, (tt, (refl, (tt, (refl, (tt, tt)))))) in
    (raw, e, ap (reply_in "REGISTER_OK") back)
