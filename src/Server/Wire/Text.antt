-- ===== src/Server/Wire/Text.antt =====
-- The frames that central_server sends to a node: the type of a message and its object as bytes.
use agentic_juggling.Prelude.{List, [], ◌∷◌, ◌++◌, String}
use agentic_juggling.Prelude.Unicode.{codes}
use agentic_juggling.Codec.{Bytes}
use agentic_juggling.Crypto.{SealedEntry}
use agentic_juggling.Json.{Json, Items, flag, num, str, arr, obj, nil, cons, end, field}
use agentic_juggling.Json.Write.{quoted}
use agentic_juggling.Json.Document.{dumps_bytes}
use agentic_juggling.Server.Wire.{StartPacket, Message, register_ok, register_fail, start, stop}

unfoldable pub msg_type : Message → String
msg_type (register_ok reconnect was_running key) = "REGISTER_OK"
msg_type (register_fail reason) = "REGISTER_FAIL"
msg_type (start k) = "START"
msg_type (stop match_id) = "STOP"

unfoldable pub dump_entries : List SealedEntry → Items
dump_entries [] = nil
dump_entries (e ∷ es) =
    cons (obj (field "delay" (num e.delay) (field "encrypted_prompt" (str e.encrypted_prompt) end)))
      (dump_entries es)

unfoldable pub packet_object : StartPacket → Json
unfolding dump_entries
packet_object k = obj (
    field "match_id" (str k.match_id) (
      field "agentname" (str k.agentname) (
        field "t0" (num k.t0) (
          field "encrypted_match_key" (str k.encrypted_match_key)
            (field "schedule" (arr (dump_entries k.schedule)) end)))))

-- The refusals are literals without blanks.
unfoldable pub frame : Message → Bytes
unfolding dumps_bytes packet_object
frame (register_ok reconnect was_running key) = dumps_bytes (
    obj (
      field "reconnect" (flag reconnect)
        (field "was_running" (flag was_running) (field "server_ecdh_pubkey" (str key) end))))
frame (register_fail reason) = codes "{\"reason\":" ++ quoted reason (125 ∷ [])
frame (start k) = dumps_bytes (packet_object k)
frame (stop match_id) = dumps_bytes (obj (field "match_id" (str match_id) end))
