-- ===== src/Node/Connection/Socket.antt =====
-- The socket of node/connection.py from `connect_and_register` to `close`, its receive loop, the payload of
-- `send_hook`, and the end of `run` in node/main.py. The loop is that of the router, word for word.
use agentic_juggling.Prelude.{String, Bool, true, false, Option, none, some, List, or_default}
use agentic_juggling.Server.Wire.{Payload}
use agentic_juggling.Server.Router.Socket.{Endpoint, Received, listen, recv_loop}
use agentic_juggling.Node.{Node}
use agentic_juggling.Node.Main.{stop_reporter, stop_scheduler}

-- a fresh socket in place of the one that was there
abbrev pub connect : Endpoint → Endpoint
connect l = record l { socket = some true }

-- after a REGISTER_OK
abbrev pub registered : Endpoint → Endpoint
registered l = listen l

-- `_recv_loop`
abbrev pub receive : List Received → Endpoint → Endpoint
receive rs l = recv_loop rs l

abbrev shut : Option Bool → Option Bool
shut none = none
shut (some _) = some false

unfoldable pub close : Endpoint → Endpoint
close l = record l { running = false; socket = shut l.socket; terminated = true }

-- the entry of a dict literal, and what stands under its key in the dict that is unpacked after it
abbrev pub unpacked : String → Option String → Option String
unpacked value entries = some (or_default entries value)

-- `{"node_id": ..., "event_type": ..., **data}`, the entries of `data` last; `text`: its JSON text
unfoldable pub hook_payload : String → String → Payload → String → Payload
hook_payload node_id event_type entries text = record entries {
  node_id = unpacked node_id entries.node_id;
  event_type = unpacked event_type entries.event_type;
  text = text;
}

-- `finally` of `run`
unfoldable pub finish : Node × Endpoint → Node × Endpoint
unfolding close
finish (n, conn) =
    (stop_scheduler n.scheduler (record n { reporter = stop_reporter n.reporter }), close conn)
