-- ===== src/Server/Wire/Request.antt =====
-- REGISTER, METRICS and HOOK as texts: `json.loads` in `_dispatch` of central_server/network/router.py.
use agentic_juggling.Prelude.{Option, none, some, String}
use agentic_juggling.Prelude.Int.{ℤ, pos, unit, ◌*ℤ◌}
use agentic_juggling.Prelude.Unicode.{codes}
use agentic_juggling.Json.{Json, Fields, int, num, str, obj}
use agentic_juggling.Json.Document.{dumps_text}
use agentic_juggling.Json.Read.{get, loads}
use agentic_juggling.Server.Wire.{Payload, Raw}

abbrev pub text_in : Option Json → Option String
text_in (some (str s)) = some s
text_in _ = none

abbrev pub number_in : Option Json → Option ℤ
number_in (some (num z)) = some z
number_in (some (int z)) = some (z *ℤ pos unit)
number_in _ = none

abbrev count_in : Option Json → Option ℤ
count_in (some (int z)) = some z
count_in _ = none

-- A value of another type than the protocol's counts as missing. `on_hook` stores the object as text again.
unfoldable pub payload_of : Fields → Payload
unfolding dumps_text
payload_of fs = record {
  node_id = text_in (get "node_id" fs);
  token = text_in (get "token" fs);
  hostname = text_in (get "hostname" fs);
  ip = text_in (get "ip" fs);
  ecdh_pubkey = text_in (get "ecdh_pubkey" fs);
  match_id = text_in (get "match_id" fs);
  terminal_id = text_in (get "terminal_id" fs);
  timestamp = number_in (get "timestamp" fs);
  idle_seconds = number_in (get "idle_seconds" fs);
  tokens_used = count_in (get "tokens_used" fs);
  event_type = text_in (get "event_type" fs);
  text = dumps_text (obj fs);
}

abbrev pub raw_of : Option Json → Raw
raw_of none = Raw.malformed
raw_of (some (obj fs)) = Raw.object (payload_of fs)
raw_of (some _) = Raw.other_json

unfoldable pub loads_payload : String → Raw
unfolding loads payload_of
loads_payload raw = raw_of (loads (codes raw))
