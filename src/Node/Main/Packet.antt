-- ===== src/Node/Main/Packet.antt =====
-- The START packet as text: `json.loads` of node/connection.py and the keys that `on_start` of node/main.py takes.
use agentic_juggling.Prelude.{◌≡◌, refl, ◌∙◌, ap, Option, none, some, List, [], ◌∷◌, String}
use agentic_juggling.Prelude.Int.{ℤ}
use agentic_juggling.Prelude.Unicode.{codes}
use agentic_juggling.Codec.Utf8.{text}
use agentic_juggling.Crypto.{SealedEntry}
use agentic_juggling.Json.{Json, Items, Fields, arr, obj, nil, cons, end}
use agentic_juggling.Json.Read.{get, loads}
use agentic_juggling.Json.Read.Back.{Distinct, DistinctItems}
use agentic_juggling.Json.Document.{text-dumps_bytes}
use agentic_juggling.Server.Wire
use agentic_juggling.Server.Wire.{StartPacket}
use agentic_juggling.Server.Wire.Text.{dump_entries, packet_object, frame}
use agentic_juggling.Server.Wire.Request.{text_in, number_in}
use agentic_juggling.Node.Main.{StartPayload, of_packet}

abbrev entry_of : Option ℤ → Option String → Option SealedEntry
entry_of (some delay) (some prompt) = some (record { delay = delay; encrypted_prompt = prompt })
entry_of (some delay) none = none
entry_of none o = none

abbrev entry_in : Json → Option SealedEntry
entry_in (obj fs) = entry_of (number_in (get "delay" fs)) (text_in (get "encrypted_prompt" fs))
entry_in _ = none

abbrev and_more : Option SealedEntry → Option (List SealedEntry) → Option (List SealedEntry)
and_more (some e) (some es) = some (e ∷ es)
and_more (some e) none = none
and_more none o = none

unfoldable pub entries_in : Items → Option (List SealedEntry)
entries_in nil = some []
entries_in (cons j js) = and_more (entry_in j) (entries_in js)

abbrev schedule_in : Option Json → Option (List SealedEntry)
schedule_in (some (arr js)) = entries_in js
schedule_in _ = none

-- A value of another type than the protocol's counts as missing.
unfoldable pub payload_of : Fields → StartPayload
unfolding entries_in
payload_of fs = record {
  match_id = text_in (get "match_id" fs);
  agentname = text_in (get "agentname" fs);
  t0 = number_in (get "t0" fs);
  encrypted_match_key = text_in (get "encrypted_match_key" fs);
  schedule = schedule_in (get "schedule" fs);
}

-- `on_start` raises for what is no object, before it has changed anything; `on_stop` does not look at it.
abbrev packet_in : Option Json → Option StartPayload
packet_in none = none
packet_in (some (obj fs)) = some (payload_of fs)
packet_in (some _) = some (payload_of end)

unfoldable pub loads_packet : String → Option StartPayload
unfolding loads payload_of
loads_packet raw = packet_in (loads (codes raw))

entries-dump_entries : (es : List SealedEntry) → entries_in (dump_entries es) ≡ some es
unfolding entries_in dump_entries
entries-dump_entries [] = refl
entries-dump_entries (e ∷ es) =
    ap (λ o. and_more (some (record { delay = e.delay; encrypted_prompt = e.encrypted_prompt })) o)
      (entries-dump_entries es)

dump_entries-Distinct : (es : List SealedEntry) → DistinctItems (dump_entries es)
unfolding dump_entries
dump_entries-Distinct [] = tt
dump_entries-Distinct (e ∷ es) = ((refl, (tt, (refl, (tt, tt)))), dump_entries-Distinct es)

packet_object-Distinct : (k : StartPacket) → Distinct (packet_object k)
unfolding packet_object
packet_object-Distinct k = (
  refl,
  (tt, (refl, (tt, (refl, (tt, (refl, (tt, (refl, (dump_entries-Distinct k.schedule, tt))))))))),
)

-- The frame of a START packet is a text, and the node takes the packet from it.
pub loads_packet-frame :
    (k : StartPacket)
    → (raw : String) × (text (frame (Wire.start k)) ≡ some raw)
      × (loads_packet raw ≡ some (of_packet k))
unfolding frame loads_packet of_packet
loads_packet-frame k =
    let (raw, e, back) = text-dumps_bytes (packet_object k) (packet_object-Distinct k) in
    (raw, e, ap packet_in back ∙ unfold packet_object in rw (entries-dump_entries k.schedule) refl)
