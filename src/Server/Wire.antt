-- ===== src/Server/Wire.antt =====
-- The messages between nodes and server (central_server/network/router.py, node/connection.py). A payload
-- that arrives is a JSON object with the protocol's keys, each present or not, of the protocol's types; Wire.Text and
-- Wire.Request have the texts.
pub mod Request
pub mod Text
use agentic_juggling.Prelude.{String, Bool, Option, none, List}
use agentic_juggling.Prelude.Int.{ℤ}
use agentic_juggling.Crypto.{SealedEntry}

-- what REGISTER, METRICS and HOOK carry; `text` is the whole object as JSON text
pub record Payload : Type 0 where
  pub node_id : Option String
  pub token : Option String
  pub hostname : Option String
  pub ip : Option String
  pub ecdh_pubkey : Option String
  pub match_id : Option String
  pub terminal_id : Option String
  pub timestamp : Option ℤ
  pub idle_seconds : Option ℤ
  pub tokens_used : Option ℤ
  pub event_type : Option String
  pub text : String

-- `{}`
abbrev pub empty : Payload
empty = record {
  node_id = none;
  token = none;
  hostname = none;
  ip = none;
  ecdh_pubkey = none;
  match_id = none;
  terminal_id = none;
  timestamp = none;
  idle_seconds = none;
  tokens_used = none;
  event_type = none;
  text = "{}";
}

-- the third frame of a message: not JSON, JSON that is no object, or an object
pub data Raw : Type 0 where
  malformed : Raw
  other_json : Raw
  object : Payload → Raw

-- the payload of START
pub record StartPacket : Type 0 where
  pub match_id : String
  pub agentname : String
  pub t0 : ℤ
  pub encrypted_match_key : String
  pub schedule : List SealedEntry

pub data Message : Type 0 where
  register_ok : Bool → Bool → String → Message
  register_fail : String → Message
  start : StartPacket → Message
  stop : String → Message

-- a multipart message on the ROUTER socket
pub record Outbound : Type 0 where
  pub identity : String
  pub message : Message
