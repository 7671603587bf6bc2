-- ===== src/Protocol.antt =====
-- The protocol of crates/subportal-lib/src/protocol.rs and consts.rs: requests, responses and errors.
pub mod Json
pub mod SampleJson
pub mod Wire
pub mod Codec
pub mod Frame
mod Tests
use subportal.Prelude.{ℕ, ◌*◌, String, Option, List}

abbrev pub version : String
version = "0.2.0"

abbrev pub max_file_size : ℕ
max_file_size = 5 * 1024 * 1024

abbrev pub max_message_size : ℕ
max_message_size = 8 * 1024 * 1024

-- `enum Request`
pub data Request : Type 0 where
  ping : Request
  open_uri : (uri : String) → Request
  open_file : (name mime content : String) → Request
  notify : (title : String) (body urgency icon : Option String) → Request
  confirm : (message : String) (title : Option String) → Request
  notify_dismiss : (id : String) → Request
  generate_ticket : (ttl : ℕ) → Request
  revoke_client : (name_or_id : String) → Request

-- `enum Response`. The variants `Ok` and `Ping` are `done` and `pong` here.
pub data Response : Type 0 where
  pong :
      (capabilities : List String) (version : String) (clients : List String) (endpoint_id : String)
      → Response
  done : Response
  notify_delivered : (id : String) → Response
  ticket : (ticket_json : String) → Response

-- `enum SubportalError`
pub data SubportalError : Type 0 where
  user_denied : SubportalError
  no_decision : SubportalError
  not_supported : (capability : String) → SubportalError
  file_too_large : (max_bytes : ℕ) → SubportalError
  no_client : SubportalError
  not_found : (what : String) → SubportalError
