-- ===== src/Local/Client.antt =====
-- `Client::call` of crates/subportal-lib/src/client.rs. How the socket behaves is an input.
use mathlib.Core.Option
use subportal.Prelude.{
  String, Option, none, some, List, [], ◌∷◌, Result, ok, err, and_then, unwrap_or,
}
use subportal.Protocol.{
  Request, ping, notify, generate_ticket, revoke_client, Response, pong, done, notify_delivered,
  ticket, SubportalError, not_supported,
}
use subportal.Protocol.Json.{Json}
use subportal.Protocol.Wire.{WireResponse, get, str_or_unknown, from_wire}
use subportal.Protocol.Codec.{to_value, inject}

-- `enum ClientError`
pub data ClientError : Type 0 where
  daemon_unreachable : ClientError
  protocol : SubportalError → ClientError

-- How a call's connection ends: it cannot be opened, written or read, or a response arrives.
pub data Link (V : Type 0) : Type 0 where
  connect_failed write_failed read_failed : Link V
  received : WireResponse V → Link V

module _ (j : Json) where
  open j use {Value, string, null, empty, object, as_str, as_array}

  unfoldable pub inject_host : Option String → Value → Value
  inject_host none value = value
  inject_host (some host) value = inject j "host" (string host) value

  -- What is written to the socket.
  unfoldable pub request_value : Option String → Request → Value
  unfolding inject_host
  request_value host request = inject_host host (to_value j request)

  -- `filter_map(|v| v.as_str().map(String::from))`
  unfoldable pub texts : List Value → List String
  texts [] = []
  texts (v ∷ vs) = let rest = texts vs in elim (as_str v) [ none ↦ rest | some s ↦ s ∷ rest ]

  -- `params.get(key).and_then(|v| v.as_array()).map(..).unwrap_or_default()`
  unfoldable pub text_list : Value → String → List String
  unfolding texts
  text_list params key = unwrap_or (Option.map texts (and_then (get j params key) as_array)) []

  unfoldable pub delivered : Option String → Response
  delivered none = done
  delivered (some id) = notify_delivered id

  -- The success response, by what was sent.
  unfoldable pub parse_success : Request → Value → Response
  unfolding text_list delivered
  parse_success (revoke_client name_or_id) params = done
  parse_success ping params =
      pong (text_list params "capabilities") (str_or_unknown j params "version")
        (text_list params "clients") (str_or_unknown j params "endpoint_id")
  parse_success (notify title body urgency icon) params =
      delivered (and_then (get j params "id") as_str)
  parse_success (generate_ticket ttl) params =
      ticket (unwrap_or (and_then (get j params "ticket_json") as_str) "")
  parse_success _ params = done

  unfoldable pub known_error : Option SubportalError → Result Response ClientError
  known_error (some e) = err (protocol e)
  known_error none = err (protocol (not_supported "unknown"))

  unfoldable pub read_response :
      Request → Option String → Option Value → Result Response ClientError
  unfolding parse_success known_error
  read_response request none parameters = ok (parse_success request (unwrap_or parameters null))
  read_response request (some err_id) parameters =
      known_error (from_wire j err_id (unwrap_or parameters (object empty)))

  unfoldable pub call : (Value → Link Value) → Option String → Request → Result Response ClientError
  unfolding read_response request_value
  call link host request = elim (link (request_value host request)) [
    | connect_failed ↦ err daemon_unreachable
    | write_failed ↦ err daemon_unreachable
    | read_failed ↦ err daemon_unreachable
    | received wire_resp ↦ read_response request wire_resp.error wire_resp.parameters
  ]
