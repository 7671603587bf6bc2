-- ===== src/Protocol/Codec.antt =====
-- Requests as JSON values: the encoding that the serde attributes of `Request` ask for
-- (crates/subportal-lib/src/protocol.rs), and the two fields that travel beside the typed request,
-- `host` and `notification_id`. A content that is a JSON array, which serde reads by position, is
-- not modelled.
pub mod Fields
pub mod RoundTrip
use subportal.Prelude.{
  ℕ, ◌^◌, ◌<◌, String, str_eq, eq_iff, eq_refl, ◌≡◌, ◌≢◌, refl, Bool, true, false, Option, none,
  some, and_then, if◌then◌else◌, arith, Bool-cases, inl, inr,
}
use subportal.Protocol.{
  Request, ping, open_uri, open_file, notify, confirm, notify_dismiss, generate_ticket,
  revoke_client,
}
use subportal.Protocol.Json.{Json}
use mathlib.Core.Option

-- The `rename` attributes.
unfoldable pub method_name : Request → String
method_name ping = "io.subportal.Ping"
method_name (open_uri uri) = "io.subportal.OpenURI"
method_name (open_file name mime content) = "io.subportal.OpenFile"
method_name (notify title body urgency icon) = "io.subportal.Notify"
method_name (confirm message title) = "io.subportal.Confirm"
method_name (notify_dismiss id) = "io.subportal.NotifyDismiss"
method_name (generate_ticket ttl) = "io.subportal.GenerateTicket"
method_name (revoke_client name_or_id) = "io.subportal.RevokeClient"

module _ (j : Json) where
  open j use {
    Value, Map, empty, lookup, insert, null, string, number, object, is_null, as_str, as_u64,
    as_object,
  }

  abbrev pub opt_value : Option String → Value
  opt_value none = null
  opt_value (some s) = string s

  unfoldable pub request_fields : Request → Map
  request_fields ping = empty
  request_fields (open_uri uri) = insert "uri" (string uri) empty
  request_fields (open_file name mime content) =
      insert "content" (string content)
        (insert "mime" (string mime) (insert "name" (string name) empty))
  request_fields (notify title body urgency icon) = insert "icon" (opt_value icon) (
      insert "urgency" (opt_value urgency)
        (insert "body" (opt_value body) (insert "title" (string title) empty)))
  request_fields (confirm message title) =
      insert "title" (opt_value title) (insert "message" (string message) empty)
  request_fields (notify_dismiss id) = insert "id" (string id) empty
  request_fields (generate_ticket ttl) = insert "ttl" (number ttl) empty
  request_fields (revoke_client name_or_id) = insert "name_or_id" (string name_or_id) empty

  -- `tag = "method", content = "parameters"`
  abbrev envelope : String → Map → Value
  envelope method fields =
      object (insert "parameters" (object fields) (insert "method" (string method) empty))

  -- `serde_json::to_value(request)`
  unfoldable pub to_value : Request → Value
  to_value r = envelope (method_name r) (request_fields r)

  -- A field of type `String`.
  unfoldable pub str_field : String → Map → Option String
  str_field k m = and_then (lookup k m) as_str

  -- A field of type `Option<String>`: absent and null are both `None`.
  unfoldable pub opt_str_value : Value → Option (Option String)
  opt_str_value v = if is_null v then some none else Option.map some (as_str v)

  abbrev opt_str_or_absent : Option Value → Option (Option String)
  opt_str_or_absent none = some none
  opt_str_or_absent (some v) = opt_str_value v

  unfoldable pub opt_field : String → Map → Option (Option String)
  opt_field k m = opt_str_or_absent (lookup k m)

  parse_open_file : Map → Option Request
  parse_open_file m = and_then (str_field "name" m) λ name.
      and_then (str_field "mime" m)
        λ mime. and_then (str_field "content" m) λ content. some (open_file name mime content)

  parse_notify : Map → Option Request
  parse_notify m = and_then (str_field "title" m) λ title. and_then (opt_field "body" m) λ body.
      and_then (opt_field "urgency" m)
        λ urgency. and_then (opt_field "icon" m) λ icon. some (notify title body urgency icon)

  parse_confirm : Map → Option Request
  parse_confirm m =
      and_then (str_field "message" m)
        λ message. and_then (opt_field "title" m) λ title. some (confirm message title)

  -- The variant that the tag names, from the fields of the content. Unknown fields are ignored.
  parse_request : String → Map → Option Request
  unfolding parse_open_file parse_notify parse_confirm
  parse_request method m =
      if str_eq method "io.subportal.Ping"
      then some ping
      else if str_eq method "io.subportal.OpenURI"
      then Option.map open_uri (str_field "uri" m)
      else if str_eq method "io.subportal.OpenFile"
      then parse_open_file m
      else if str_eq method "io.subportal.Notify"
      then parse_notify m
      else if str_eq method "io.subportal.Confirm"
      then parse_confirm m
      else if str_eq method "io.subportal.NotifyDismiss"
      then Option.map notify_dismiss (str_field "id" m)
      else if str_eq method "io.subportal.GenerateTicket"
      then Option.map generate_ticket (and_then (lookup "ttl" m) as_u64)
      else if str_eq method "io.subportal.RevokeClient"
      then Option.map revoke_client (str_field "name_or_id" m)
      else none

  -- `serde_json::from_value::<Request>(value)`
  unfoldable pub from_value : Value → Option Request
  unfolding parse_request
  from_value v = and_then (as_object v) λ m.
      and_then (and_then (lookup "method" m) as_str)
        λ method. and_then (and_then (lookup "parameters" m) as_object) (parse_request method)

  inject_into : String → Value → Map → Option Map → Value → Value
  inject_into key v m none value = value
  inject_into key v m (some params) value =
      object (insert "parameters" (object (insert key v params)) m)

  inject_map : String → Value → Option Map → Value → Value
  unfolding inject_into
  inject_map key v none value = value
  inject_map key v (some m) value =
      inject_into key v m (and_then (lookup "parameters" m) as_object) value

  -- `if let Some(params) = value.get_mut("parameters").and_then(as_object_mut) { params.insert(..) }`
  unfoldable pub inject : String → Value → Value → Value
  unfolding inject_map
  inject key v value = inject_map key v (as_object value) value

  -- `value.get("parameters").and_then(|p| p.get(key)).and_then(|v| v.as_str())`
  unfoldable pub param_str : String → Value → Option String
  param_str key value =
      and_then (and_then (and_then (as_object value) (lookup "parameters")) as_object)
        λ params. and_then (lookup key params) as_str
