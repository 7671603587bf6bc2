-- ===== src/Control/Codec.antt =====
-- The messages of the control channel as JSON values, by their serde attributes
-- (crates/subportal-iroh/src/control.rs).
use mathlib.Core.Option
use subportal.Prelude.{
  String, ◌≡◌, refl, Option, none, some, List, [], ◌∷◌, map, and_then, str_eq, if◌then◌else◌,
}
use subportal.Protocol.Json.{Json}
use subportal.Protocol.Codec.{opt_value, str_field, opt_field}
use subportal.Protocol.Codec.Fields.{
  str_field-insert, str_field-insert_self, opt_field-insert, opt_field-insert_self,
}
use subportal.Control.{
  FocusState, active, idle, ClientHello, ServerHello, ControlMessage, focus_update,
  dismiss_notification,
}

abbrev focus_name : FocusState → String
focus_name active = "Active"
focus_name idle = "Idle"

abbrev focus_named : String → Option FocusState
focus_named s =
    if str_eq s "Active" then some active else (if str_eq s "Idle" then some idle else none)

focus_named-focus_name : (f : FocusState) → focus_named (focus_name f) ≡ some f
focus_named-focus_name active = refl
focus_named-focus_name idle = refl

module _ (j : Json) where
  open j use {
    Value, Map, empty, lookup, insert, string, boolean, array, object, as_str, as_bool, as_array,
    as_object,
  }

  unfoldable pub client_hello_value : ClientHello → Value
  client_hello_value hello = object (
      insert "token" (opt_value j hello.token) (
        insert "platform" (string hello.platform) (
          insert "capabilities" (array (map string hello.capabilities))
            (insert "name" (string hello.name) empty))))

  unfoldable server_hello_value : ServerHello → Value
  server_hello_value hello =
      object (
        insert "enrolled" (boolean hello.enrolled)
          (insert "hostname" (string hello.hostname) empty))

  unfoldable pub control_value : ControlMessage → Value
  control_value (focus_update state) =
      object
        (insert "state" (string (focus_name state)) (insert "type" (string "FocusUpdate") empty))
  control_value (dismiss_notification id) =
      object (insert "id" (string id) (insert "type" (string "DismissNotification") empty))

  -- A list of texts, each of which is one.
  all_texts : List Value → Option (List String)
  all_texts [] = some []
  all_texts (v ∷ vs) = and_then (as_str v) λ s. Option.map (◌∷◌ s) (all_texts vs)

  list_field : String → Map → Option (List String)
  unfolding all_texts
  list_field k m = and_then (and_then (lookup k m) as_array) all_texts

  client_hello_fields : Map → Option ClientHello
  unfolding list_field
  client_hello_fields m = and_then (str_field j "name" m) λ name.
      and_then (list_field "capabilities" m) λ capabilities.
        and_then (str_field j "platform" m) λ platform. and_then (opt_field j "token" m) λ token.
          some (record {
            name = name;
            capabilities = capabilities;
            platform = platform;
            token = token;
          })

  unfoldable pub parse_client_hello : Value → Option ClientHello
  unfolding client_hello_fields
  parse_client_hello v = and_then (as_object v) client_hello_fields

  server_hello_fields : Map → Option ServerHello
  server_hello_fields m = and_then (str_field j "hostname" m) λ hostname.
      and_then (and_then (lookup "enrolled" m) as_bool)
        λ enrolled. some (record { hostname = hostname; enrolled = enrolled })

  unfoldable parse_server_hello : Value → Option ServerHello
  unfolding server_hello_fields
  parse_server_hello v = and_then (as_object v) server_hello_fields

  control_fields : Map → String → Option ControlMessage
  control_fields m tag =
      if str_eq tag "FocusUpdate"
      then Option.map focus_update (and_then (str_field j "state" m) focus_named)
      else (if str_eq tag "DismissNotification"
          then Option.map dismiss_notification (str_field j "id" m)
          else none)

  unfoldable pub parse_control : Value → Option ControlMessage
  unfolding control_fields
  parse_control v = and_then (as_object v) λ m. and_then (str_field j "type" m) (control_fields m)

  ruleset fields =
      (str_field-insert, str_field-insert_self, opt_field-insert, opt_field-insert_self)

  all_texts-string : (texts : List String) → all_texts (map string texts) ≡ some texts
  unfolding all_texts
  all_texts-string [] = refl
  all_texts-string (s ∷ texts) = rw (j.as_str-string s, all_texts-string texts) refl

  -- A hello of a client is read back.
  pub parse_client_hello_lem :
      (hello : ClientHello) → parse_client_hello (client_hello_value hello) ≡ some hello
  unfolding parse_client_hello client_hello_value client_hello_fields list_field
  parse_client_hello_lem hello = simp (
    fields,
    j.as_object-object,
    j.lookup-insert,
    j.as_array-array,
    all_texts-string hello.capabilities,
  )

  -- A hello of a server is read back.
  parse_server_hello_lem :
      (hello : ServerHello) → parse_server_hello (server_hello_value hello) ≡ some hello
  unfolding parse_server_hello server_hello_value server_hello_fields
  parse_server_hello_lem hello =
      simp (fields, j.as_object-object, j.lookup-insert, j.as_bool-boolean)

  -- A message is read back.
  pub parse_control_lem : (msg : ControlMessage) → parse_control (control_value msg) ≡ some msg
  unfolding parse_control control_value control_fields
  parse_control_lem (focus_update state) =
      simp (fields, j.as_object-object, focus_named-focus_name state)
  parse_control_lem (dismiss_notification id) = simp (fields, j.as_object-object)
