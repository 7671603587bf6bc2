-- ===== src/Protocol/Codec/RoundTrip.antt =====
-- A request that is encoded, tagged on its way with a host or a notification id, and decoded.
use mathlib.Core.Path.{fun_ext}
use subportal.Prelude.{
  ◌^◌, ◌<◌, String, str_eq, eq_refl, ◌≡◌, refl, false, Option, none, some, List, [], ◌∷◌, All,
  and_then, ap,
}
use subportal.Protocol.{
  Request, ping, open_uri, open_file, notify, confirm, notify_dismiss, generate_ticket,
  revoke_client,
}
use subportal.Protocol.Json.{Json}
use subportal.Protocol.Codec.{
  method_name, request_fields, to_value, parse_request, from_value, inject_into, inject_map, inject,
  param_str,
}
use subportal.Protocol.Codec.Fields.{
  str_field-insert, str_field-insert_self, opt_field-insert, opt_field-insert_self,
}

-- The names of all fields of all requests.
abbrev field_names : List String
field_names =
    "uri" ∷ "name" ∷ "mime" ∷ "content" ∷ "title" ∷ "body" ∷ "urgency" ∷ "icon" ∷ "message" ∷ "id"
    ∷ "ttl" ∷ "name_or_id" ∷ []

-- A key that no request has a field for.
abbrev pub IsForeign : String → Type 0
IsForeign key = All (λ f. str_eq key f ≡ false) field_names

-- The range of the number that a request carries: a `u64`.
abbrev pub InRange : Request → Type 0
InRange (generate_ticket ttl) = ttl < 2 ^ 64
InRange _ = Unit

module _ (j : Json) where
  open j use {Value, Map, empty, lookup, insert, number, object, as_object, as_str, as_u64}

  ruleset fields =
      (str_field-insert, str_field-insert_self, opt_field-insert, opt_field-insert_self)

  parse_request-request_fields :
      (r : Request) → InRange r → parse_request j (method_name r) (request_fields j r) ≡ some r
  unfolding parse_request method_name request_fields
  parse_request-request_fields ping h = refl
  parse_request-request_fields (open_uri uri) h = simp fields
  parse_request-request_fields (open_file name mime content) h = simp fields
  parse_request-request_fields (notify title body urgency icon) h = simp fields
  parse_request-request_fields (confirm message title) h = simp fields
  parse_request-request_fields (notify_dismiss id) h = simp fields
  parse_request-request_fields (generate_ticket ttl) h =
      rw (j.lookup-insert "ttl" "ttl" (number ttl) empty) (rw (j.as_u64-number ttl h))
  parse_request-request_fields (revoke_client n) h = simp fields

  -- A request whose numbers fit their machine types decodes from its encoding to itself.
  pub from_value-to_value : (r : Request) → InRange r → from_value j (to_value j r) ≡ some r
  unfolding from_value to_value
  from_value-to_value r h =
      simp (j.as_object-object, j.lookup-insert, j.as_str-string) (parse_request-request_fields r h)

  module _ (key : String) (v : Value) where
    parse_request-insert :
        (method : String) (m : Map)
        → IsForeign key
        → parse_request j method (insert key v m) ≡ parse_request j method m
    unfolding parse_request
    parse_request-insert method m
          (
            uri,
            (
              name,
              (
                mime,
                (
                  content,
                  (title, (body, (urgency, (icon, (message, (id, (ttl, (name_or_id, _)))))))),
                ),
              ),
            ),
          ) =
        rw (
          str_field-insert j key "uri" v m uri,
          str_field-insert j key "name" v m name,
          str_field-insert j key "mime" v m mime,
          str_field-insert j key "content" v m content,
          str_field-insert j key "title" v m title,
          opt_field-insert j key "body" v m body,
          opt_field-insert j key "urgency" v m urgency,
          opt_field-insert j key "icon" v m icon,
          str_field-insert j key "message" v m message,
          opt_field-insert j key "title" v m title,
          str_field-insert j key "id" v m id,
          j.lookup-insert key "ttl" v m,
          ttl,
          str_field-insert j key "name_or_id" v m name_or_id,
        )

    from_value-inject_into :
        (m : Map) (params : Option Map) (value : Value)
        → IsForeign key
        → as_object value ≡ some m
        → and_then (lookup "parameters" m) as_object ≡ params
        → from_value j (inject_into j key v m params value) ≡ from_value j value
    unfolding inject_into from_value
    from_value-inject_into m none value f e h = refl
    from_value-inject_into m (some params) value f e h =
        rw
          (
            e,
            h,
            j.as_object-object _,
            j.lookup-insert "parameters" "method" _ m,
            j.lookup-insert "parameters" "parameters" _ m,
            j.as_object-object _,
          )
          (ap (and_then (and_then (lookup "method" m) as_str))
            (fun_ext λ method. parse_request-insert method params f))

    from_value-inject_map :
        (m : Option Map) (value : Value)
        → IsForeign key
        → as_object value ≡ m
        → from_value j (inject_map j key v m value) ≡ from_value j value
    unfolding inject_map
    from_value-inject_map none value f e = refl
    from_value-inject_map (some m) value f e =
        from_value-inject_into m (and_then (lookup "parameters" m) as_object) value f e refl

    -- A field under a key that no request reads, put into the parameters of any message, does not
    -- change what the message decodes to.
    pub from_value-inject :
        (value : Value) → IsForeign key → from_value j (inject j key v value) ≡ from_value j value
    unfolding inject
    from_value-inject value f = from_value-inject_map (as_object value) value f refl

  -- The field that was put in is read back.
  pub param_str-inject :
      (key s : String) (r : Request)
      → param_str j key (inject j key (j.string s) (to_value j r)) ≡ some s
  unfolding param_str inject to_value
  param_str-inject key s r = simp (j.as_object-object, j.lookup-insert, eq_refl) (j.as_str-string s)
