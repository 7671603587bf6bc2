-- ===== src/Protocol/Wire.antt =====
-- Responses and errors on the wire: crates/subportal-lib/src/protocol.rs.
use subportal.Prelude.{
  ◌^◌, ◌<◌, String, str_eq, eq_refl, eq_iff, ◌≡◌, refl, sym, true, false, Bool-cases, ◌⊎◌, inl, inr,
  List, [], ◌∷◌, any, Option, none, some, map, and_then, unwrap_or, if◌then◌else◌,
}
use subportal.Protocol.{
  Response, pong, done, notify_delivered, ticket, SubportalError, user_denied, no_decision,
  not_supported, file_too_large, no_client, not_found,
}
use subportal.Protocol.Json.{Json}

-- `struct WireResponse`
pub record WireResponse (V : Type 0) : Type 0 where
  pub parameters : Option V
  pub error : Option String

unfoldable pub wire_id : SubportalError → String
wire_id user_denied = "io.subportal.UserDenied"
wire_id no_decision = "io.subportal.NoDecision"
wire_id (not_supported capability) = "io.subportal.NotSupported"
wire_id (file_too_large max_bytes) = "io.subportal.FileTooLarge"
wire_id no_client = "io.subportal.NoClient"
wire_id (not_found what) = "io.subportal.NotFound"

module _ (j : Json) where
  open j use {
    Value, Map, empty, lookup, insert, string, number, array, object, as_str, as_u64, as_object,
  }

  -- `Value::get(key)`: nothing on a value that is no object
  abbrev pub get : Value → String → Option Value
  get v k = and_then (as_object v) (lookup k)

  -- `json!({ key: value })`
  abbrev single : String → Value → Value
  single k v = object (insert k v empty)

  -- `parameters.get(key).and_then(as_str).unwrap_or("unknown")`
  abbrev pub str_or_unknown : Value → String → String
  str_or_unknown parameters key = unwrap_or (and_then (get parameters key) as_str) "unknown"

  unfoldable pub from_wire : String → Value → Option SubportalError
  from_wire id parameters =
      if str_eq id "io.subportal.UserDenied"
      then some user_denied
      else if str_eq id "io.subportal.NoDecision"
      then some no_decision
      else if str_eq id "io.subportal.NotSupported"
      then some (not_supported (str_or_unknown parameters "capability"))
      else if str_eq id "io.subportal.FileTooLarge"
      then some (file_too_large (unwrap_or (and_then (get parameters "max_bytes") as_u64) 0))
      else if str_eq id "io.subportal.NoClient"
      then some no_client
      else if str_eq id "io.subportal.NotFound"
      then some (not_found (str_or_unknown parameters "what"))
      else none

  unfoldable pub response_to_wire : Response → WireResponse Value
  response_to_wire (pong capabilities version clients endpoint_id) = record {
    parameters = some (
        object (
          insert "endpoint_id" (string endpoint_id) (
            insert "clients" (array (map string clients)) (
              insert "version" (string version)
                (insert "capabilities" (array (map string capabilities)) empty)))));
    error = none;
  }
  response_to_wire done = record { parameters = some (object empty); error = none }
  response_to_wire (notify_delivered id) = record {
    parameters = some (single "id" (string id));
    error = none;
  }
  response_to_wire (ticket ticket_json) = record {
    parameters = some (single "ticket_json" (string ticket_json));
    error = none;
  }

  unfoldable pub error_parameters : SubportalError → Value
  error_parameters (not_supported capability) = single "capability" (string capability)
  error_parameters (file_too_large max_bytes) = single "max_bytes" (number max_bytes)
  error_parameters (not_found what) = single "what" (string what)
  error_parameters _ = object empty

  unfoldable pub error_to_wire : SubportalError → WireResponse Value
  unfolding error_parameters wire_id
  error_to_wire e = record { parameters = some (error_parameters e); error = some (wire_id e) }

  -- The range of the number that an error carries: a `u64`.
  abbrev pub InRange : SubportalError → Type 0
  InRange (file_too_large max_bytes) = max_bytes < 2 ^ 64
  InRange _ = Unit

  -- The field of an object with that one field.
  get-single : (k : String) (v : Value) → get (single k v) k ≡ some v
  get-single k v = rw (j.as_object-object _, j.lookup-insert k k v empty, eq_refl k)

  pub from_wire-error_parameters :
      (e : SubportalError) → InRange e → from_wire (wire_id e) (error_parameters e) ≡ some e
  unfolding from_wire error_to_wire
  from_wire-error_parameters user_denied h = refl
  from_wire-error_parameters no_decision h = refl
  from_wire-error_parameters (not_supported c) h = simp (get-single, j.as_str-string)
  from_wire-error_parameters (file_too_large n) h = simp (get-single) (rw (j.as_u64-number n h))
  from_wire-error_parameters no_client h = refl
  from_wire-error_parameters (not_found w) h = simp (get-single, j.as_str-string)

  -- The ids of the protocol's errors.
  abbrev pub error_ids : List String
  error_ids =
      "io.subportal.UserDenied" ∷ "io.subportal.NoDecision" ∷ "io.subportal.NotSupported"
      ∷ "io.subportal.FileTooLarge" ∷ "io.subportal.NoClient" ∷ "io.subportal.NotFound" ∷ []

  -- What an id and its parameters are read as.
  pub from_wire-cases :
      (id : String) (parameters : Value)
      → ((e : SubportalError) × (any (str_eq id) error_ids ≡ true)
          × (wire_id e ≡ id)
          × (from_wire id parameters ≡ some e))
        ⊎ ((any (str_eq id) error_ids ≡ false) × (from_wire id parameters ≡ none))
  unfolding from_wire wire_id
  from_wire-cases id parameters = elim (Bool-cases (str_eq id "io.subportal.UserDenied")) [
    | inl e0 ↦
        inl (
          user_denied,
          rw (e0) refl,
          sym ((eq_iff id "io.subportal.UserDenied").0 e0),
          rw (e0) refl,
        )
    | inr e0 ↦ elim (Bool-cases (str_eq id "io.subportal.NoDecision")) [
      | inl e1 ↦ inl (
        no_decision,
        rw (e0, e1) refl,
        sym ((eq_iff id "io.subportal.NoDecision").0 e1),
        rw (e0, e1) refl,
      )
      | inr e1 ↦ elim (Bool-cases (str_eq id "io.subportal.NotSupported")) [
        | inl e2 ↦ inl (
          not_supported (str_or_unknown parameters "capability"),
          rw (e0, e1, e2) refl,
          sym ((eq_iff id "io.subportal.NotSupported").0 e2),
          rw (e0, e1, e2) refl,
        )
        | inr e2 ↦ elim (Bool-cases (str_eq id "io.subportal.FileTooLarge")) [
          | inl e3 ↦ inl (
            file_too_large (unwrap_or (and_then (get parameters "max_bytes") as_u64) 0),
            rw (e0, e1, e2, e3) refl,
            sym ((eq_iff id "io.subportal.FileTooLarge").0 e3),
            rw (e0, e1, e2, e3) refl,
          )
          | inr e3 ↦ elim (Bool-cases (str_eq id "io.subportal.NoClient")) [
            | inl e4 ↦ inl (
              no_client,
              rw (e0, e1, e2, e3, e4) refl,
              sym ((eq_iff id "io.subportal.NoClient").0 e4),
              rw (e0, e1, e2, e3, e4) refl,
            )
            | inr e4 ↦ elim (Bool-cases (str_eq id "io.subportal.NotFound")) [
              | inl e5 ↦ inl (
                not_found (str_or_unknown parameters "what"),
                rw (e0, e1, e2, e3, e4, e5) refl,
                sym ((eq_iff id "io.subportal.NotFound").0 e5),
                rw (e0, e1, e2, e3, e4, e5) refl,
              )
              | inr e5 ↦ inr (rw (e0, e1, e2, e3, e4, e5) refl, rw (e0, e1, e2, e3, e4, e5) refl)
            ]
          ]
        ]
      ]
    ]
  ]
