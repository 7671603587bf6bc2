-- ===== src/Local/Call.antt =====
-- A call over the local socket, from the tool to the agent and back.
use subportal.Prelude.{
  ℕ, String, ◌≡◌, refl, Bool, true, false, not, ◌||◌, ◌&&◌, ◌==◌, Option, none, some, List, [], ◌∷◌,
  map, ap, ◌∙◌, Result, ok, err, if◌then◌else◌, arith, ensure, ◌>>◌, any, str_eq, ◌⊎◌, inl, inr,
  unwrap_or,
}
use subportal.Protocol.{
  Request, ping, open_uri, open_file, notify, confirm, notify_dismiss, generate_ticket,
  revoke_client, Response, pong, done, notify_delivered, ticket, SubportalError, not_supported,
}
use subportal.Protocol.Json.{Json}
use subportal.Protocol.Wire
use subportal.Protocol.Wire.{from_wire, error_to_wire, response_to_wire}
use subportal.Protocol.Codec.{to_value, from_value, param_str, request_fields}
use subportal.Protocol.Codec.RoundTrip
use subportal.Protocol.Codec.RoundTrip.{InRange, IsForeign}
use subportal.Router.{Outcome}
use subportal.Hub.Send
use subportal.Hub.Send.{reply}
use subportal.Local.Client.{
  Link, ClientError, protocol, received, inject_host, request_value, texts, text_list, delivered,
  parse_success, known_error, read_response, call,
}
use subportal.Local.Server.{PeerInfo, AcceptError, uid_mismatch, is_allowed, accept, respond}

-- A peer without a uid, of root, or of the server's own user.
abbrev pub is_trusted : ℕ → Option ℕ → Bool
is_trusted my_uid none = true
is_trusted my_uid (some uid) = (uid == 0) || (uid == my_uid)

is_allowed_lem :
    (my_uid : ℕ) (peer : PeerInfo) → is_allowed my_uid peer ≡ is_trusted my_uid peer.uid
unfolding is_allowed
is_allowed_lem my_uid peer = go peer.uid
  where
    go :
        (uid : Option ℕ)
        → (elim uid [ none ↦ true | some u ↦ not (not (u == 0) && not (u == my_uid)) ])
          ≡ is_trusted my_uid uid
    go none = refl
    go (some u) = ground arith

ensured :
    {A : Type 0} (b : Bool) (a : A) (e : AcceptError)
    → (ensure b e >> ok a) ≡ (if b then ok a else err e)
ensured true a e = refl
ensured false a e = refl

-- What a success response is for a request.
pub data Suits : Request → Response → Type 0 where
  for_ping :
      {capabilities : List String} {version : String} {clients : List String} {endpoint_id : String}
      → Suits ping (pong capabilities version clients endpoint_id)
  for_notify :
      {title : String} {body urgency icon : Option String} {id : String}
      → Suits (notify title body urgency icon) (notify_delivered id)
  for_ticket : {ttl : ℕ} {ticket_json : String} → Suits (generate_ticket ttl) (ticket ticket_json)
  for_uri : {uri : String} → Suits (open_uri uri) done
  for_file : {name mime content : String} → Suits (open_file name mime content) done
  for_confirm : {message : String} {title : Option String} → Suits (confirm message title) done
  for_dismiss : {id : String} → Suits (notify_dismiss id) done
  for_revoke : {name_or_id : String} → Suits (revoke_client name_or_id) done

-- An answer that the protocol has for the request: an error whose number fits a `u64`, or a success
-- response that suits it.
abbrev IsAnswer : Json → Request → Outcome → Type 0
IsAnswer j request (ok response) = Suits request response
IsAnswer j request (err e) = Wire.InRange j e

-- An outcome of the agent as the client returns it.
abbrev pub to_client : Outcome → Result Response ClientError
to_client (ok response) = ok response
to_client (err e) = err (protocol e)

module _ (j : Json) where
  open j use {Value, string, as_str, lookup}

  no_host : (r : Request) → lookup "host" (request_fields j r) ≡ none
  unfolding request_fields
  no_host ping = j.lookup-empty "host"
  no_host (open_uri uri) = simp (j.lookup-insert) (j.lookup-empty "host")
  no_host (open_file name mime content) = simp (j.lookup-insert) (j.lookup-empty "host")
  no_host (notify title body urgency icon) = simp (j.lookup-insert) (j.lookup-empty "host")
  no_host (confirm message title) = simp (j.lookup-insert) (j.lookup-empty "host")
  no_host (notify_dismiss id) = simp (j.lookup-insert) (j.lookup-empty "host")
  no_host (generate_ticket ttl) = simp (j.lookup-insert) (j.lookup-empty "host")
  no_host (revoke_client name_or_id) = simp (j.lookup-insert) (j.lookup-empty "host")

  param_str-to_value : (r : Request) → param_str j "host" (to_value j r) ≡ none
  unfolding param_str to_value
  param_str-to_value r = simp (j.as_object-object, j.lookup-insert) (rw (no_host r) refl)

  host : IsForeign "host"
  host = (
    refl,
    (refl, (refl, (refl, (refl, (refl, (refl, (refl, (refl, (refl, (refl, (refl, tt))))))))))),
  )

  accepted :
      (h : Option String) (r : Request)
      → InRange r
      → (from_value j (request_value j h r) ≡ some r)
        × (param_str j "host" (request_value j h r) ≡ h)
  unfolding request_value inject_host
  accepted none r i = (RoundTrip.from_value-to_value j r i, param_str-to_value r)
  accepted (some h) r i = (
    RoundTrip.from_value-inject j "host" (string h) (to_value j r) host
        ∙ RoundTrip.from_value-to_value j r i,
    RoundTrip.param_str-inject j "host" h r,
  )

  -- What a client sends is accepted by the server as the same request with the client's host, if the
  -- peer has no uid, that of root or that of the server, and is else rejected. The number that the
  -- request carries fits a `u64`.
  pub accept-request_value :
      (my_uid : ℕ) (peer : PeerInfo) (h : Option String) (r : Request)
      → InRange r
      → accept j my_uid peer (some (request_value j h r))
        ≡ (if is_trusted my_uid peer.uid then ok (r, h) else err uid_mismatch)
  unfolding accept
  accept-request_value my_uid peer h r i =
      rw (is_allowed_lem my_uid peer, (accepted h r i).0, (accepted h r i).1)
        (ensured (is_trusted my_uid peer.uid) (r, h) uid_mismatch)

  texts-map : (l : List String) → texts j (map string l) ≡ l
  unfolding texts
  texts-map [] = refl
  texts-map (s ∷ l) = rw (j.as_str-string s) (ap (◌∷◌ s) (texts-map l))

  read-response_to_wire :
      {request : Request} {response : Response}
      → Suits request response
      → read_response j request
          (response_to_wire j response).error
          (response_to_wire j response).parameters
        ≡ ok response
  unfolding read_response parse_success response_to_wire text_list delivered
  read-response_to_wire for_ping =
      simp (j.as_object-object, j.lookup-insert, j.as_array-array, j.as_str-string, texts-map) refl
  read-response_to_wire for_notify =
      simp (j.as_object-object, j.lookup-insert, j.as_str-string) refl
  read-response_to_wire for_ticket =
      simp (j.as_object-object, j.lookup-insert, j.as_str-string) refl
  read-response_to_wire for_uri = refl
  read-response_to_wire for_file = refl
  read-response_to_wire for_confirm = refl
  read-response_to_wire for_dismiss = refl
  read-response_to_wire for_revoke = refl

  read-error_to_wire :
      (request : Request) (e : SubportalError)
      → Wire.InRange j e
      → read_response j request (error_to_wire j e).error (error_to_wire j e).parameters
        ≡ err (protocol e)
  unfolding read_response known_error error_to_wire
  read-error_to_wire request e i = rw (Wire.from_wire-error_parameters j e i) refl

  -- A response that arrives is read.
  pub call-received :
      (link : Value → Link Value) (h : Option String) (request : Request)
      (resp : Wire.WireResponse Value)
      → link (request_value j h request) ≡ received resp
      → call j link h request ≡ read_response j request resp.error resp.parameters
  unfolding call
  call-received link h request resp e = rw (e, call) refl

  -- What the agent answers reaches the tool: a success that suits the request as itself, and an error,
  -- whose number fits a `u64`, as that error of the protocol.
  pub call-respond :
      (h : Option String) (request : Request) (o : Outcome)
      → IsAnswer j request o
      → call j (λ value. received (respond j o)) h request ≡ to_client o
  unfolding call respond
  call-respond h request (ok response) s = read-response_to_wire s
  call-respond h request (err e) i = read-error_to_wire request e i

  -- A response of a device or of the agent with an error id, whatever its parameters: if the id is one of
  -- the protocol's six, the agent and the tool read the same error, which has that id. Any other id is
  -- the error `NotSupported` for the tool, but a success where the agent reads it from a device.
  pub unknown_error_id :
      (h : Option String) (request : Request) (id : String) (parameters : Option Value)
      → ((e : SubportalError) × (any (str_eq id) (Wire.error_ids j) ≡ true)
          × (Wire.wire_id e ≡ id)
          × (call j
                (λ value. received (record { parameters = parameters; error = some id }))
                h
                request
              ≡ err (protocol e))
          × (reply j (Send.received (record { parameters = parameters; error = some id })) ≡ err e))
        ⊎ ((any (str_eq id) (Wire.error_ids j) ≡ false)
            × (call j
                  (λ value. received (record { parameters = parameters; error = some id }))
                  h
                  request
                ≡ err (protocol (not_supported "unknown")))
            × (reply j (Send.received (record { parameters = parameters; error = some id }))
                ≡ ok done))
  unfolding call read_response known_error reply
  unknown_error_id h request id parameters =
      elim (Wire.from_wire-cases j id (unwrap_or parameters (j.object j.empty))) [
        | inl (e, k, w, r) ↦ inl (e, k, w, rw r refl, rw r refl)
        | inr (k, r) ↦ inr (k, rw r refl, rw r refl)
      ]
