-- ===== src/Android/Requests.antt =====
-- `handle_request` and `handle_request_stream` of crates/subportal-android-core/src/lib.rs.
use subportal.Prelude.{
  ℕ, String, Bool, true, false, Option, none, some, List, [], ◌∷◌, ok, err, ltb, unwrap_or,
  if◌then◌else◌,
}
use subportal.Protocol.{
  version, max_file_size, Request, ping, open_uri, open_file, notify, confirm, notify_dismiss,
  generate_ticket, revoke_client, pong, done, user_denied, no_decision, not_supported,
  file_too_large,
}
use subportal.Protocol.Json.{Json}
use subportal.Protocol.Codec.{from_value, param_str}
use subportal.Router.{Outcome}
use subportal.Hub.Send.{Exchange, recv_failed, received}
use subportal.Local.Server.{respond}

-- `const CAPABILITIES`
abbrev pub capabilities : List String
capabilities = "OpenURI" ∷ "OpenFile" ∷ "Notify" ∷ "Confirm" ∷ []

-- `enum ConfirmDecision`
pub data ConfirmDecision : Type 0 where
  approved denied undecided : ConfirmDecision

-- `trait SubportalCallback`: the calls that can be made of the app.
pub data Call : Type 0 where
  on_open_uri : (uri host : String) → Call
  on_open_file : (name mime content host : String) → Call
  on_confirm : (message : String) (title : Option String) (host : String) → Call
  on_notify : (id title : String) (body urgency : Option String) (host : String) → Call
  on_dismiss_notification : (id : String) → Call
  on_connection_changed : (server_name : String) (connected : Bool) → Call

-- What the app answers to the calls that have an answer, and the length that a base64 text decodes to.
pub record App : Type 0 where
  pub opens_uri : String → String → Bool
  pub opens_file : String → String → String → String → Bool
  pub confirms : String → Option String → String → ConfirmDecision
  pub decoded_len : String → Option ℕ

unfoldable pub decision_outcome : ConfirmDecision → Outcome
decision_outcome approved = ok done
decision_outcome denied = err user_denied
decision_outcome undecided = err no_decision

-- `if handled { Ok(Response::Ok) } else { Err(UserDenied) }`
abbrev pub handled : Bool → Outcome
handled true = ok done
handled false = err user_denied

module _ (app : App) where
  -- The outcome, and the calls that are made of the app.
  unfoldable pub handle_request : Request → String → Option String → Outcome × List Call
  unfolding decision_outcome
  handle_request ping host id = (ok (pong capabilities version [] ""), [])
  handle_request (open_uri uri) host id =
      (handled (app.opens_uri uri host), on_open_uri uri host ∷ [])
  handle_request (open_file name mime content) host id =
      if ltb max_file_size (unwrap_or (app.decoded_len content) 0)
      then (err (file_too_large max_file_size), [])
      else (
        handled (app.opens_file name mime content host),
        on_open_file name mime content host ∷ [],
      )
  handle_request (notify title body urgency icon) host id =
      (ok done, on_notify (unwrap_or id "") title body urgency host ∷ [])
  handle_request (notify_dismiss nid) host id = (ok done, on_dismiss_notification nid ∷ [])
  handle_request (confirm message title) host id =
      (decision_outcome (app.confirms message title host), on_confirm message title host ∷ [])
  handle_request (generate_ticket ttl) host id = (err (not_supported "GenerateTicket"), [])
  handle_request (revoke_client name_or_id) host id = (err (not_supported "RevokeClient"), [])

  module _ (j : Json) where
    open j use {Value}

    unfoldable pub stream_request :
        String → Option String → Option Request → Exchange Value × List Call
    unfolding handle_request respond
    stream_request host id none = (recv_failed, [])
    stream_request host id (some request) =
        let (outcome, calls) = handle_request request host id in
        (received (respond j outcome), calls)

    -- What the other end of the stream sees, where both directions of the stream work: a value that is
    -- no request ends the task, and with it the stream, without a response.
    unfoldable pub handle_request_stream : String → Value → Exchange Value × List Call
    unfolding stream_request
    handle_request_stream host value =
        stream_request host (param_str j "notification_id" value) (from_value j value)
