-- ===== src/Android/Connection/Changes.antt =====
-- What the app is told of a connection.
use subportal.Prelude.{
  String, ◌≡◌, refl, ◌∙◌, ap, Bool, true, false, Option, none, some, List, [], ◌∷◌, ◌++◌, Result,
  ok, err, if◌then◌else◌, ltb, Bool-cases, inl, inr, unwrap_or,
}
use subportal.Control.{ControlMessage, focus_update, dismiss_notification}
use subportal.Protocol.{
  max_file_size, Request, ping, open_uri, open_file, notify, confirm, notify_dismiss,
  generate_ticket, revoke_client,
}
use subportal.Protocol.Json.{Json}
use subportal.Peers.Servers.{ServerEntry}
use subportal.Desktop.Session.{ConnectError, connected}
use subportal.Android.Requests.{
  App, Call, on_open_uri, on_open_file, on_confirm, on_notify, on_dismiss_notification,
  on_connection_changed, handle_request, stream_request, handle_request_stream,
}
use subportal.Android.Session.{read_control_loop}
use subportal.Android.Connection.{Round, accept_loop}

-- The changes among the calls, in order.
abbrev pub changes : List Call → List (String × Bool)
changes [] = []
changes (on_connection_changed name connected ∷ calls) = (name, connected) ∷ changes calls
changes (on_open_uri uri host ∷ calls) = changes calls
changes (on_open_file name mime content host ∷ calls) = changes calls
changes (on_confirm message title host ∷ calls) = changes calls
changes (on_notify id title body urgency host ∷ calls) = changes calls
changes (on_dismiss_notification id ∷ calls) = changes calls

pub changes-append : (as' bs : List Call) → changes (as' ++ bs) ≡ changes as' ++ changes bs
changes-append [] bs = refl
changes-append (on_connection_changed name connected ∷ calls) bs =
    ap (◌∷◌ (name, connected)) (changes-append calls bs)
changes-append (on_open_uri uri host ∷ calls) bs = changes-append calls bs
changes-append (on_open_file name mime content host ∷ calls) bs = changes-append calls bs
changes-append (on_confirm message title host ∷ calls) bs = changes-append calls bs
changes-append (on_notify id title body urgency host ∷ calls) bs = changes-append calls bs
changes-append (on_dismiss_notification id ∷ calls) bs = changes-append calls bs

pub changes-read_control_loop : (msgs : List ControlMessage) → changes (read_control_loop msgs) ≡ []
unfolding read_control_loop
changes-read_control_loop [] = refl
changes-read_control_loop (focus_update state ∷ msgs) = changes-read_control_loop msgs
changes-read_control_loop (dismiss_notification id ∷ msgs) = changes-read_control_loop msgs

-- Whether an attempt comes to a session.
abbrev pub is_session : Result String ConnectError → Bool
is_session (ok host) = true
is_session (err e) = false

module _ (app : App) (j : Json) where
  changes-handle_request :
      (r : Request) (host : String) (id : Option String)
      → changes (handle_request app r host id).1 ≡ []
  unfolding handle_request
  changes-handle_request ping host id = refl
  changes-handle_request (open_uri uri) host id = refl
  changes-handle_request (open_file name mime content) host id =
      elim (Bool-cases (ltb max_file_size (unwrap_or (app.decoded_len content) 0))) [
        | inl e ↦ rw e refl
        | inr e ↦ rw e refl
      ]
  changes-handle_request (notify title body urgency icon) host id = refl
  changes-handle_request (notify_dismiss nid) host id = refl
  changes-handle_request (confirm message title) host id = refl
  changes-handle_request (generate_ticket ttl) host id = refl
  changes-handle_request (revoke_client name_or_id) host id = refl

  changes-stream_request :
      (host : String) (id : Option String) (o : Option Request)
      → changes (stream_request app j host id o).1 ≡ []
  unfolding stream_request
  changes-stream_request host id none = refl
  changes-stream_request host id (some request) = changes-handle_request request host id

  pub changes-accept_loop :
      (host : String) (values : List j.Value) → changes (accept_loop app j host values).1 ≡ []
  unfolding accept_loop handle_request_stream
  changes-accept_loop host [] = refl
  changes-accept_loop host (value ∷ values) =
      changes-append (handle_request_stream app j host value).1 (accept_loop app j host values).1
      ∙ rw (changes-stream_request host _ _, changes-accept_loop host values) refl

  -- What a round tells of a server.
  abbrev pub told_of : ServerEntry → Round app j → List (String × Bool)
  told_of server round =
      if is_session (connected round.attempt)
      then (server.name, true) ∷ (server.name, false) ∷ []
      else (server.name, false) ∷ []

  abbrev pub told : ServerEntry → List (Round app j) → List (String × Bool)
  told server [] = []
  told server (round ∷ rounds) = told_of server round ++ told server rounds
