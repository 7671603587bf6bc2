-- ===== src/Android/Connection.antt =====
-- A connection of the Android client: `connect_to_server` of crates/subportal-android-core/src/lib.rs, which
-- connects like that of the desktop client, and the loop of `spawn_server_connection` around it. What the
-- tasks of a session do is put into one order: the control messages, and then the requests.
pub mod Changes
pub mod Loop
use subportal.Prelude.{
  String, Bool, true, false, Option, none, some, List, [], ◌∷◌, ◌++◌, Result, ok, err,
}
use subportal.Prelude.Table.{Table}
use subportal.Control.{ControlMessage}
use subportal.Protocol.Json.{Json}
use subportal.Hub.Send.{Exchange}
use subportal.Peers.Servers.{ServerEntry}
use subportal.Desktop.Session.{Attempt, ConnectError, connected}
use subportal.Android.Requests.{App, Call, handle_request_stream}
use subportal.Android.Session.{read_control_loop, set_connection_state}

module _ (app : App) (j : Json) where
  open j use {Value}

  -- A round of the loop: how the attempt goes, and what arrives in the session behind it.
  pub record Round : Type 0 where
    pub attempt : Attempt
    pub messages : List ControlMessage
    pub requests : List Value

  -- The streams that are accepted, up to the end of the connection.
  unfoldable pub accept_loop : String → List Value → List (Exchange Value) × List Call
  unfolding handle_request_stream
  accept_loop host [] = ([], [])
  accept_loop host (value ∷ values) =
      let (reply, calls) = handle_request_stream app j host value in
      let later = accept_loop host values in (reply ∷ later.0, calls ++ later.1)

  unfoldable pub in_session :
      ServerEntry
      → Round
      → Table Bool
      → Result String ConnectError
      → Result (List (Exchange Value)) ConnectError × Table Bool × List Call
  unfolding accept_loop set_connection_state read_control_loop
  in_session server round map (err e) = (err e, map, [])
  in_session server round map (ok host) =
      let (map', calls) = set_connection_state server.endpoint_id server.name true map in
      let (replies, asked) = accept_loop host round.requests in
      (ok replies, map', calls ++ (read_control_loop round.messages ++ asked))

  unfoldable pub connect_to_server :
      ServerEntry
      → Round
      → Table Bool
      → Result (List (Exchange Value)) ConnectError × Table Bool × List Call
  unfolding in_session connected
  connect_to_server server round map = in_session server round map (connected round.attempt)

  -- The loop of a connection's task, in the rounds up to the time at which it is looked at or aborted.
  unfoldable pub spawn_server_connection :
      ServerEntry → List Round → Table Bool → Table Bool × List Call
  unfolding connect_to_server set_connection_state
  spawn_server_connection server [] map = (map, [])
  spawn_server_connection server (round ∷ rounds) map =
      let (result, there, calls) = connect_to_server server round map in
      let (gone, told) = set_connection_state server.endpoint_id server.name false there in
      let later = spawn_server_connection server rounds gone in
      (later.0, calls ++ (told ++ later.1))
