-- ===== src/Desktop/Session.antt =====
-- A connection of the desktop client to a server: `connect_to_server`, `handle_request_stream` and
-- `read_control_loop` of crates/subportal-desktop/src/main.rs. What the network does is an input. The
-- state is the map of shown notifications, and what happens is the responses and the notifications that
-- are closed.
pub mod Dismissal
use subportal.Prelude.{
  ℕ, String, Bool, true, false, Option, none, some, List, [], ◌∷◌, ◌++◌, Result, ok, err, ensure,
  or_err, ◌>>=◌, ◌>>◌,
}
use subportal.Prelude.Table.{Table}
use subportal.Control.{ClientHello, ServerHello, ControlMessage, focus_update, dismiss_notification}
use subportal.Protocol.{Request}
use subportal.Protocol.Json.{Json}
use subportal.Protocol.Codec.{from_value, param_str}
use subportal.Hub.Send.{Exchange, recv_failed, received}
use subportal.Local.Server.{respond}
use subportal.Desktop.Handler
use subportal.Desktop.Handler.{Portal, capabilities, handle}

-- The hello of a reconnection, and that of an enrollment.
abbrev pub hello_with_token : String → String → Option String → ClientHello
hello_with_token hostname os token = record {
  name = hostname;
  capabilities = capabilities;
  platform = os;
  token = token;
}

-- What a dismissal closes, in front of what is closed later.
closed_first : Option ℕ → List ℕ → List ℕ
closed_first none later = later
closed_first (some dbus_id) later = dbus_id ∷ later

-- The messages up to the end of the control stream: the D-Bus notifications that are closed, in order,
-- and the map behind them.
unfoldable pub read_control_loop : List ControlMessage → Table ℕ → List ℕ × Table ℕ
unfolding closed_first Handler.dismiss_notification
read_control_loop [] map = ([], map)
read_control_loop (focus_update state ∷ msgs) map = read_control_loop msgs map
read_control_loop (dismiss_notification id ∷ msgs) map =
    let here = Handler.dismiss_notification id map in
    let later = read_control_loop msgs here.1 in (closed_first here.0 later.0, later.1)

-- How an attempt to connect goes: the ticket's texts are an address, a connection and a stream are
-- opened, the hello is written, and perhaps an answer arrives.
pub record Attempt : Type 0 where
  pub has_address : Bool
  pub connects : Bool
  pub opens_stream : Bool
  pub writes_hello : Bool
  pub answer : Option ServerHello

pub data ConnectError : Type 0 where
  bad_address connect_failed no_stream hello_not_written no_answer not_enrolled : ConnectError

-- The way to a session with the server, whose host name is that of its hello.
unfoldable pub connected : Attempt → Result String ConnectError
connected a =
    ensure a.has_address bad_address
    >> (ensure a.connects connect_failed
        >> (ensure a.opens_stream no_stream
            >> (ensure a.writes_hello hello_not_written
                >> (or_err a.answer no_answer >>= λ server_hello.
                    ensure server_hello.enrolled not_enrolled >> ok server_hello.hostname))))

module _ (j : Json) (portal : Portal) where
  open j use {Value}

  unfoldable pub stream_request :
      String → Option String → Option Request → Table ℕ → Exchange Value × Table ℕ
  unfolding handle respond
  stream_request host id none map = (recv_failed, map)
  stream_request host id (some request) map =
      let (outcome, map') = handle portal request (some host) id map in
      (received (respond j outcome), map')

  -- What the other end of the stream sees: a value that is no request ends the stream without a response.
  unfoldable pub handle_request_stream : String → Value → Table ℕ → Exchange Value × Table ℕ
  unfolding stream_request
  handle_request_stream host value map =
      stream_request host (param_str j "notification_id" value) (from_value j value) map

  -- The streams that are accepted, up to the end of the connection, one after the other.
  unfoldable pub accept_loop : String → List Value → Table ℕ → List (Exchange Value) × Table ℕ
  unfolding handle_request_stream
  accept_loop host [] map = ([], map)
  accept_loop host (value ∷ values) map =
      let (reply, map') = handle_request_stream host value map in
      let later = accept_loop host values map' in (reply ∷ later.0, later.1)

  in_session :
      List Value
      → Table ℕ
      → Result String ConnectError
      → Result (List (Exchange Value)) ConnectError × Table ℕ
  unfolding accept_loop
  in_session values map (err e) = (err e, map)
  in_session values map (ok host) =
      let (replies, map') = accept_loop host values map in (ok replies, map')

  unfoldable pub connect_to_server :
      Attempt → List Value → Table ℕ → Result (List (Exchange Value)) ConnectError × Table ℕ
  unfolding in_session connected
  connect_to_server attempt values map = in_session values map (connected attempt)
