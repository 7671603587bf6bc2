-- ===== src/Android/Session.antt =====
-- The connections of the Android client: crates/subportal-android-core/src/lib.rs. A task that serves a
-- connection is known by the entry that it was started for.
pub mod Reload
use mathlib.Core.Option
use subportal.Prelude.{
  ℕ, String, Bool, true, false, not, Option, none, some, List, [], ◌∷◌, map, filter, any, Result,
  ok, err, str_eq, unwrap_or, if◌then◌else◌,
}
use subportal.Prelude.Table
use subportal.Prelude.Table.{Table, keys}
use subportal.Control.{ClientHello, ServerHello, ControlMessage, focus_update, dismiss_notification}
use subportal.Peers.Registry.{RegistryError, SaveIo, FileFormat}
use subportal.Peers.Servers
use subportal.Peers.Servers.{ServerEntry, ServerRegistry}
use subportal.Ticket.{Ticket}
use subportal.Android.Requests.{capabilities, Call, on_dismiss_notification, on_connection_changed}

-- The hello of `connect_to_server`, and that of `enroll_async`.
abbrev pub hello_with_token : String → Option String → ClientHello
hello_with_token device_name token = record {
  name = device_name;
  capabilities = capabilities;
  platform = "android";
  token = token;
}

abbrev reconnect_hello : String → ClientHello
reconnect_hello device_name = hello_with_token device_name none

abbrev pub enroll_hello : String → Ticket → ClientHello
enroll_hello device_name ticket = hello_with_token device_name (some ticket.token)

abbrev pub server_entry : ℕ → Ticket → ServerEntry
server_entry now ticket = record {
  endpoint_id = ticket.endpoint_id;
  name = ticket.hostname;
  addrs = ticket.addrs;
  relay_url = ticket.relay_url;
  enrolled_at = now;
}

-- The ways in which an enrollment fails: no answer, a refusal, or the registry.
pub data EnrollError : Type 0 where
  unreachable rejected : EnrollError
  registry : RegistryError → EnrollError

unfoldable pub stored :
    String
    → Result (Unit {0}) RegistryError × ServerRegistry
    → Result String EnrollError × ServerRegistry
stored hostname (ok u, r) = (ok hostname, r)
stored hostname (err e, r) = (err (registry e), r)

-- The end of `enroll_async`, from the answer of the server on: the registry is loaded, and gets the entry.
unfoldable pub enroll :
    FileFormat ServerEntry
    → SaveIo
    → ℕ
    → Ticket
    → Option ServerHello
    → ServerRegistry
    → Result String EnrollError × ServerRegistry
unfolding stored Servers.add
enroll format io now ticket none r = (err unreachable, r)
enroll format io now ticket (some answer) r =
    if answer.enrolled
    then stored ticket.hostname (Servers.add format io (server_entry now ticket) r)
    else (err rejected, r)

-- The messages up to the end of the control stream, as calls of the app.
unfoldable pub read_control_loop : List ControlMessage → List Call
read_control_loop [] = []
read_control_loop (dismiss_notification id ∷ msgs) =
    on_dismiss_notification id ∷ read_control_loop msgs
read_control_loop (focus_update state ∷ msgs) = read_control_loop msgs

unfoldable pub set_connection_state : String → String → Bool → Table Bool → Table Bool × List Call
set_connection_state endpoint_id server_name connected map =
    (Table.insert endpoint_id connected map, on_connection_changed server_name connected ∷ [])

-- `struct ServerInfo`
pub record ServerInfo : Type 0 where
  pub id : String
  pub name : String
  pub connected : Bool
  pub enrolled_at : ℕ

unfoldable list_servers : List ServerEntry → Table Bool → List ServerInfo
list_servers servers connected =
    map
      (λ s. record {
        id = s.endpoint_id;
        name = s.name;
        connected = unwrap_or (Table.get s.endpoint_id connected) false;
        enrolled_at = s.enrolled_at;
      })
      servers

-- `new_ids.contains(id)`
abbrev pub has_server : String → List ServerEntry → Bool
has_server id servers = any (λ s. str_eq s.endpoint_id id) servers

abbrev aborted : Option ServerEntry → List ServerEntry → List ServerEntry
aborted none rest = rest
aborted (some h) rest = h ∷ rest

-- The loop that ends the connections of departed servers.
unfoldable stop_all : List String → Table ServerEntry → Table ServerEntry × List ServerEntry
stop_all [] active = (active, [])
stop_all (id ∷ ids) active =
    let rest = stop_all ids (Table.remove id active) in
    (rest.0, aborted (Table.get id active) rest.1)

-- The loop that starts a connection to each new server.
unfoldable start_all : List ServerEntry → Table ServerEntry → Table ServerEntry
start_all [] active = active
start_all (server ∷ servers) active =
    let started = start_all servers (Table.insert server.endpoint_id server active) in
    let same = start_all servers active in
    if Table.contains_key server.endpoint_id active then same else started

-- The tasks that serve a connection afterwards, and those that were ended.
unfoldable pub reload_servers :
    List ServerEntry → Table ServerEntry → Table ServerEntry × List ServerEntry
unfolding stop_all start_all
reload_servers servers active =
    let to_remove = filter (λ id. not (has_server id servers)) (keys active) in
    let stopped = stop_all to_remove active in (start_all servers stopped.0, stopped.1)
