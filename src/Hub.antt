-- ===== src/Hub.antt =====
-- The hub of the agent: crates/subportal/src/hub.rs. A connection is a number, and the connections that
-- an operation closes are part of its answer. A control channel is what has been put into it.
pub mod Invariant
pub mod Spent
pub mod Tokens
pub mod Revoke
pub mod Send
pub mod Sample
pub mod Ping
pub mod Numbers
mod Tests
use Prim.Native.String.{◌++◌ as str_append}
use mathlib.Core.Option
use subportal.Prelude.{
  ℕ, ◌+◌, ◌^◌, ◌%◌, String, str_eq, Bool, true, false, not, ◌||◌, Option, none, some, List, [], ◌∷◌,
  ◌++◌, map, filter, any, if◌then◌else◌, Result, ok, err,
}
use subportal.Prelude.Order.{cmp_str}
use subportal.Prelude.Sort.{sort_by}
use subportal.Prelude.Table
use subportal.Prelude.Table.{Table, values}
use subportal.Prelude.Decimal.{to_decimal}
use subportal.Control.{FocusState, active, idle, ControlMessage, dismiss_notification}
use subportal.Protocol.{
  version, Request, ping, notify_dismiss, generate_ticket, revoke_client, Response, pong, done,
  ticket, SubportalError, not_found,
}
use subportal.Peers.Registry.{RegistryError, SaveIo, FileFormat}
use subportal.Peers.Clients
use subportal.Peers.Clients.{ClientEntry, ClientRegistry}
use subportal.Peers.Token
use subportal.Peers.Token.{ℤ, PendingToken, is_expired}
use subportal.Ticket.{Ticket}
use subportal.Router.{ClientInfo, Outcome}

-- `mpsc::Sender<ControlMessage>`: whether the receiver is still there, and what was sent. A sender
-- that waits for room goes on when the writer task has taken a message out.
pub record Channel : Type 0 where
  pub is_open : Bool
  pub sent : List ControlMessage

-- `struct ConnectedClient`
pub record ConnectedClient : Type 0 where
  pub endpoint_id : String
  pub name : String
  pub platform : String
  pub connection : ℕ
  pub focus : FocusState
  pub capabilities : List String
  pub last_active : ℕ
  pub control_tx : Channel

-- `iroh::TransportAddr`, which has further variants that the agent passes over.
pub data TransportAddr : Type 0 where
  relay ip : String → TransportAddr
  other : TransportAddr

-- `struct Hub`. Of the endpoint it uses its id and its addresses.
pub record Hub : Type 0 where
  pub clients : Table ConnectedClient
  pub registry : ClientRegistry
  pub pending_notifications : Table (List String)
  pub pending_tokens : List PendingToken
  pub endpoint_id : String
  pub endpoint_addrs : List TransportAddr
  pub hostname : String
  pub notification_counter : ℕ

unfoldable pub new : ClientRegistry → String → List TransportAddr → String → Hub
new registry endpoint_id endpoint_addrs hostname = record {
  clients = [];
  registry = registry;
  pending_notifications = [];
  pending_tokens = [];
  endpoint_id = endpoint_id;
  endpoint_addrs = endpoint_addrs;
  hostname = hostname;
  notification_counter = 0;
}

unfoldable pub add_client : ConnectedClient → Hub → Hub
add_client client hub = record hub { clients = Table.insert client.endpoint_id client hub.clients }

unfoldable pub remove_client : String → Hub → Hub
remove_client endpoint_id hub = record hub { clients = Table.remove endpoint_id hub.clients }

-- The body of `update_focus`, at the time `now`.
abbrev pub set_focus : ℕ → FocusState → ConnectedClient → ConnectedClient
set_focus now active c = record c { last_active = now; focus = active }
set_focus now idle c = record c { focus = idle }

unfoldable pub update_focus : ℕ → String → FocusState → Hub → Hub
update_focus now endpoint_id state hub = record hub {
  clients = Table.modify endpoint_id (set_focus now state) hub.clients;
}

-- The counter is a `u64`.
unfoldable pub next_notification_id : Hub → String × Hub
next_notification_id hub =
    let n = (hub.notification_counter + 1) % 2 ^ 64 in
    (str_append "n" (to_decimal n), record hub { notification_counter = n })

abbrev pub client_info : ConnectedClient → ClientInfo
client_info c = record {
  endpoint_id = c.endpoint_id;
  focus = c.focus;
  capabilities = c.capabilities;
  platform = c.platform;
  last_active = c.last_active;
}

unfoldable pub client_infos : Hub → List ClientInfo
client_infos hub = map client_info (values hub.clients)

-- `control_tx.send(msg)`: on a closed channel the error is only logged.
abbrev pub send_control : ControlMessage → ConnectedClient → ConnectedClient
send_control msg c =
    if c.control_tx.is_open
    then record c { control_tx = record { is_open = true; sent = c.control_tx.sent ++ (msg ∷ []) } }
    else c

abbrev pub is_exempt : Option String → String → Bool
is_exempt none eid = false
is_exempt (some e) eid = str_eq e eid

-- The loop of `broadcast_dismiss` over the clients.
unfoldable pub dismiss_all :
    ControlMessage → Option String → Table ConnectedClient → Table ConnectedClient
dismiss_all msg except [] = []
dismiss_all msg except ((eid, client) ∷ t) =
    (eid, if is_exempt except eid then client else send_control msg client)
    ∷ dismiss_all msg except t

unfoldable pub broadcast_dismiss : String → Option String → Hub → Hub
unfolding dismiss_all
broadcast_dismiss notification_id except hub = record hub {
  clients = dismiss_all (dismiss_notification notification_id) except hub.clients;
}

-- Expired tokens are dropped first; a valid token is used up.
unfoldable pub consume_token : ℕ → String → Hub → Bool × Hub
unfolding is_expired
consume_token now token hub =
    let live = filter (λ t. not (is_expired now t)) hub.pending_tokens in
    let valid = any (λ t. str_eq t.token token) live in
    (
      valid,
      record hub {
        pending_tokens = if valid then filter (λ t. not (str_eq t.token token)) live else live;
      },
    )

-- The loop over the addresses: the last relay, and all sockets in order.
abbrev collect_addrs :
    List TransportAddr → Option String → List String → Option String × List String
collect_addrs [] relay_url addrs = (relay_url, addrs)
collect_addrs (relay url ∷ as') relay_url addrs = collect_addrs as' (some url) addrs
collect_addrs (ip sock ∷ as') relay_url addrs = collect_addrs as' relay_url (addrs ++ (sock ∷ []))
collect_addrs (other ∷ as') relay_url addrs = collect_addrs as' relay_url addrs

unfoldable pub make_ticket : Hub → PendingToken → Ticket
make_ticket hub token =
    let (relay_url, addrs) = collect_addrs hub.endpoint_addrs none [] in
    record {
      endpoint_id = hub.endpoint_id;
      addrs = addrs;
      relay_url = relay_url;
      token = token.token;
      hostname = hub.hostname;
    }

-- What a request needs besides the hub: the clock, a fresh token text, the arithmetic of `chrono`, the
-- ticket's JSON text, the format of the registry's file and the end of a write to it.
pub record Env : Type 0 where
  pub now : ℕ
  pub fresh_token : String
  pub plus_seconds : ℕ → ℤ → Option ℕ
  pub to_json : Ticket → String
  pub format : FileFormat ClientEntry
  pub io : SaveIo

-- The new hub, the answer and the connections that were closed.
abbrev pub Answer : Type 0
Answer = Outcome × Hub × List ℕ

-- `|c| c.endpoint_id == name_or_id || c.name == name_or_id`
abbrev is_named_by : String → ConnectedClient → Bool
is_named_by name_or_id c = str_eq c.endpoint_id name_or_id || str_eq c.name name_or_id

close_found : Option ConnectedClient → List ℕ → List ℕ
close_found none closed = closed
close_found (some c) closed = c.connection ∷ closed

-- The loop that disconnects: `remove` on an absent key leaves the map alone.
disconnect : List String → Table ConnectedClient → Table ConnectedClient × List ℕ
unfolding close_found
disconnect [] t = (t, [])
disconnect (eid ∷ eids) t =
    let rest = disconnect eids (Table.remove eid t) in
    (rest.0, close_found (Table.get eid t) rest.1)

to_disconnect : String → Table ConnectedClient → List String
to_disconnect name_or_id t = map (λ c. c.endpoint_id) (filter (is_named_by name_or_id) (values t))

revoke_removed : String → Hub → Result Bool RegistryError × ClientRegistry → Answer
unfolding disconnect to_disconnect
revoke_removed name_or_id hub (err e, r) = (
  err (not_found (str_append "failed to update registry for '" (str_append name_or_id "'"))),
  record hub { registry = r },
  [],
)
revoke_removed name_or_id hub (ok false, r) = (
  err (not_found (str_append "no client matching '" (str_append name_or_id "'"))),
  record hub { registry = r },
  [],
)
revoke_removed name_or_id hub (ok true, r) =
    let gone = disconnect (to_disconnect name_or_id hub.clients) hub.clients in
    (ok done, record hub { registry = r; clients = gone.0 }, gone.1)

-- `Vec::dedup`: of equal neighbours the first stays.
dedup_from : String → List String → List String
dedup_from x [] = x ∷ []
dedup_from x (y ∷ ys) =
    let same = dedup_from x ys in
    let differ = x ∷ dedup_from y ys in if str_eq x y then same else differ

dedup : List String → List String
unfolding dedup_from
dedup [] = []
dedup (x ∷ xs) = dedup_from x xs

all_capabilities : List ConnectedClient → List String
all_capabilities [] = []
all_capabilities (c ∷ cs) = c.capabilities ++ all_capabilities cs

module _ (env : Env) where
  open env use {now, fresh_token, plus_seconds, to_json, format, io}

  -- `none` is the panic of `PendingToken::generate`, which ends the task of this request.
  unfoldable pub generate_ticket_for : ℕ → Hub → Option Answer
  unfolding make_ticket Token.generate
  generate_ticket_for ttl hub =
      Option.map
        (λ token. (
          ok (ticket (to_json (make_ticket hub token))),
          record hub { pending_tokens = hub.pending_tokens ++ (token ∷ []) },
          [],
        ))
        (Token.generate plus_seconds now fresh_token ttl)

  unfoldable pub revoke : String → Hub → Answer
  unfolding revoke_removed
  revoke name_or_id hub =
      revoke_removed name_or_id hub (Clients.remove format io name_or_id hub.registry)

  unfoldable pub handle_direct : Request → Hub → Option Answer
  unfolding dedup all_capabilities
  handle_direct ping hub = some (
    ok (
        pong (dedup (sort_by cmp_str (all_capabilities (values hub.clients)))) version
          (sort_by cmp_str (map (λ c. c.name) (values hub.clients))) hub.endpoint_id),
    hub,
    [],
  )
  handle_direct (notify_dismiss id) hub = some (ok done, broadcast_dismiss id none hub, [])
  handle_direct (generate_ticket ttl) hub = generate_ticket_for ttl hub
  handle_direct (revoke_client name_or_id) hub = some (revoke name_or_id hub)
  handle_direct _ hub = some (ok done, hub, [])
