-- ===== src/Agent/Handshake.antt =====
-- A device's connection: `handle_iroh_connection` of crates/subportal/src/agent.rs, section by section,
-- and `enroll_client` of enrollment.rs.
pub mod Admission
pub mod Lifecycle
pub mod Reuse
pub mod Revocation
use subportal.Prelude.{
  ℕ, String, Bool, true, false, Option, none, some, List, [], ◌∷◌, Result, ok, err,
}
use subportal.Control.{
  active, ClientHello, ServerHello, ControlMessage, focus_update, dismiss_notification,
}
use subportal.Peers.Registry.{RegistryError}
use subportal.Peers.Clients
use subportal.Peers.Clients.{ClientEntry, ClientRegistry, find_by_id}
use subportal.Hub.{
  Hub, Env, add_client, remove_client, update_focus, broadcast_dismiss, consume_token,
}

unfoldable pub enroll_client : ℕ → String → String → List String → ClientEntry
enroll_client now endpoint_id name capabilities = record {
  endpoint_id = endpoint_id;
  name = name;
  enrolled_at = now;
  last_seen = some now;
  capabilities = capabilities;
}

-- How the handshake ends: with a refusal, without an answer since the registry could not be saved, or
-- with a welcome. A refusal and a welcome write a `ServerHello`.
pub data Handshake : Type 0 where
  refused : ServerHello → Handshake
  unsaved : Handshake
  welcomed : ServerHello → Handshake

abbrev pub server_hello : Bool → Hub → ServerHello
server_hello enrolled hub = record { hostname = hub.hostname; enrolled = enrolled }

unfoldable pub enrolled_saved :
    Hub → Result (Unit {0}) RegistryError × ClientRegistry → Handshake × Hub
enrolled_saved hub (ok u, r) = (welcomed (server_hello true hub), record hub { registry = r })
enrolled_saved hub (err e, r) = (unsaved, record hub { registry = r })

unfoldable pub enroll : Env → String → ClientHello → Bool × Hub → Handshake × Hub
unfolding enrolled_saved enroll_client Clients.add
enroll env remote hello (false, hub) = (refused (server_hello false hub), hub)
enroll env remote hello (true, hub) = enrolled_saved hub (
    Clients.add env.format env.io (enroll_client env.now remote hello.name hello.capabilities)
      hub.registry)

unfoldable pub reconnect : Option ClientEntry → Hub → Handshake × Hub
reconnect none hub = (refused (server_hello false hub), hub)
reconnect (some e) hub = (welcomed (server_hello true hub), hub)

unfoldable pub check_token : Env → String → ClientHello → Option String → Hub → Handshake × Hub
unfolding enroll reconnect consume_token find_by_id
check_token env remote hello none hub = reconnect (find_by_id remote hub.registry) hub
check_token env remote hello (some token) hub =
    enroll env remote hello (consume_token env.now token hub)

-- The section that validates an enrollment or a reconnection.
unfoldable pub check_hello : Env → String → ClientHello → Hub → Handshake × Hub
unfolding check_token
check_hello env remote hello hub = check_token env remote hello hello.token hub

-- The section that registers the connected client; the end of the registry's write is passed over.
unfoldable pub join_hub : Env → String → ClientHello → ℕ → Hub → Hub
unfolding add_client Clients.touch
join_hub env remote hello connection hub =
    let added =
      add_client
        (record {
          endpoint_id = remote;
          name = hello.name;
          platform = hello.platform;
          connection = connection;
          focus = active;
          capabilities = hello.capabilities;
          last_active = env.now;
          control_tx = record { is_open = true; sent = [] };
        })
        hub in
    record added {
      registry =
          (Clients.touch env.format env.io env.now remote hello.capabilities added.registry).1;
    }

-- The body of the loop that reads control messages.
unfoldable pub on_control : ℕ → String → ControlMessage → Hub → Hub
unfolding update_focus broadcast_dismiss
on_control now remote (focus_update state) hub = update_focus now remote state hub
on_control now remote (dismiss_notification id) hub = broadcast_dismiss id (some remote) hub

-- The loop, up to the end of the control stream: the messages with the times at which they arrive.
unfoldable pub control_loop : String → List (ℕ × ControlMessage) → Hub → Hub
unfolding on_control
control_loop remote [] hub = hub
control_loop remote ((now, msg) ∷ msgs) hub =
    control_loop remote msgs (on_control now remote msg hub)

unfoldable pub after_check :
    Env
    → String
    → ClientHello
    → ℕ
    → List (ℕ × ControlMessage)
    → Handshake × Hub
    → Option ServerHello × Hub
unfolding join_hub control_loop remove_client
after_check env remote hello connection msgs (refused answer, hub) = (some answer, hub)
after_check env remote hello connection msgs (unsaved, hub) = (none, hub)
after_check env remote hello connection msgs (welcomed answer, hub) = (
  some answer,
  remove_client remote (control_loop remote msgs (join_hub env remote hello connection hub)),
)

-- The whole handler, where no other task takes the lock in between and the `ServerHello` is written:
-- the `ServerHello`, and the hub behind it.
unfoldable pub handle_iroh_connection :
    Env → String → ClientHello → ℕ → List (ℕ × ControlMessage) → Hub → Option ServerHello × Hub
unfolding after_check
handle_iroh_connection env remote hello connection msgs hub =
    after_check env remote hello connection msgs (check_hello env remote hello hub)
