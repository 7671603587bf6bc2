-- ===== src/Agent/Run.antt =====
-- The start of the agent: `run` of crates/subportal/src/agent.rs up to the accept loops. The endpoint's id is a
-- function of its key, and whether the endpoint binds, with its addresses, is an input.
pub mod Restart
mod Tests
use subportal.Prelude.{ℕ, String, Bool, true, false, Option, none, some, List, Result, ok, err}
use subportal.Keypair.{KeyFile, Io, KeyError, load_or_generate_keypair}
use subportal.Local.Socket.{Environment, BindIo, BindError, Sockets, bind_default, drop_server}
use subportal.Peers.Registry.{FileFormat, RegistryError}
use subportal.Peers.Clients
use subportal.Peers.Clients.{ClientEntry, ClientRegistry}
use subportal.Hub.{Hub, TransportAddr, new}

-- What the agent finds and leaves: the key file, the text of the registry's file, and the socket files.
pub record Disk : Type 0 where
  pub key : KeyFile
  pub registry : Option String
  pub sockets : Sockets

-- How a start goes. The url is that of a custom relay, with whether it parses.
pub record Start : Type 0 where
  pub key_io : Io
  pub reads_registry : Bool
  pub bind_io : BindIo
  pub server : ℕ
  pub relay_url : Option (String × Bool)
  pub endpoint_addrs : Option (List TransportAddr)
  pub hostname : String

pub data StartError : Type 0 where
  no_key no_registry no_socket bad_relay no_endpoint : StartError

abbrev relay_parses : Option (String × Bool) → Bool
relay_parses none = true
relay_parses (some (url, parses)) = parses

-- The server is dropped where the start fails behind its bind.
abbrev without_socket : String → Disk → Disk
without_socket path disk = record disk { sockets = drop_server path disk.sockets }

module _ (id_of : List ℕ → String) (format : FileFormat ClientEntry) (start : Start) where
  unfoldable with_endpoint :
      List ℕ
      → ClientRegistry
      → String
      → Option (List TransportAddr)
      → Disk
      → Result Hub StartError × Disk
  unfolding new drop_server
  with_endpoint key registry path none disk = (err no_endpoint, without_socket path disk)
  with_endpoint key registry path (some addrs) disk =
      (ok (new registry (id_of key) addrs start.hostname), disk)

  unfoldable with_relay :
      List ℕ → ClientRegistry → String → Bool → Disk → Result Hub StartError × Disk
  unfolding with_endpoint drop_server
  with_relay key registry path false disk = (err bad_relay, without_socket path disk)
  with_relay key registry path true disk = with_endpoint key registry path start.endpoint_addrs disk

  unfoldable with_socket :
      List ℕ
      → ClientRegistry
      → Result String BindError × Sockets
      → Disk
      → Result Hub StartError × Disk
  unfolding with_relay
  with_socket key registry (err e, sockets) disk =
      (err no_socket, record disk { sockets = sockets })
  with_socket key registry (ok path, sockets) disk =
      with_relay key registry path (relay_parses start.relay_url)
        (record disk { sockets = sockets })

  unfoldable with_registry :
      Environment
      → List ℕ
      → Result ClientRegistry RegistryError
      → Disk
      → Result Hub StartError × Disk
  unfolding with_socket bind_default
  with_registry env key (err e) disk = (err no_registry, disk)
  with_registry env key (ok registry) disk =
      with_socket key registry (bind_default start.bind_io start.server env disk.sockets) disk

  unfoldable with_key :
      Environment → Result (List ℕ) KeyError × KeyFile → Disk → Result Hub StartError × Disk
  unfolding with_registry Clients.load
  with_key env (err e, file) disk = (err no_key, record disk { key = file })
  with_key env (ok key, file) disk =
      with_registry env key (Clients.load format start.reads_registry disk.registry)
        (record disk { key = file })

  -- `run` up to its accept loops: the hub, and what is left behind.
  unfoldable pub run : Environment → Disk → Result Hub StartError × Disk
  unfolding with_key load_or_generate_keypair
  run env disk = with_key env (load_or_generate_keypair start.key_io disk.key) disk
