-- ===== src/Agent/Run/Tests.antt =====
-- A concrete run of the theorem on an agent that is started again.
use subportal.Prelude.{
  ℕ, zero, suc, String, ◌≡◌, refl, true, false, none, some, List, [], ◌∷◌, ok, if◌then◌else◌,
}
use subportal.Prelude.Text.{is_some}
use subportal.Keypair.{written}
use subportal.Local.Socket.{Environment}
use subportal.Peers.SampleFormat.{sample_format}
use subportal.Peers.Clients.{ClientRegistry, find_by_id}
use subportal.Hub.{Hub, new}
use subportal.Hub.Sample.{phone_entry, env_at, hello_with}
use subportal.Agent.Handshake.{welcomed, refused, server_hello, check_hello}
use subportal.Agent.Run.{Disk, Start, run}
use subportal.Agent.Run.Restart.{run-check_hello}

abbrev bytes : ℕ → List ℕ
bytes zero = []
bytes (suc n) = n ∷ bytes n

abbrev start : Start
start = record {
  key_io = record {
    reads = true;
    generated = bytes 32;
    creates_dir = true;
    write_end = written;
    default_mode = 420;
    sets_permissions = true;
  };
  reads_registry = true;
  bind_io = record { creates_dir = true; removes = true; listens = true };
  server = 1;
  relay_url = none;
  endpoint_addrs = some [];
  hostname = "host";
}

abbrev env : Environment
env = record { socket_path = none; runtime_dir = some "/run/user/1"; uid = 1 }

abbrev empty : Disk
empty = record { key = record { content = none; mode = none }; registry = none; sockets = [] }

abbrev registry : ClientRegistry
registry = record {
  entries = phone_entry ∷ [];
  file = some (sample_format.print (phone_entry ∷ []));
}

abbrev left : Disk
left = record {
  key = record { content = some (bytes 32); mode = some 384 };
  registry = registry.file;
  sockets = [];
}

abbrev id_of : List ℕ → String
id_of key = "cc"

abbrev restarted : Hub
restarted = new registry "cc" [] "host"

run-check_hello_example :
    (restarted.endpoint_id ≡ "cc")
    × (restarted.registry ≡ registry)
    × ((check_hello (env_at 50) "aa" (hello_with none) restarted).0 ≡ (
        if is_some (find_by_id "aa" registry)
        then welcomed (server_hello true restarted)
        else refused (server_hello false restarted)))
unfolding run new subportal.Prelude.Table.get
run-check_hello_example =
    run-check_hello id_of sample_format start start env env empty left
      (new (record { entries = []; file = none }) "cc" [] "host") restarted registry (env_at 50)
      "aa" (hello_with none) refl refl refl refl refl refl refl refl refl
