-- ===== src/Desktop/Run.antt =====
-- The daemon of crates/subportal-desktop/src/main.rs: `run` with its reload on a signal, and the pidfile. A
-- task that serves a connection is known by the entry that it was started for.
pub mod Served
pub mod Pidfile
use subportal.Prelude.{
  ℕ, String, Bool, true, false, Option, none, some, List, [], ◌∷◌, ◌++◌, Result, ok, err,
  if◌then◌else◌,
}
use Prim.Native.String.{◌++◌ as str_append}
use subportal.Prelude.Decimal.{to_decimal}
use subportal.Prelude.Decimal.Parse.{parse_u32}
use subportal.Prelude.Table
use subportal.Prelude.Table.{Table, values}
use subportal.Peers.Registry.{RegistryError, SaveIo, FileFormat}
use subportal.Peers.Servers
use subportal.Peers.Servers.{ServerEntry, ServerRegistry}
use subportal.Android.Session

-- The text of the pidfile, the tasks by endpoint id, and the tasks that were ended.
pub record Daemon : Type 0 where
  pub pidfile : Option String
  pub active : Table ServerEntry
  pub aborted : List ServerEntry

-- The initial loop: a task for each server.
unfoldable pub spawn_all : List ServerEntry → Table ServerEntry → Table ServerEntry
spawn_all [] active = active
spawn_all (server ∷ servers) active =
    spawn_all servers (Table.insert server.endpoint_id server active)

-- `run` up to its loop.
unfoldable pub started : ℕ → List ServerEntry → Daemon
unfolding spawn_all
started pid servers = record {
  pidfile = some (to_decimal pid);
  active = spawn_all servers [];
  aborted = [];
}

-- `reload_servers`, written like that of the Android client: nothing changes if the load fails.
unfoldable pub reload_servers : Result ServerRegistry RegistryError → Daemon → Daemon
reload_servers (err e) d = d
reload_servers (ok registry) d =
    let (active, stopped) = Session.reload_servers (Servers.list registry) d.active in
    record d { active = active; aborted = d.aborted ++ stopped }

-- The cleanup behind the loop.
unfoldable shut_down : Daemon → Daemon
shut_down d = record { pidfile = none; active = []; aborted = d.aborted ++ values d.active }

-- What wakes the loop: SIGHUP, with what the load of the registry gives, or an interrupt.
pub data Signal : Type 0 where
  hangup : (loaded : Result ServerRegistry RegistryError) → Signal
  interrupt : Signal

-- The loop over the signals that arrive; it waits behind the last one, unless that is an interrupt.
unfoldable pub run_loop : List Signal → Daemon → Daemon
unfolding reload_servers shut_down
run_loop [] d = d
run_loop (hangup loaded ∷ signals) d = run_loop signals (reload_servers loaded d)
run_loop (interrupt ∷ signals) d = shut_down d

-- `run` with its endpoint bound. A registry that cannot be loaded ends it behind the write of the pidfile.
unfoldable pub run : ℕ → Result ServerRegistry RegistryError → List Signal → Daemon
unfolding started run_loop
run pid (err e) signals = started pid []
run pid (ok registry) signals = run_loop signals (started pid (Servers.list registry))

-- `read_pidfile`, from the text that the file has, if it can be read.
unfoldable pub read_pidfile : Option String → Option ℕ
unfolding parse_u32
read_pidfile none = none
read_pidfile (some text) = parse_u32 text
