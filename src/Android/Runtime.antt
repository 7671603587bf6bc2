-- ===== src/Android/Runtime.antt =====
-- The life of the Android client's core: `start`, `stop`, `reconnect`, `set_focus_active`, `forget_server`
-- and the loop of `run_loop` of crates/subportal-android-core/src/lib.rs. A runtime thread is known by a
-- number, and a task that serves a connection by the entry that it was started for. The keypair and the
-- endpoint are there.
pub mod Single
use subportal.Prelude.{
  ℕ, ◌+◌, String, Bool, true, false, not, Option, none, some, List, [], ◌∷◌, map, filter, Result,
  ok, err, ◌==◌, if◌then◌else◌,
}
use subportal.Prelude.Table
use subportal.Prelude.Table.{Table}
use subportal.Control.{FocusState, active, idle, ControlMessage, focus_update}
use subportal.Peers.Registry.{RegistryError, SaveIo, FileFormat}
use subportal.Peers.Servers
use subportal.Peers.Servers.{ServerEntry, ServerRegistry}
use subportal.Android.Session
use subportal.Android.Session.{set_connection_state}

-- A thread with its tokio runtime: its connection tasks, and the state in the focus channel.
pub record Runtime : Type 0 where
  pub id : ℕ
  pub active : Table ServerEntry
  pub focus : FocusState

-- `struct SubportalCore`, with the threads that run. A sender of a watch channel and a thread's handle are
-- the number of their thread.
pub record Core : Type 0 where
  pub connected : Table Bool
  pub shutdown_tx : Option ℕ
  pub runtime_handle : Option ℕ
  pub focus_tx : Option ℕ
  pub threads : List Runtime
  pub spawned : ℕ

unfoldable pub new : Core
new = record {
  connected = [];
  shutdown_tx = none;
  runtime_handle = none;
  focus_tx = none;
  threads = [];
  spawned = 0;
}

-- The initial loop of `run_loop`: a task for each server.
unfoldable pub spawn_all : List ServerEntry → Table ServerEntry → Table ServerEntry
spawn_all [] tasks = tasks
spawn_all (server ∷ servers) tasks =
    spawn_all servers (Table.insert server.endpoint_id server tasks)

-- `ServerRegistry::load(..)` with its error passed over.
abbrev or_none : Result ServerRegistry RegistryError → List ServerEntry
or_none (ok registry) = Servers.list registry
or_none (err e) = []

unfoldable pub start : Result ServerRegistry RegistryError → Core → Core
unfolding spawn_all
start loaded core = record core {
  shutdown_tx = some core.spawned;
  runtime_handle = some core.spawned;
  focus_tx = some core.spawned;
  threads =
      record { id = core.spawned; active = spawn_all (or_none loaded) []; focus = active }
      ∷ core.threads;
  spawned = core.spawned + 1;
}

-- The thread that is told to shut down ends: its tasks are aborted as they are.
abbrev pub without : Option ℕ → List Runtime → List Runtime
without none threads = threads
without (some id) threads = filter (λ t. not (t.id == id)) threads

-- `tx.send(true)` and `handle.join()`, each if it is there.
unfoldable pub stop : Core → Core
stop core = record core {
  shutdown_tx = none;
  runtime_handle = none;
  threads = without core.shutdown_tx core.threads;
}

unfoldable pub reconnect : Result ServerRegistry RegistryError → Core → Core
unfolding start stop
reconnect loaded core = start loaded (stop core)

abbrev in_thread : Option ℕ → (Runtime → Runtime) → List Runtime → List Runtime
in_thread none f threads = threads
in_thread (some id) f threads = map (λ t. if t.id == id then f t else t) threads

unfoldable set_focus_active : Bool → Core → Core
set_focus_active is_active core = record core {
  threads =
      in_thread core.focus_tx (λ t. record t { focus = if is_active then active else idle })
        core.threads;
}

abbrev pub reloaded : Result ServerRegistry RegistryError → Runtime → Runtime
reloaded (err e) t = t
reloaded (ok registry) t = record t {
  active = (Session.reload_servers (Servers.list registry) t.active).0;
}

-- A tick of the reload interval in a thread.
unfoldable tick : ℕ → Result ServerRegistry RegistryError → Core → Core
tick id loaded core = record core { threads = in_thread (some id) (reloaded loaded) core.threads }

-- A connection task's call of `set_connection_state`.
unfoldable connection_changed : ServerEntry → Bool → Core → Core
unfolding set_connection_state
connection_changed server connected core = record core {
  connected = (set_connection_state server.endpoint_id server.name connected core.connected).0;
}

-- `send_focus_updates`, on the states that it reads from its channel and how each write ends.
unfoldable pub send_focus_updates : List (FocusState × Bool) → List ControlMessage
send_focus_updates [] = []
send_focus_updates ((state, true) ∷ states) = focus_update state ∷ send_focus_updates states
send_focus_updates ((state, false) ∷ states) = []

-- `forget_server`
unfoldable forget_server :
    FileFormat ServerEntry
    → SaveIo
    → String
    → ServerRegistry
    → Result Bool RegistryError × ServerRegistry
unfolding Servers.remove
forget_server format io id_or_name r = Servers.remove format io id_or_name r
