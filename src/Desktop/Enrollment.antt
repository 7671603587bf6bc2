-- ===== src/Desktop/Enrollment.antt =====
-- The commands that change the servers of the desktop client: `enroll_from_stdin` and
-- `signal_daemon_reload` of crates/subportal-desktop/src/enroll.rs, and `forget` of main.rs. How the
-- connection to the server goes, what the pidfile holds and whether a signal is sent are inputs.
pub mod Reloading
use Prim.Native.String.{◌++◌ as str_append}
use subportal.Prelude.{
  ℕ, String, Bool, true, false, Option, none, some, List, [], ◌∷◌, ◌++◌, Result, ok, err,
  if◌then◌else◌,
}
use subportal.Control.{ClientHello, ServerHello}
use subportal.Peers.Registry.{RegistryError, SaveIo, FileFormat}
use subportal.Peers.Servers
use subportal.Peers.Servers.{ServerEntry, ServerRegistry}
use subportal.Ticket.{Ticket}
use subportal.Desktop.Session.{
  hello_with_token, Attempt, ConnectError, connected, bad_address, connect_failed, no_stream,
  hello_not_written, no_answer, not_enrolled,
}

-- The registry behind a command, whether the daemon was signalled, what was printed, and the end.
pub record Changed : Type 0 where
  pub registry : ServerRegistry
  pub signalled : Bool
  pub lines : List String
  pub succeeds : Bool

abbrev pub unchanged : ServerRegistry → List String → Changed
unchanged r lines = record { registry = r; signalled = false; lines = lines; succeeds = false }

-- `read_pidfile` and `libc::kill`: the daemon's process, if the pidfile has one, and whether the signal
-- to it can be sent.
abbrev RunningDaemon : Type 0
RunningDaemon = Option (ℕ × Bool)

unfoldable is_signalled : RunningDaemon → Bool
is_signalled none = false
is_signalled (some (pid, sent)) = sent

unfoldable signal_daemon_reload : RunningDaemon → Bool × String
unfolding is_signalled
signal_daemon_reload daemon = (
  is_signalled daemon,
  if is_signalled daemon
      then "Signaled running daemon to reload."
      else "hint: restart subportal-desktop to connect to the new server",
)

abbrev pub enroll_hello : String → String → Ticket → ClientHello
enroll_hello hostname os ticket = hello_with_token hostname os (some ticket.token)

unfoldable pub server_entry : ℕ → Ticket → ServerEntry
server_entry now ticket = record {
  endpoint_id = ticket.endpoint_id;
  name = ticket.hostname;
  addrs = ticket.addrs;
  relay_url = ticket.relay_url;
  enrolled_at = now;
}

unfoldable pub stored :
    RunningDaemon → String → Result (Unit {0}) RegistryError × ServerRegistry → Changed
unfolding signal_daemon_reload
stored daemon hostname (err e, r) = unchanged r []
stored daemon hostname (ok u, r) =
    let (signalled, line) = signal_daemon_reload daemon in
    record {
      registry = r;
      signalled = signalled;
      lines = str_append "Enrolled with server '" (str_append hostname "'.") ∷ line ∷ [];
      succeeds = true;
    }

-- The end of the command's error message, where its text is in the source.
enroll_error : ConnectError → List String
enroll_error bad_address = []
enroll_error connect_failed = "failed to connect to server" ∷ []
enroll_error no_stream = "failed to open control stream" ∷ []
enroll_error hello_not_written = []
enroll_error no_answer = "failed to read server response" ∷ []
enroll_error not_enrolled = "enrollment rejected by server (invalid or expired token)" ∷ []

-- The state of the registry is what its file holds. `loads` is whether it can be read.
module _ (format : FileFormat ServerEntry) (io : SaveIo) (loads : Bool)
    (daemon : RunningDaemon) where
  enroll_connected : ℕ → Ticket → ServerRegistry → Result String ConnectError → Changed
  unfolding enroll_error stored Servers.add server_entry
  enroll_connected now ticket r (err e) = unchanged r (enroll_error e)
  enroll_connected now ticket r (ok hostname) =
      if loads
      then stored daemon ticket.hostname (Servers.add format io (server_entry now ticket) r)
      else unchanged r []

  -- `enroll_from_stdin` from the parsed ticket on.
  unfoldable pub enroll_from_stdin : ℕ → Ticket → Attempt → ServerRegistry → Changed
  unfolding enroll_connected connected
  enroll_from_stdin now ticket attempt r = enroll_connected now ticket r (connected attempt)

  forgotten : String → Result Bool RegistryError × ServerRegistry → Changed
  unfolding is_signalled
  forgotten name_or_id (ok true, r) = record {
    registry = r;
    signalled = is_signalled daemon;
    lines =
        str_append "Server '" (str_append name_or_id "' removed.")
        ∷ (if is_signalled daemon then "Signaled running daemon to reload." ∷ [] else []);
    succeeds = true;
  }
  forgotten name_or_id (ok false, r) =
      unchanged r (str_append "No server found matching '" (str_append name_or_id "'") ∷ [])
  forgotten name_or_id (err e, r) = unchanged r []

  unfoldable pub forget : String → ServerRegistry → Changed
  unfolding forgotten Servers.remove
  forget name_or_id r =
      if loads then forgotten name_or_id (Servers.remove format io name_or_id r) else unchanged r []
