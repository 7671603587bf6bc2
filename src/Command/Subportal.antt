-- ===== src/Command/Subportal.antt =====
-- `main` of crates/subportal/src/main.rs. The run of the agent, the latency and the registry's file are
-- inputs.
use Prim.Native.String.{◌++◌ as str_append}
use subportal.Prelude.{ℕ, String, Bool, Option, List, [], ◌∷◌, ◌++◌, length, Result, ok, err}
use subportal.Prelude.Decimal.{to_decimal}
use subportal.Prelude.Text.{join}
use subportal.Protocol.{
  Request, ping, notify, confirm, Response, pong, no_client, user_denied, no_decision,
}
use subportal.Peers.Registry.{RegistryError}
use subportal.Peers.Clients.{ClientEntry}
use subportal.Local.Client.{ClientError, daemon_unreachable, protocol}
use subportal.Command.Console.{
  Ran, ended, success, SocketPath, unreachable_lines, no_desktop_lines, error_line,
}
use subportal.Command.FileOpen.{Files, Caller, request_for}
use subportal.Command.Enrollment.{
  Report, Printer, Shown, print_ticket, revoke_client_command, list_clients,
}

-- `enum Command`
pub data Command : Type 0 where
  status clients : Command
  open_target : (target : String) → Command
  notify_user : (title : String) (body urgency icon : Option String) → Command
  confirm_user : (message : String) (title : Option String) → Command
  agent : (relay_url : Option String) → Command
  ticket_for : (ttl : ℕ) (qr : Bool) → Command
  revoke : (name_or_id : String) → Command

unfoldable daemon_unreachable_error : SocketPath → List String
daemon_unreachable_error = unreachable_lines "subportal: daemon is not reachable"

unfoldable no_desktop_error : List String
no_desktop_error = no_desktop_lines "subportal"

clients_line : List String → String
clients_line [] = "clients: none"
clients_line names =
    str_append "clients: "
      (str_append (to_decimal (length names)) (str_append " (" (str_append (join ", " names) ")")))

unfoldable status_ran : String → SocketPath → Result Response ClientError → Ran
unfolding clients_line daemon_unreachable_error no_desktop_error
status_ran latency socket (ok (pong capabilities version names endpoint_id)) = success (
    str_append "subportal v" version
    ∷ str_append "latency: " (str_append latency "ms")
    ∷ str_append "endpoint: " endpoint_id
    ∷ str_append "socket: " socket.path
    ∷ clients_line names
    ∷ str_append "capabilities: " (join ", " capabilities)
    ∷ [])
status_ran latency socket (ok response) = ended 1 ("unexpected response from daemon" ∷ [])
status_ran latency socket (err daemon_unreachable) = ended 1 (daemon_unreachable_error socket)
status_ran latency socket (err (protocol no_client)) = ended 1 no_desktop_error
status_ran latency socket (err e) = ended 1 (error_line "subportal" e)

unfoldable open_ran : SocketPath → Result Response ClientError → Ran
unfolding daemon_unreachable_error no_desktop_error
open_ran socket (ok response) = success []
open_ran socket (err daemon_unreachable) = ended 1 (daemon_unreachable_error socket)
open_ran socket (err (protocol no_client)) = ended 1 no_desktop_error
open_ran socket (err (protocol user_denied)) =
    ended 1 ("subportal: request was denied by the user" ∷ [])
open_ran socket (err e) = ended 1 (error_line "subportal" e)

unfoldable open_asked : SocketPath → Caller → Result Request Ran → Ran
unfolding open_ran
open_asked socket call (err ran) = ran
open_asked socket call (ok request) = open_ran socket (call request)

unfoldable pub confirm_ran : SocketPath → Result Response ClientError → Ran
unfolding daemon_unreachable_error no_desktop_error
confirm_ran socket (ok response) = success []
confirm_ran socket (err (protocol user_denied)) = ended 1 ("subportal: denied by the user" ∷ [])
confirm_ran socket (err (protocol no_decision)) =
    ended 3 ("subportal: prompt expired without an answer" ∷ [])
confirm_ran socket (err daemon_unreachable) = ended 2 (daemon_unreachable_error socket)
confirm_ran socket (err (protocol no_client)) = ended 2 no_desktop_error
confirm_ran socket (err e) = ended 2 (error_line "subportal" e)

unfoldable notify_ran : SocketPath → Result Response ClientError → Ran
unfolding daemon_unreachable_error no_desktop_error
notify_ran socket (ok response) = success []
notify_ran socket (err daemon_unreachable) = ended 1 (daemon_unreachable_error socket)
notify_ran socket (err (protocol no_client)) = ended 1 no_desktop_error
notify_ran socket (err e) = ended 1 (error_line "subportal" e)

abbrev exit_with : String → List String → List String → Result (Unit {0}) String → Ran
exit_with name out errs (ok u) = record { code = 0; out = out; errs = errs }
exit_with name out errs (err e) = record {
  code = 1;
  out = out;
  errs = errs ++ (str_append "subportal " (str_append name (str_append ": " e)) ∷ []);
}

unfoldable exit_of : String → Report → Ran
exit_of name report = exit_with name report.out report.errs report.result

-- What a run reads from outside: the latency of the call, the end of the agent, the registry's file.
pub record Machine : Type 0 where
  pub files : Files
  pub printer : Printer
  pub shown : Shown
  pub latency : String
  pub registry : Result (List ClientEntry) RegistryError
  pub agent_run : Option String → Result (Unit {0}) String

unfoldable pub main : Machine → SocketPath → Caller → Command → Ran
unfolding status_ran open_asked confirm_ran notify_ran exit_of
main m socket call (agent relay_url) = exit_with "agent" [] [] (m.agent_run relay_url)
main m socket call (ticket_for ttl qr) =
    exit_of "ticket" (print_ticket m.printer socket call ttl qr)
main m socket call clients = exit_of "clients" (list_clients m.shown m.registry)
main m socket call (revoke name_or_id) =
    exit_of "revoke" (revoke_client_command socket call name_or_id)
main m socket call status = status_ran m.latency socket (call ping)
main m socket call (open_target target) =
    open_asked socket call (request_for m.files "subportal" 1 1 target)
main m socket call (confirm_user message title) = confirm_ran socket (call (confirm message title))
main m socket call (notify_user title body urgency icon) =
    notify_ran socket (call (notify title body urgency icon))
