-- ===== src/Command/NotifySend.antt =====
-- `main` of crates/notify-send/src/main.rs.
use Prim.Native.String.{◌++◌ as str_append}
use mathlib.Core.Option
use subportal.Prelude.{String, Option, List, [], ◌∷◌, Result, ok, err}
use subportal.Protocol.{version, Request, notify, Response, no_client}
use subportal.Local.Client.{ClientError, daemon_unreachable, protocol}
use subportal.Command.Console.{
  Ran, ended, success, SocketPath, unreachable_lines, no_desktop_lines, error_line,
}
use subportal.Command.FileOpen.{Caller}
use subportal.Command.NotifyArgs.{Args, Parsed, show_help, show_version, no_args, args, parse_args}

abbrev notify_usage : List String
notify_usage =
    str_append "notify-send (subportal "
      (str_append version ") - forwards to your desktop via subportal")
    ∷ ""
    ∷ "Usage: notify-send [OPTIONS] <TITLE> [BODY]"
    ∷ ""
    ∷ "Options:"
    ∷ "  -u, --urgency LEVEL   Urgency level (low, normal, critical)"
    ∷ "  -i, --icon ICON       Icon name"
    ∷ "  -t, --expire-time MS  Not supported by desktop portal"
    ∷ "  -a, --app-name NAME   Not supported by desktop portal"
    ∷ "  -c, --category TYPE   Not supported by desktop portal"
    ∷ "  -h, --help            Show this help"
    ∷ "  --version             Show version"
    ∷ ""
    ∷ "Unsupported notify-send flags (--action, --replace-id, --print-id,"
    ∷ "--wait, --transient, --hint) are silently ignored for compatibility."
    ∷ []

unfoldable notify_request : Args → Request
notify_request a = notify a.title a.body a.urgency a.icon

unfoldable pub notified : SocketPath → Result Response ClientError → Ran
notified socket (ok response) = success []
notified socket (err daemon_unreachable) =
    ended 1 (unreachable_lines "notify-send: subportal daemon is not reachable" socket)
notified socket (err (protocol no_client)) = ended 1 (no_desktop_lines "notify-send")
notified socket (err e) = ended 1 (error_line "notify-send" e)

unfoldable notify_parsed : SocketPath → Caller → Parsed → Ran
unfolding notified notify_request
notify_parsed socket call show_help = ended 0 notify_usage
notify_parsed socket call show_version =
    ended 0 (str_append "notify-send (subportal " (str_append version ")") ∷ [])
notify_parsed socket call no_args = ended 1 notify_usage
notify_parsed socket call (args a) = notified socket (call (notify_request a))

unfoldable notify_send : SocketPath → Caller → List String → Option Ran
unfolding notify_parsed
notify_send socket call argv = Option.map (notify_parsed socket call) (parse_args argv)
