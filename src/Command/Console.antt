-- ===== src/Command/Console.antt =====
-- What the command-line tools share: the run of a tool, its messages about the socket, and the text of an
-- error, `Display` of crates/subportal-lib/src/client.rs and protocol.rs.
use Prim.Native.String.{◌++◌ as str_append}
use subportal.Prelude.{ℕ, String, Bool, List, [], ◌∷◌, if◌then◌else◌}
use subportal.Prelude.Decimal.{to_decimal}
use subportal.Protocol.{
  SubportalError, user_denied, no_decision, not_supported, file_too_large, no_client, not_found,
}
use subportal.Local.Client.{ClientError, daemon_unreachable, protocol}

-- The exit code, and the lines on stdout and on stderr.
pub record Ran : Type 0 where
  pub code : ℕ
  pub out : List String
  pub errs : List String

abbrev pub ended : ℕ → List String → Ran
ended code errs = record { code = code; out = []; errs = errs }

abbrev pub success : List String → Ran
success out = record { code = 0; out = out; errs = [] }

-- `client.path()` and `path.exists()`
pub record SocketPath : Type 0 where
  pub path : String
  pub exists : Bool

-- `impl Display for SubportalError`
unfoldable pub error_text : SubportalError → String
error_text user_denied = "user denied the request"
error_text no_decision = "prompt closed without a user decision"
error_text (not_supported capability) = str_append "capability not supported: " capability
error_text (file_too_large max_bytes) =
    str_append "file too large (max " (str_append (to_decimal max_bytes) " bytes)")
error_text no_client = "no client daemon reachable"
error_text (not_found what) = str_append "not found: " what

-- `impl Display for ClientError`
unfoldable pub client_error_text : ClientError → String
client_error_text daemon_unreachable = "daemon is not reachable"
client_error_text (protocol e) = error_text e

unfoldable pub socket_line : SocketPath → String
socket_line socket = str_append "  socket: " (
    str_append socket.path
      (if socket.exists then " (exists but not responding)" else " (not found)"))

-- The three lines on a daemon that cannot be reached, behind the tool's own first words.
unfoldable pub unreachable_lines : String → SocketPath → List String
unreachable_lines first socket =
    first ∷ socket_line socket ∷ "  hint: start the agent with: subportal agent" ∷ []

unfoldable pub no_desktop_lines : String → List String
no_desktop_lines tool =
    str_append tool ": no desktop client connected"
    ∷ "  hint: is subportal-desktop running on your local machine?"
    ∷ []

-- `eprintln!("<tool>: {}", e)`
unfoldable pub error_line : String → ClientError → List String
error_line tool e = str_append tool (str_append ": " (client_error_text e)) ∷ []
