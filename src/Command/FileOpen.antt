-- ===== src/Command/FileOpen.antt =====
-- The request of the tools that open a URL or a file, and `main` of crates/xdg-open/src/main.rs. The file
-- system, the guess of a MIME type and base64 are parameters.
pub mod Transfer
use Prim.Native.String.{◌++◌ as str_append}
use subportal.Prelude.{
  ℕ, String, Option, List, [], ◌∷◌, length, ltb, str_eq, Result, ok, err, unwrap_or, if◌then◌else◌,
}
use subportal.Prelude.Decimal.{to_decimal}
use subportal.Protocol.{
  version, max_file_size, Request, open_uri, open_file, Response, SubportalError, no_client,
  user_denied,
}
use subportal.Local.Client.{ClientError, daemon_unreachable, protocol}
use subportal.Command.Console.{
  Ran, ended, success, SocketPath, unreachable_lines, no_desktop_lines, error_line,
}
use subportal.Command.Url.{is_url}

-- `std::fs::read`, `Path::file_name` with `to_string_lossy`, `mime_guess` and the base64 encoder.
pub record Files : Type 0 where
  pub read : String → Result (List ℕ) String
  pub file_name : String → Option String
  pub mime : String → String
  pub base64 : List ℕ → String

-- `client.call`
abbrev pub Caller : Type 0
Caller = Request → Result Response ClientError

module _ (files : Files) where
  open files use {read, file_name, mime, base64}

  too_large_line : String → String → ℕ → String
  too_large_line tool target size = str_append tool (
      str_append ": file '" (
        str_append target (
          str_append "' is too large (" (
            str_append (to_decimal size)
              (str_append " bytes, max " (str_append (to_decimal max_file_size) " bytes)"))))))

  unfoldable pub file_request : String → ℕ → String → List ℕ → Result Request Ran
  unfolding too_large_line
  file_request tool too_large target bytes =
      if ltb max_file_size (length bytes)
      then err (ended too_large (too_large_line tool target (length bytes) ∷ []))
      else ok (open_file (unwrap_or (file_name target) "file") (mime target) (base64 bytes))

  unfoldable pub read_request :
      String → ℕ → ℕ → String → Result (List ℕ) String → Result Request Ran
  unfolding file_request
  read_request tool unreadable too_large target (err e) = err (
      ended unreadable (
        str_append tool (str_append ": cannot read '" (str_append target (str_append "': " e)))
        ∷ []))
  read_request tool unreadable too_large target (ok bytes) =
      file_request tool too_large target bytes

  -- The request for a target, or the run of a tool that ends before it asks: the exit codes are those for
  -- a file that cannot be read and for one that is too large.
  unfoldable pub request_for : String → ℕ → ℕ → String → Result Request Ran
  unfolding read_request
  request_for tool unreadable too_large target =
      if is_url target
      then ok (open_uri target)
      else read_request tool unreadable too_large target (read target)

  unfoldable pub opened : SocketPath → Result Response ClientError → Ran
  opened socket (ok response) = success []
  opened socket (err daemon_unreachable) =
      ended 3 (unreachable_lines "xdg-open: subportal daemon is not reachable" socket)
  opened socket (err (protocol no_client)) = ended 3 (no_desktop_lines "xdg-open")
  opened socket (err (protocol user_denied)) =
      ended 4 ("xdg-open: request was denied by the user" ∷ [])
  opened socket (err e) = ended 4 (error_line "xdg-open" e)

  unfoldable pub ask : SocketPath → Caller → Result Request Ran → Ran
  unfolding opened
  ask socket call (err ran) = ran
  ask socket call (ok request) = opened socket (call request)

  abbrev version_line : String → String
  version_line end = str_append "xdg-open (subportal " (str_append version end)

  abbrev usage : List String
  usage =
      version_line ") - forwards to your desktop via subportal"
      ∷ ""
      ∷ "Usage: xdg-open {file | URL}"
      ∷ "       xdg-open {--help | --version}"
      ∷ ""
      ∷ "Opens a file or URL on the client desktop via subportal."
      ∷ "Files up to 5 MB are transferred and opened in"
      ∷ "the client's preferred application. URLs are opened in the"
      ∷ "client's browser. Both require user confirmation."
      ∷ []

  -- `main` of xdg-open, on its arguments.
  unfoldable xdg_open : SocketPath → Caller → List String → Ran
  unfolding ask request_for
  xdg_open socket call [] = ended 1 usage
  xdg_open socket call (target ∷ args) =
      if str_eq target "--help"
      then ended 0 usage
      else if str_eq target "--version"
      then ended 0 (version_line ")" ∷ [])
      else ask socket call (request_for "xdg-open" 2 4 target)
