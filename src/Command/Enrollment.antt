-- ===== src/Command/Enrollment.antt =====
-- The commands of crates/subportal/src/enrollment.rs. An `anyhow` error is its text. The parsers of a
-- ticket, the drawing of a QR code and the text of a time are parameters.
use Prim.Native.String.{◌++◌ as str_append}
use mathlib.Core.Option
use subportal.Prelude.{
  ℕ, String, Bool, List, [], ◌∷◌, Result, ok, err, ◌>>=◌, unwrap_or, if◌then◌else◌,
}
use subportal.Prelude.Text.{join}
use subportal.Protocol.{generate_ticket, revoke_client, Response, done, ticket, not_found}
use subportal.Peers.Registry.{RegistryError}
use subportal.Peers.Clients.{ClientEntry}
use subportal.Local.Client.{ClientError, daemon_unreachable, protocol}
use subportal.Ticket.{Ticket}
use subportal.Command.Console.{SocketPath, socket_line, client_error_text}
use subportal.Command.FileOpen.{Caller}

-- The lines on stdout and stderr so far, and how the command ends.
pub record Report : Type 0 where
  pub out : List String
  pub errs : List String
  pub result : Result (Unit {0}) String

abbrev bail : String → Report
bail message = record { out = []; errs = []; result = err message }

unfoldable pub unreachable : String → SocketPath → Report
unreachable first socket = record {
  out = [];
  errs =
      first ∷ socket_line socket ∷ "" ∷ "Is the agent running? Start it with: subportal agent" ∷ [];
  result = err "could not connect to running agent";
}

-- `Ticket::from_json`, `Ticket::to_compact` and `qr2term::print_qr`, which prints lines.
pub record Printer : Type 0 where
  pub from_json : String → Result Ticket String
  pub to_compact : Ticket → Result String String
  pub print_qr : String → Result (List String) String

unfoldable qr_lines : Printer → String → Result (List String) String
qr_lines printer ticket_json = printer.from_json ticket_json >>= λ t.
    printer.to_compact t >>= λ compact. printer.print_qr compact

unfoldable with_qr : String → Result (List String) String → Report
with_qr ticket_json (ok lines) = record { out = ticket_json ∷ lines; errs = []; result = ok tt }
with_qr ticket_json (err e) = record { out = ticket_json ∷ []; errs = []; result = err e }

unfoldable print_response : Printer → SocketPath → Bool → Result Response ClientError → Report
unfolding with_qr qr_lines unreachable
print_response printer socket qr (ok (ticket ticket_json)) =
    if qr
    then with_qr ticket_json (qr_lines printer ticket_json)
    else record { out = ticket_json ∷ []; errs = []; result = ok tt }
print_response printer socket qr (ok response) = bail "unexpected response from agent"
print_response printer socket qr (err daemon_unreachable) =
    unreachable "Failed to generate ticket: daemon is not reachable" socket
print_response printer socket qr (err e) =
    bail (str_append "failed to generate ticket: " (client_error_text e))

unfoldable pub print_ticket : Printer → SocketPath → Caller → ℕ → Bool → Report
unfolding print_response
print_ticket printer socket call ttl qr =
    print_response printer socket qr (call (generate_ticket ttl))

unfoldable revoke_response : SocketPath → String → Result Response ClientError → Report
unfolding unreachable
revoke_response socket name_or_id (ok done) = record {
  out = str_append "Client '" (str_append name_or_id "' revoked.") ∷ [];
  errs = [];
  result = ok tt;
}
revoke_response socket name_or_id (ok response) = bail "unexpected response from agent"
revoke_response socket name_or_id (err (protocol (not_found what))) = bail what
revoke_response socket name_or_id (err daemon_unreachable) =
    unreachable "Failed to revoke client: daemon is not reachable" socket
revoke_response socket name_or_id (err e) =
    bail (str_append "failed to revoke client: " (client_error_text e))

unfoldable pub revoke_client_command : SocketPath → Caller → String → Report
unfolding revoke_response
revoke_client_command socket call name_or_id =
    revoke_response socket name_or_id (call (revoke_client name_or_id))

-- `to_rfc3339`, and the first 16 bytes of an endpoint id, which is ASCII.
pub record Shown : Type 0 where
  pub to_rfc3339 : ℕ → String
  pub first_16 : String → String
  pub error_text : RegistryError → String

-- The text that is printed for a client, with its line breaks.
unfoldable client_text : Shown → ClientEntry → String
client_text shown client = str_append client.name (
    str_append " (" (
      str_append (shown.first_16 client.endpoint_id) (
        str_append ")\n  enrolled: " (
          str_append (shown.to_rfc3339 client.enrolled_at) (
            str_append "\n  last seen: " (
              str_append (unwrap_or (Option.map shown.to_rfc3339 client.last_seen) "never")
                (str_append "\n  capabilities: " (join ", " client.capabilities))))))))

unfoldable client_texts : Shown → List ClientEntry → List String
unfolding client_text
client_texts shown [] = []
client_texts shown (client ∷ clients) = client_text shown client ∷ client_texts shown clients

-- `list_clients` on the entries of the registry that was loaded.
unfoldable pub list_clients : Shown → Result (List ClientEntry) RegistryError → Report
unfolding client_texts
list_clients shown (err e) = bail (shown.error_text e)
list_clients shown (ok []) = record { out = "No enrolled clients." ∷ []; errs = []; result = ok tt }
list_clients shown (ok clients) = record {
  out = client_texts shown clients;
  errs = [];
  result = ok tt;
}
