-- ===== src/Android/Enrollment.antt =====
-- An enrollment from end to end: the agent's ticket, the device's hello, the agent's answer and the
-- device's registry.
use subportal.Prelude.{
  ℕ, ◌≤◌, String, ◌≡◌, refl, true, some, ◌∙◌, sym, ok, if◌then◌else◌, arith, str_eq, eq_refl,
}
use mathlib.Core.Path.{subst}
use subportal.Peers.Registry.{written, FileFormat, save_entries}
use subportal.Peers.Lookup.{IsUnique, add_entry_lem}
use subportal.Peers.Token.{as_i64}
use subportal.Peers.Clients.{ClientEntry, ClientRegistry, client_identified}
use subportal.Peers.Clients
use subportal.Peers.Servers
use subportal.Peers.Servers.{ServerEntry, ServerRegistry, server_identified}
use subportal.Ticket.{Ticket}
use subportal.Hub.{Hub, Env, Answer, generate_ticket_for, make_ticket}
use subportal.Hub.Tokens.{is_valid, consume_token_valid, consume_token-generate_ticket}
use subportal.Agent.Handshake.{welcomed, server_hello, enroll_client, check_hello}
use subportal.Agent.Handshake.Admission.{Checked, check_hello_lem}
use subportal.Android.Requests.{capabilities}
use subportal.Android.Session.{enroll_hello, server_entry, enroll, stored}

registry-generate_ticket :
    (env : Env) (ttl : ℕ) (hub : Hub) (a : Answer)
    → generate_ticket_for env ttl hub ≡ some a
    → hub.registry ≡ a.1.registry
unfolding generate_ticket_for
registry-generate_ticket env ttl hub a e = ground arith

valid-generate_ticket :
    (env : Env) (ttl now expiry : ℕ) (hub : Hub) {a : Answer}
    → generate_ticket_for env ttl hub ≡ some a
    → env.plus_seconds env.now (as_i64 ttl) ≡ some expiry
    → now ≤ expiry
    → is_valid now env.fresh_token a.1.pending_tokens ≡ true
valid-generate_ticket env ttl now expiry hub {a} e p h =
    sym (consume_token_valid now env.fresh_token a.1)
    ∙ consume_token-generate_ticket env ttl now expiry env.fresh_token hub {a = a} e p
    ∙ ground (arith, eq_refl env.fresh_token)

-- The ticket that the agent makes for a token.
abbrev pub ticket_of : Env → ℕ → Hub → Ticket
ticket_of env expiry hub =
    make_ticket hub (record { token = env.fresh_token; created_at = env.now; expires_at = expiry })

-- A device that presents a ticket of the agent no later than the ticket ends is welcomed, whatever its
-- endpoint id, and is then in the agent's registry under that id, with the name and the capabilities of
-- its hello. The agent's registry has unique ids and can be written, and the ticket has just been made.
pub check_hello-generate_ticket :
    (env env' : Env) (ttl expiry : ℕ) (hub : Hub) (remote device : String) {a : Answer}
    → generate_ticket_for env ttl hub ≡ some a
    → env.plus_seconds env.now (as_i64 ttl) ≡ some expiry
    → env'.now ≤ expiry
    → env'.io ≡ written
    → IsUnique hub.registry.entries
    → ((check_hello env' remote (enroll_hello device (ticket_of env expiry hub)) a.1).0
        ≡ welcomed (server_hello true a.1))
      × (Clients.find_by_id remote
            (check_hello env' remote
              (enroll_hello device (ticket_of env expiry hub))
              a.1).1.registry
          ≡ some (enroll_client env'.now remote device capabilities))
unfolding make_ticket
check_hello-generate_ticket env env' ttl expiry hub remote device {a} e p h w u = (
  checked.verdict ∙ rw (valid, w) refl,
  checked.enrolled remote ∙ rw (valid, eq_refl remote) refl,
)
  where
    valid : is_valid env'.now env.fresh_token a.1.pending_tokens ≡ true
    valid = valid-generate_ticket env ttl env'.now expiry hub {a = a} e p h

    checked :
        Checked env' remote
          (enroll_hello device (ticket_of env expiry hub))
          (some env.fresh_token)
          a.1
          (check_hello env' remote (enroll_hello device (ticket_of env expiry hub)) a.1)
    checked = check_hello_lem env' remote (enroll_hello device (ticket_of env expiry hub)) a.1 (
        subst (λ (r : ClientRegistry). IsUnique r.entries)
          (registry-generate_ticket env ttl hub a e) u)

-- A device that is welcomed has the ticket's server in its registry, with the ticket's addresses and
-- relay, in the place of an earlier entry of that server, and keeps every other entry. The registry of
-- the device has unique ids and can be written.
pub enroll_lem :
    (format : FileFormat ServerEntry) (now : ℕ) (ticket : Ticket) (hub : Hub) (r : ServerRegistry)
    (id : String)
    → IsUnique r.entries
    → ((enroll format written now ticket (some (server_hello true hub)) r).0 ≡ ok ticket.hostname)
      × (Servers.find_by_id id (enroll format written now ticket (some (server_hello true hub)) r).1
          ≡ (if str_eq ticket.endpoint_id id
              then some (server_entry now ticket)
              else Servers.find_by_id id r))
unfolding enroll stored Servers.add Servers.find_by_id save_entries
enroll_lem format now ticket hub r id u =
    (refl, (add_entry_lem format written (server_entry now ticket) r u).1 id)
