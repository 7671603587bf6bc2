-- ===== src/Agent/Handshake/Admission.antt =====
-- Which devices are let in.
use subportal.Prelude.{
  ℕ, String, ◌≡◌, refl, Bool, true, false, ◌&&◌, Option, none, some, Result, ok, err, ◌∙◌, ap,
  if◌then◌else◌, str_eq,
}
use subportal.Control.{ClientHello}
use subportal.Peers.Registry.{
  RegistryError, FileFormat, SaveIo, written, write_failed, save_entries,
}
use subportal.Peers.Lookup.{IsUnique, add_entry_lem}
use subportal.Peers.Clients
use subportal.Peers.Clients.{ClientEntry, ClientRegistry, client_identified, find_by_id}
use subportal.Hub.{Hub, Env, consume_token}
use subportal.Hub.Tokens.{is_valid, consume_token_valid}
use subportal.Agent.Handshake.{
  Handshake, refused, unsaved, welcomed, server_hello, enroll_client, enrolled_saved, enroll,
  reconnect, check_token, check_hello,
}

abbrev is_known : Option ClientEntry → Bool
is_known none = false
is_known (some e) = true

-- With a token: the token is pending and has not expired. Without one: the endpoint id is enrolled.
abbrev is_entitled : ℕ → String → Option String → Hub → Bool
is_entitled now remote (some token) hub = is_valid now token hub.pending_tokens
is_entitled now remote none hub = is_known (find_by_id remote hub.registry)

-- Whether the enrollment of a device that presents a token can be written to the registry's file.
abbrev can_store : Option String → SaveIo → Bool
can_store none io = true
can_store (some token) written = true
can_store (some token) (write_failed left) = false

-- The registry's entry of `id` behind the handshake: a token that is accepted enrolls the device.
abbrev entry_after : Env → String → ClientHello → Option String → Hub → String → Option ClientEntry
entry_after env remote hello none hub id = find_by_id id hub.registry
entry_after env remote hello (some token) hub id =
    if is_valid env.now token hub.pending_tokens && str_eq remote id
    then some (enroll_client env.now remote hello.name hello.capabilities)
    else find_by_id id hub.registry

-- What the handshake promises.
pub record Checked (env : Env) (remote : String) (hello : ClientHello) (token : Option String)
    (hub : Hub) (r : Handshake × Hub) : Type 0 where
  pub verdict : r.0 ≡ (
      if is_entitled env.now remote token hub
      then (if can_store token env.io then welcomed (server_hello true hub) else unsaved)
      else refused (server_hello false hub))
  pub enrolled :
      (id : String) → find_by_id id r.1.registry ≡ entry_after env remote hello token hub id
  pub clients : r.1.clients ≡ hub.clients

consumed_hub :
    (now : ℕ) (token : String) (hub : Hub)
    → ((consume_token now token hub).1.registry ≡ hub.registry)
      × ((consume_token now token hub).1.clients ≡ hub.clients)
      × ((consume_token now token hub).1.hostname ≡ hub.hostname)
unfolding consume_token
consumed_hub now token hub = (refl, refl, refl)

find-add :
    (env : Env) (entry : ClientEntry) (r : ClientRegistry) (id : String)
    → IsUnique r.entries
    → find_by_id id (Clients.add env.format env.io entry r).1
      ≡ (if str_eq entry.endpoint_id id then some entry else find_by_id id r)
unfolding Clients.add find_by_id
find-add env entry r id u = (add_entry_lem env.format env.io entry r u).1 id

add-result :
    (format : FileFormat ClientEntry) (io : SaveIo) (token : String) (entry : ClientEntry)
    (r : ClientRegistry) (hub : Hub)
    → (enrolled_saved hub (Clients.add format io entry r)).0
      ≡ (if can_store (some token) io then welcomed (server_hello true hub) else unsaved)
unfolding Clients.add save_entries enrolled_saved
add-result format written token entry r hub = refl
add-result format (write_failed left) token entry r hub = refl

enrolled_saved_hub :
    (hub : Hub) (s : Result (Unit {0}) RegistryError × ClientRegistry)
    → ((enrolled_saved hub s).1.registry ≡ s.1) × ((enrolled_saved hub s).1.clients ≡ hub.clients)
unfolding enrolled_saved
enrolled_saved_hub hub (ok u, r) = (refl, refl)
enrolled_saved_hub hub (err e, r) = (refl, refl)

reconnect_verdict :
    (entry : Option ClientEntry) (hub : Hub)
    → (reconnect entry hub).0 ≡ (
        if is_known entry
        then welcomed (server_hello true hub)
        else refused (server_hello false hub))
unfolding reconnect
reconnect_verdict none hub = refl
reconnect_verdict (some e) hub = refl

reconnect_hub : (entry : Option ClientEntry) (hub : Hub) → (reconnect entry hub).1 ≡ hub
unfolding reconnect
reconnect_hub none hub = refl
reconnect_hub (some e) hub = refl

enroll_lem :
    (env : Env) (remote token : String) (hello : ClientHello) (hub hub' : Hub) (valid : Bool)
    → IsUnique hub.registry.entries
    → valid ≡ is_valid env.now token hub.pending_tokens
    → hub'.registry ≡ hub.registry
    → hub'.clients ≡ hub.clients
    → hub'.hostname ≡ hub.hostname
    → Checked env remote hello (some token) hub (enroll env remote hello (valid, hub'))
unfolding enroll
enroll_lem env remote token hello hub hub' false u v r c n = record {
  verdict = rw (← v, n) refl;
  enrolled = λ id. rw (← v, r) refl;
  clients = c;
}
enroll_lem env remote token hello hub hub' true u v r c n =
    let entry = enroll_client env.now remote hello.name hello.capabilities in
    let saved = enrolled_saved_hub hub' (Clients.add env.format env.io entry hub'.registry) in
    record {
      verdict = rw (← v, ← n) (add-result env.format env.io token entry hub'.registry hub');
      enrolled =
          λ id. rw (← v, saved.0, r) (unfold enroll_client in find-add env entry hub.registry id u);
      clients = saved.1 ∙ c;
    }

check_token_lem :
    (env : Env) (remote : String) (hello : ClientHello) (token : Option String) (hub : Hub)
    → IsUnique hub.registry.entries
    → Checked env remote hello token hub (check_token env remote hello token hub)
unfolding check_token reconnect
check_token_lem env remote hello (some token) hub u =
    let c = consumed_hub env.now token hub in
    enroll_lem env remote token hello hub (consume_token env.now token hub).1
      (consume_token env.now token hub).0 u (consume_token_valid env.now token hub) c.0 c.1 c.2
check_token_lem env remote hello none hub u =
    let same = reconnect_hub (find_by_id remote hub.registry) hub in
    record {
      verdict = reconnect_verdict (find_by_id remote hub.registry) hub;
      enrolled = λ id. ap (λ (h : Hub). find_by_id id h.registry) same;
      clients = ap (λ (h : Hub). h.clients) same;
    }

-- A device is welcomed exactly if it presents a pending, unexpired token, whose enrollment can be
-- written, or presents none and is enrolled; it is refused exactly if its token is not such a one, or it
-- presents none and is not enrolled. An accepted token enrolls the device under its endpoint id, in
-- memory also where the write fails; every other entry, and the connected clients, stay. The ids of the
-- registry are assumed unique.
pub check_hello_lem :
    (env : Env) (remote : String) (hello : ClientHello) (hub : Hub)
    → IsUnique hub.registry.entries
    → Checked env remote hello hello.token hub (check_hello env remote hello hub)
unfolding check_hello
check_hello_lem env remote hello hub u = check_token_lem env remote hello hello.token hub u

pending-enrolled_saved :
    (hub : Hub) (s : Result (Unit {0}) RegistryError × ClientRegistry)
    → (enrolled_saved hub s).1.pending_tokens ≡ hub.pending_tokens
unfolding enrolled_saved
pending-enrolled_saved hub (ok u, r) = refl
pending-enrolled_saved hub (err e, r) = refl

pending-enroll :
    (env : Env) (remote : String) (hello : ClientHello) (c : Bool × Hub)
    → (enroll env remote hello c).1.pending_tokens ≡ c.1.pending_tokens
unfolding enroll
pending-enroll env remote hello (false, hub) = refl
pending-enroll env remote hello (true, hub) = pending-enrolled_saved hub _

refused_of_invalid :
    (env : Env) (remote : String) (hello : ClientHello) (c : Bool × Hub)
    → c.0 ≡ false
    → (enroll env remote hello c).0 ≡ refused (server_hello false c.1)
unfolding enroll
refused_of_invalid env remote hello (false, hub) e = refl
refused_of_invalid env remote hello (true, hub) e = absurd (cc)

pub token_refused :
    (env : Env) (remote token : String) (hello : ClientHello) (hub : Hub)
    → hello.token ≡ some token
    → (consume_token env.now token hub).0 ≡ false
    → (check_hello env remote hello hub).0 ≡ refused (server_hello false hub)
unfolding check_hello check_token
token_refused env remote token hello hub e f = rw e (
    refused_of_invalid env remote hello (consume_token env.now token hub) f
    ∙ ap (λ n. refused (record { hostname = n; enrolled = false }))
        (consumed_hub env.now token hub).2)

pub pending-check_hello :
    (env : Env) (remote token : String) (hello : ClientHello) (hub : Hub)
    → hello.token ≡ some token
    → (check_hello env remote hello hub).1.pending_tokens
      ≡ (consume_token env.now token hub).1.pending_tokens
unfolding check_hello check_token
pending-check_hello env remote token hello hub e =
    rw e (pending-enroll env remote hello (consume_token env.now token hub))
