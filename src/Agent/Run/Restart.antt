-- ===== src/Agent/Run/Restart.antt =====
-- An agent that is started again.
use subportal.Prelude.{
  ℕ, String, ◌≡◌, refl, ◌∙◌, sym, ap, Bool, true, false, Option, none, some, List, length, ◌==◌,
  Result, ok, err, if◌then◌else◌,
}
use subportal.Prelude.Text.{is_some}
use subportal.Keypair.{KeyFile, KeyError, load_or_generate_keypair}
use subportal.Keypair.Stable.{load_or_generate_keypair_stable}
use subportal.Control.{ClientHello}
use subportal.Local.Socket.{Environment, BindError, Sockets}
use subportal.Peers.Registry.{FileFormat, RegistryError, load_file, parse_file}
use subportal.Peers.Clients
use subportal.Peers.Clients.{ClientEntry, ClientRegistry, find_by_id, client_identified}
use subportal.Hub.{Hub, Env, TransportAddr, new}
use subportal.Agent.Handshake.{welcomed, refused, server_hello, check_hello, check_token, reconnect}
use subportal.Agent.Run.{
  Disk, Start, StartError, no_key, no_registry, no_socket, bad_relay, no_endpoint, with_endpoint,
  with_relay, with_socket, with_registry, with_key, run,
}

hub_of : Result Hub StartError → Hub → Hub
hub_of (ok hub) other = hub
hub_of (err e) other = other

same_hub : (r : Result Hub StartError) (a b : Hub) → r ≡ ok a → r ≡ ok b → a ≡ b
unfolding hub_of
same_hub r a b p q = ap (λ x. hub_of x a) (sym p ∙ q)

not_ok : (r : Result Hub StartError) (e : StartError) (hub : Hub) → r ≡ err e → r ≡ ok hub → ⊥
not_ok r e hub p q = cc

module _ (id_of : List ℕ → String) (format : FileFormat ClientEntry) (start : Start) where
  -- The hub has the id of a key and a registry, and the key file is as the start found or made it.
  record Up (key : List ℕ) (registry : ClientRegistry) (file : KeyFile) (hub : Hub) (disk : Disk)
      : Type 0 where
    id_is : hub.endpoint_id ≡ id_of key
    registry_is : hub.registry ≡ registry
    file_is : disk.key ≡ file

  with_endpoint-Up :
      (key : List ℕ) (registry : ClientRegistry) (path : String) (o : Option (List TransportAddr))
      (disk : Disk) (hub : Hub)
      → (with_endpoint id_of format start key registry path o disk).0 ≡ ok hub
      → Up key registry disk.key hub (with_endpoint id_of format start key registry path o disk).1
  unfolding with_endpoint new
  with_endpoint-Up key registry path none disk hub e =
      absurd (not_ok (err no_endpoint) no_endpoint hub refl e)
  with_endpoint-Up key registry path (some addrs) disk hub e =
      let same = same_hub _ (new registry (id_of key) addrs start.hostname) hub refl e in
      record {
        id_is = sym (ap (λ (h : Hub). h.endpoint_id) same);
        registry_is = sym (ap (λ (h : Hub). h.registry) same);
        file_is = refl;
      }

  with_relay-Up :
      (key : List ℕ) (registry : ClientRegistry) (path : String) (b : Bool) (disk : Disk)
      (hub : Hub)
      → (with_relay id_of format start key registry path b disk).0 ≡ ok hub
      → Up key registry disk.key hub (with_relay id_of format start key registry path b disk).1
  unfolding with_relay
  with_relay-Up key registry path false disk hub e =
      absurd (not_ok (err bad_relay) bad_relay hub refl e)
  with_relay-Up key registry path true disk hub e =
      with_endpoint-Up key registry path start.endpoint_addrs disk hub e

  with_socket-Up :
      (key : List ℕ) (registry : ClientRegistry) (b : Result String BindError × Sockets)
      (disk : Disk) (hub : Hub)
      → (with_socket id_of format start key registry b disk).0 ≡ ok hub
      → Up key registry disk.key hub (with_socket id_of format start key registry b disk).1
  unfolding with_socket
  with_socket-Up key registry (err e', sockets) disk hub e =
      absurd (not_ok (err no_socket) no_socket hub refl e)
  with_socket-Up key registry (ok path, sockets) disk hub e =
      with_relay-Up key registry path _ (record disk { sockets = sockets }) hub e

  with_registry-Up :
      (env : Environment) (key : List ℕ) (l : Result ClientRegistry RegistryError) (disk : Disk)
      (hub : Hub)
      → (with_registry id_of format start env key l disk).0 ≡ ok hub
      → (registry : ClientRegistry) × (l ≡ ok registry)
        × Up key registry disk.key hub (with_registry id_of format start env key l disk).1
  unfolding with_registry
  with_registry-Up env key (err e') disk hub e =
      absurd (not_ok (err no_registry) no_registry hub refl e)
  with_registry-Up env key (ok registry) disk hub e =
      (registry, refl, with_socket-Up key registry _ disk hub e)

  with_key-Up :
      (env : Environment) (k : Result (List ℕ) KeyError × KeyFile) (disk : Disk) (hub : Hub)
      → (with_key id_of format start env k disk).0 ≡ ok hub
      → (key : List ℕ) × (registry : ClientRegistry) × (k.0 ≡ ok key)
        × (Clients.load format start.reads_registry disk.registry ≡ ok registry)
        × Up key registry k.1 hub (with_key id_of format start env k disk).1
  unfolding with_key
  with_key-Up env (err e', file) disk hub e = absurd (not_ok (err no_key) no_key hub refl e)
  with_key-Up env (ok key, file) disk hub e =
      let there =
        with_registry-Up env key (Clients.load format start.reads_registry disk.registry)
          (record disk { key = file }) hub e in
      (key, there.0, refl, there.1, there.2)

  run-Up :
      (env : Environment) (disk : Disk) (hub : Hub)
      → (run id_of format start env disk).0 ≡ ok hub
      → let k = load_or_generate_keypair start.key_io disk.key in
        (key : List ℕ) × (registry : ClientRegistry) × (k.0 ≡ ok key)
        × (Clients.load format start.reads_registry disk.registry ≡ ok registry)
        × Up key registry k.1 hub (run id_of format start env disk).1
  unfolding run
  run-Up env disk hub e =
      with_key-Up env (load_or_generate_keypair start.key_io disk.key) disk hub e

value_of : {A E : Type 0} → Result A E → A → A
value_of (ok a) other = a
value_of (err e) other = other

same_value : {A E : Type 0} (r : Result A E) (a b : A) → r ≡ ok a → r ≡ ok b → a ≡ b
unfolding value_of
same_value r a b p q = ap (λ x. value_of x a) (sym p ∙ q)

check_hello_reconnect :
    (env : Env) (remote : String) (hello : ClientHello) (hub : Hub)
    → hello.token ≡ none
    → (check_hello env remote hello hub).0 ≡ (
        if is_some (find_by_id remote hub.registry)
        then welcomed (server_hello true hub)
        else refused (server_hello false hub))
unfolding check_hello check_token
check_hello_reconnect env remote hello hub t =
    ap (λ o. (check_token env remote hello o hub).0) t ∙ answered (find_by_id remote hub.registry)
  where
    answered :
        (o : Option ClientEntry)
        → (reconnect o hub).0 ≡ (
            if is_some o
            then welcomed (server_hello true hub)
            else refused (server_hello false hub))
    answered none = refl
    answered (some e) = refl

load-saved :
    (format : FileFormat ClientEntry) (r : ClientRegistry)
    → r.file ≡ some (format.print r.entries)
    → Clients.load format true r.file ≡ ok r
unfolding Clients.load load_file parse_file
load-saved format r s =
    ap (load_file format true) s
    ∙ rw (format.parse-print r.entries) refl
    ∙ ap (λ (f : Option String). ok (record { entries = r.entries; file = f })) (sym s)

-- An agent that is started once more, on the key file that its first start has left and a registry that is
-- in its file as it was in memory: it has the endpoint id that its devices know and that registry, so a
-- device that presents no token is welcomed exactly if it was enrolled. The later start can read both files,
-- and the generated keys have 32 bytes.
pub run-check_hello :
    (id_of : List ℕ → String) (format : FileFormat ClientEntry) (first later : Start)
    (env env' : Environment) (disk left : Disk) (hub hub' : Hub) (r : ClientRegistry) (e : Env)
    (remote : String) (hello : ClientHello)
    → (length first.key_io.generated == 32) ≡ true
    → (run id_of format first env disk).0 ≡ ok hub
    → left.key ≡ (run id_of format first env disk).1.key
    → left.registry ≡ r.file
    → r.file ≡ some (format.print r.entries)
    → later.key_io.reads ≡ true
    → later.reads_registry ≡ true
    → (run id_of format later env' left).0 ≡ ok hub'
    → hello.token ≡ none
    → (hub'.endpoint_id ≡ hub.endpoint_id)
      × (hub'.registry ≡ r)
      × ((check_hello e remote hello hub').0 ≡ (
          if is_some (find_by_id remote r)
          then welcomed (server_hello true hub')
          else refused (server_hello false hub')))
run-check_hello id_of format first later env env' disk left hub hub' r e remote hello g u k f s rk
      rr u' t =
    let (key, registry, given, loaded, up) = run-Up id_of format first env disk hub u in
    let (key', registry', given', loaded', up') = run-Up id_of format later env' left hub' u' in
    let kept = load_or_generate_keypair_stable first.key_io later.key_io disk.key key g rk given in
    let key_same : key' ≡ key =
      same_value (load_or_generate_keypair later.key_io left.key).0 key' key given' (
        ap (λ q. (load_or_generate_keypair later.key_io q).0) (k ∙ up.file_is)
        ∙ ap (λ q. q.0) kept.0) in
    let registry_same : registry' ≡ r =
      same_value (Clients.load format later.reads_registry left.registry) registry' r loaded' (
        ap (λ b. Clients.load format b left.registry) rr
        ∙ ap (Clients.load format true) f
        ∙ load-saved format r s) in
    let registry_is = up'.registry_is ∙ registry_same in
    (
      up'.id_is ∙ ap id_of key_same ∙ sym up.id_is,
      registry_is,
      check_hello_reconnect e remote hello hub' t
          ∙ ap
              (λ q.
                if is_some (find_by_id remote q)
                then welcomed (server_hello true hub')
                else refused (server_hello false hub'))
              registry_is,
    )
