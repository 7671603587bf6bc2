-- ===== src/Desktop/Run/Served.antt =====
-- Which servers the daemon serves.
use subportal.Prelude.{
  ℕ, String, ◌≡◌, refl, ◌∙◌, sym, ap, Bool, true, false, ◌||◌, Option, none, some, List, [], ◌∷◌,
  ok, err, str_eq, Bool-cases, inl, inr, arith,
}
use subportal.Prelude.Table
use subportal.Prelude.Table.{Table, contains_key}
use subportal.Peers.Servers
use subportal.Peers.Servers.{ServerEntry, ServerRegistry}
use subportal.Android.Session.{has_server}
use subportal.Android.Session
use subportal.Android.Session.Reload.{
  or_else, server_of, contains_none, contains_some, reload_servers_lem,
}
use subportal.Desktop.Run.{
  Daemon, spawn_all, started, reload_servers, Signal, hangup, interrupt, run_loop,
}

-- The servers of the registry that was loaded last.
abbrev pub last_loaded : List ServerEntry → List Signal → List ServerEntry
last_loaded servers [] = servers
last_loaded servers (hangup (ok registry) ∷ signals) = last_loaded (Servers.list registry) signals
last_loaded servers (hangup (err e) ∷ signals) = last_loaded servers signals
last_loaded servers (interrupt ∷ signals) = []

-- A task is there for exactly the servers of the list.
abbrev Serves : List ServerEntry → Daemon → Type 0
Serves servers d = (id : String) → contains_key id d.active ≡ has_server id servers

server_of_present :
    (id : String) (servers : List ServerEntry)
    → has_server id servers ≡ true
    → (s : ServerEntry) × (server_of id servers ≡ some s)
server_of_present id [] h = cc
server_of_present id (s ∷ servers) h = elim (Bool-cases (str_eq s.endpoint_id id)) [
  | inl e ↦ (s, rw e refl)
  | inr e ↦ let found = server_of_present id servers (ground arith) in (found.0, rw e found.1)
]

or_else-some :
    (o o' : Option ServerEntry) (s : ServerEntry)
    → o' ≡ some s
    → (t : ServerEntry) × (or_else o o' ≡ some t)
or_else-some none o' s e = (s, e)
or_else-some (some h) o' s e = (h, refl)

contains-reload :
    (id : String) (servers : List ServerEntry) (active : Table ServerEntry)
    → contains_key id (Session.reload_servers servers active).0 ≡ has_server id servers
contains-reload id servers active =
    let reloaded = (Session.reload_servers servers active).0 in
    let entry = reload_servers_lem id servers active in
    elim (Bool-cases (has_server id servers)) [
      | inl e ↦
          let first = server_of_present id servers e in
          let kept = or_else-some (Table.get id active) (server_of id servers) first.0 first.1 in
          contains_some id kept.0 reloaded (entry ∙ rw e kept.1) ∙ sym e
      | inr e ↦ contains_none id reloaded (entry ∙ rw e refl) ∙ sym e
    ]

contains-insert :
    (id : String) (s : ServerEntry) (t : Table ServerEntry)
    → contains_key id (Table.insert s.endpoint_id s t)
      ≡ (str_eq s.endpoint_id id || contains_key id t)
contains-insert id s t = elim (Bool-cases (str_eq s.endpoint_id id)) [
  | inl e ↦ rw e (contains_some id s _ (Table.get-insert s.endpoint_id id s t ∙ rw e refl))
  | inr e ↦
      let kept : Table.get id (Table.insert s.endpoint_id s t) ≡ Table.get id t =
        Table.get-insert s.endpoint_id id s t ∙ rw e refl in
      ap (λ (o : Option ServerEntry). elim o [ none ↦ false | some v ↦ true ]) kept ∙ rw e refl
]

contains-spawn_all :
    (id : String) (servers : List ServerEntry) (t : Table ServerEntry)
    → contains_key id (spawn_all servers t) ≡ (has_server id servers || contains_key id t)
unfolding spawn_all Table.get
contains-spawn_all id [] t = refl
contains-spawn_all id (s ∷ servers) t =
    contains-spawn_all id servers (Table.insert s.endpoint_id s t)
    ∙ ap (λ b. has_server id servers || b) (contains-insert id s t)
    ∙ or_swap (has_server id servers) (str_eq s.endpoint_id id) (contains_key id t)
  where
    or_swap : (a b c : Bool) → (a || (b || c)) ≡ ((b || a) || c)
    or_swap a b c = ground arith

run_loop-Serves :
    (servers : List ServerEntry) (signals : List Signal) (d : Daemon)
    → Serves servers d
    → Serves (last_loaded servers signals) (run_loop signals d)
unfolding run_loop reload_servers Table.get
run_loop-Serves servers [] d h = h
run_loop-Serves servers (hangup (ok registry) ∷ signals) d h =
    run_loop-Serves (Servers.list registry) signals _
      (λ id. contains-reload id (Servers.list registry) d.active)
run_loop-Serves servers (hangup (err e) ∷ signals) d h = run_loop-Serves servers signals d h
run_loop-Serves servers (interrupt ∷ signals) d h = λ id. refl

-- The daemon, started with some servers, after any signals: a task serves a connection to a server
-- exactly if the registry that was loaded last has it, where a load that fails changes nothing, and to
-- none behind an interrupt.
pub run_loop-started :
    (pid : ℕ) (servers : List ServerEntry) (signals : List Signal) (id : String)
    → contains_key id (run_loop signals (started pid servers)).active
      ≡ has_server id (last_loaded servers signals)
unfolding started Table.get
run_loop-started pid servers signals id =
    run_loop-Serves servers signals (started pid servers)
      (λ id'. contains-spawn_all id' servers [] ∙ or_false (has_server id' servers)) id
  where
    or_false : (b : Bool) → (b || false) ≡ b
    or_false b = ground arith
