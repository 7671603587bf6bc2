-- ===== src/Local/Socket/Reached.antt =====
-- Which agent a tool reaches.
use subportal.Prelude.{
  ℕ, String, ◌≡◌, refl, ◌∙◌, sym, ap, Bool, true, false, none, some, Result, ok, str_eq, eq_refl,
  Option, and_then, unwrap_or,
}
use mathlib.Core.Path.{subst}
use subportal.Prelude.Table
use subportal.Prelude.Table.{Table, contains_key}
use subportal.Local.Socket.{
  Environment, default_socket_path, client_path, BindIo, BindError, Sockets, listen, remove_stale,
  if_present, in_dir, listen_on, bind, bind_default, drop_server, connect,
}

removed : (path : String) (sockets : Sockets) → Table.get path (Table.remove path sockets) ≡ none
removed path sockets = Table.get-remove path path sockets ∙ rw (eq_refl path) refl

-- The path has the server, and what another path has is as before.
record Bound (server : ℕ) (path : String) (before : Sockets) (r : Result String BindError × Sockets)
    : Type 0 where
  succeeds : r.0 ≡ ok path
  listens : Table.get path r.1 ≡ some (some server)
  others :
      (other : String) → str_eq path other ≡ false → Table.get other r.1 ≡ Table.get other before

listen-Bound :
    (io : BindIo) (server : ℕ) (path : String) (sockets : Sockets)
    → io.listens ≡ true
    → contains_key path sockets ≡ false
    → Bound server path sockets (listen io.listens server path sockets)
unfolding listen listen_on
listen-Bound io server path sockets l n =
    subst (λ b. Bound server path sockets (listen_on b io.listens server path sockets)) (sym n)
      (subst (λ b. Bound server path sockets (listen_on false b server path sockets)) (sym l)
        (record {
          succeeds = refl;
          listens = Table.get-insert path path (some server) sockets ∙ rw (eq_refl path) refl;
          others = λ other m. Table.get-insert path other (some server) sockets ∙ rw m refl;
        }))

remove_stale-Bound :
    (io : BindIo) (server : ℕ) (path : String) (sockets : Sockets)
    → io.listens ≡ true
    → Bound server path sockets (remove_stale io true server path sockets)
unfolding remove_stale
remove_stale-Bound io server path sockets l =
    let there = listen-Bound io server path (Table.remove path sockets) l (
      ap (λ (o : Option (Option ℕ)). elim o [ none ↦ false | some v ↦ true ])
        (removed path sockets)) in
    record {
      succeeds = there.succeeds;
      listens = there.listens;
      others = λ other n. there.others other n ∙ Table.get-remove path other sockets ∙ rw n refl;
    }

if_present-Bound :
    (io : BindIo) (present : Bool) (server : ℕ) (path : String) (sockets : Sockets)
    → io.removes ≡ true
    → io.listens ≡ true
    → contains_key path sockets ≡ present
    → Bound server path sockets (if_present io present server path sockets)
unfolding if_present
if_present-Bound io true server path sockets r l p =
    subst (λ b. Bound server path sockets (remove_stale io b server path sockets)) (sym r)
      (remove_stale-Bound io server path sockets l)
if_present-Bound io false server path sockets r l p = listen-Bound io server path sockets l p

bind-Bound :
    (io : BindIo) (server : ℕ) (path : String) (sockets : Sockets)
    → io.creates_dir ≡ true
    → io.removes ≡ true
    → io.listens ≡ true
    → Bound server path sockets (bind io server path sockets)
unfolding bind in_dir
bind-Bound io server path sockets c r l =
    subst (λ b. Bound server path sockets (in_dir io b server path sockets)) (sym c)
      (if_present-Bound io (contains_key path sockets) server path sockets r l refl)

-- An agent whose file operations succeed binds the default path, whether a socket file was missing there,
-- stale or that of another agent. Where nothing overrides the socket's path, a tool then reaches that
-- agent, and every other socket is as it was. When this agent ends, or an earlier one that had bound the
-- default path, a tool reaches none there.
pub connect-bind_default :
    (io : BindIo) (env : Environment) (server : ℕ) (other : String) (sockets : Sockets)
    → env.socket_path ≡ none
    → io.creates_dir ≡ true
    → io.removes ≡ true
    → io.listens ≡ true
    → str_eq (default_socket_path env) other ≡ false
    → let there = (bind_default io server env sockets).1 in
      ((bind_default io server env sockets).0 ≡ ok (default_socket_path env))
      × (connect (client_path env) there ≡ some server)
      × (Table.get other there ≡ Table.get other sockets)
      × (connect (client_path env) (drop_server (default_socket_path env) there) ≡ none)
unfolding bind_default connect client_path drop_server
connect-bind_default io env server other sockets u c r l n =
    let path = default_socket_path env in
    let there = bind-Bound io server path sockets c r l in
    let after = (bind_default io server env sockets).1 in
    (
      there.succeeds,
      ap (λ o. and_then (Table.get (unwrap_or o path) after) λ l. l) u
          ∙ ap (λ o. and_then o λ l. l) there.listens,
      there.others other n,
      ap (λ o. and_then (Table.get (unwrap_or o path) (Table.remove path after)) λ l. l) u
          ∙ ap (λ o. and_then o λ l. l) (removed path after),
    )
