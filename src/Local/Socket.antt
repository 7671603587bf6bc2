-- ===== src/Local/Socket.antt =====
-- The Unix socket between the tools and the agent: where it is (crates/subportal-lib/src/consts.rs and
-- client.rs), and `Server::bind` and the drop of a server (server.rs). A socket file that somebody listens on is
-- known by the number of the server, and a stale one has none.
pub mod Reached
use Prim.Native.String.{◌++◌ as str_append}
use subportal.Prelude.{
  ℕ, String, Bool, true, false, Option, none, some, List, [], ◌∷◌, Result, ok, err, unwrap_or,
  and_then,
}
use subportal.Prelude.Decimal.{to_decimal}
use subportal.Prelude.Table
use subportal.Prelude.Table.{Table, contains_key}
use subportal.Prelude.Text.{join_path}

-- What a process reads of its environment, and its user.
pub record Environment : Type 0 where
  pub socket_path : Option String
  pub runtime_dir : Option String
  pub uid : ℕ

-- `default_socket_path`
unfoldable pub default_socket_path : Environment → String
unfolding join_path
default_socket_path env =
    join_path (unwrap_or env.runtime_dir (str_append "/run/user/" (to_decimal env.uid)))
      "subportal.sock"

-- The path of `Client::new`.
unfoldable pub client_path : Environment → String
unfolding default_socket_path
client_path env = unwrap_or env.socket_path (default_socket_path env)

-- Whether the file operations of `bind` succeed, as far as the path that exists is not in the way of one.
pub record BindIo : Type 0 where
  pub creates_dir : Bool
  pub removes : Bool
  pub listens : Bool

pub data BindError : Type 0 where
  no_dir not_removed not_bound : BindError

abbrev pub Sockets : Type 0
Sockets = Table (Option ℕ)

-- `UnixListener::bind`, which fails on a path that exists, and perhaps for another reason.
unfoldable listen_on : Bool → Bool → ℕ → String → Sockets → Result String BindError × Sockets
listen_on true listens server path sockets = (err not_bound, sockets)
listen_on false false server path sockets = (err not_bound, sockets)
listen_on false true server path sockets = (ok path, Table.insert path (some server) sockets)

unfoldable listen : Bool → ℕ → String → Sockets → Result String BindError × Sockets
unfolding listen_on
listen listens server path sockets =
    listen_on (contains_key path sockets) listens server path sockets

unfoldable remove_stale : BindIo → Bool → ℕ → String → Sockets → Result String BindError × Sockets
unfolding listen
remove_stale io true server path sockets = listen io.listens server path (Table.remove path sockets)
remove_stale io false server path sockets = (err not_removed, sockets)

unfoldable if_present : BindIo → Bool → ℕ → String → Sockets → Result String BindError × Sockets
unfolding remove_stale
if_present io true server path sockets = remove_stale io io.removes server path sockets
if_present io false server path sockets = listen io.listens server path sockets

unfoldable in_dir : BindIo → Bool → ℕ → String → Sockets → Result String BindError × Sockets
unfolding if_present
in_dir io true server path sockets = if_present io (contains_key path sockets) server path sockets
in_dir io false server path sockets = (err no_dir, sockets)

-- `Server::bind`, by the server with a number.
unfoldable pub bind : BindIo → ℕ → String → Sockets → Result String BindError × Sockets
unfolding in_dir
bind io server path sockets = in_dir io io.creates_dir server path sockets

unfoldable pub bind_default : BindIo → ℕ → Environment → Sockets → Result String BindError × Sockets
unfolding bind default_socket_path
bind_default io server env sockets = bind io server (default_socket_path env) sockets

-- `drop`: the file is removed, whoever listens on it.
unfoldable pub drop_server : String → Sockets → Sockets
drop_server path sockets = Table.remove path sockets

-- `UnixStream::connect`: the server that accepts.
unfoldable pub connect : String → Sockets → Option ℕ
connect path sockets = and_then (Table.get path sockets) λ listener. listener
