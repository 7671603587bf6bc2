-- ===== src/Agent/Handshake/Revocation.antt =====
-- Revocation and a connection of the revoked device: before the handshake, and in the middle of it.
use mathlib.Core.Option
use mathlib.Core.Path.{subst}
use subportal.Prelude.{
  ℕ, String, ◌≡◌, refl, true, false, none, some, List, [], ◌∷◌, ◌∙◌, sym, ap, arith, str_eq,
  eq_refl, ok, inl, inr, and_then, Option-cases, Bool-cases, find,
}
use subportal.Prelude.Table
use subportal.Protocol.{done}
use subportal.Control.{ClientHello}
use subportal.Peers.Registry.{Registry}
use subportal.Peers.Lookup.{IsUnique, unless_named}
use subportal.Peers.Clients
use subportal.Peers.Clients.{
  ClientEntry, ClientRegistry, client_identified, find_by_id, touch_entries, touch_save,
}
use subportal.Hub.{ConnectedClient, Hub, Env, add_client, revoke}
use subportal.Hub.Invariant.{IsIndexed}
use subportal.Hub.Revoke.{revoke_lem}
use subportal.Agent.Handshake.{
  refused, welcomed, server_hello, check_hello, check_token, reconnect, join_hub,
}

unless_named_id :
    (id : String) (r : Registry ClientEntry) → and_then (find_by_id id r) (unless_named id) ≡ none
unfolding find_by_id
unless_named_id id r = go r.entries
  where
    go :
        (es : List ClientEntry)
        → and_then (find (λ e. str_eq e.endpoint_id id) es) (unless_named id) ≡ none
    go [] = refl
    go (e ∷ es) = elim (Bool-cases (str_eq e.endpoint_id id)) [
      | inl p ↦ rw p (ground arith)
      | inr p ↦ rw p (go es)
    ]

check_hello_unknown :
    (env : Env) (id : String) (hello : ClientHello) (hub : Hub)
    → hello.token ≡ none
    → find_by_id id hub.registry ≡ none
    → check_hello env id hello hub ≡ (refused (server_hello false hub), hub)
unfolding check_hello check_token reconnect
check_hello_unknown env id hello hub e n = rw (e, n) refl

-- A device whose endpoint id has been revoked is refused when it connects again without a token,
-- where the ids of the registry and the ids of the connected clients were unique.
pub revoke-check_hello :
    (env env' : Env) (id : String) (hello : ClientHello) (hub : Hub)
    → IsIndexed hub.clients
    → IsUnique hub.registry.entries
    → (revoke env id hub).0 ≡ ok done
    → hello.token ≡ none
    → check_hello env' id hello (revoke env id hub).1
      ≡ (refused (server_hello false (revoke env id hub).1), (revoke env id hub).1)
revoke-check_hello env env' id hello hub i u e t =
    check_hello_unknown env' id hello (revoke env id hub).1 t
      ((revoke_lem env id hub id i u e).0 ∙ unless_named_id id hub.registry)

touch_entries_unknown :
    (now : ℕ) (id : String) (capabilities : List String) (es : List ClientEntry)
    → find (λ e. str_eq e.endpoint_id id) es ≡ none
    → touch_entries now id capabilities es ≡ none
unfolding touch_entries
touch_entries_unknown now id capabilities [] h = refl
touch_entries_unknown now id capabilities (e ∷ es) h =
    ground (arith, touch_entries_unknown now id capabilities es)

registry-join_hub :
    (env : Env) (id : String) (hello : ClientHello) (connection : ℕ) (hub : Hub)
    → find_by_id id hub.registry ≡ none
    → (join_hub env id hello connection hub).registry ≡ hub.registry
unfolding join_hub find_by_id add_client Clients.touch
registry-join_hub env id hello connection hub h =
    rw (touch_entries_unknown env.now id hello.capabilities hub.registry.entries h) refl

get-join_hub_self :
    (env : Env) (id : String) (hello : ClientHello) (connection : ℕ) (hub : Hub)
    → Option.map
        (λ (c : ConnectedClient). c.connection)
        (Table.get id (join_hub env id hello connection hub).clients)
      ≡ some connection
unfolding join_hub add_client
get-join_hub_self env id hello connection hub =
    rw (Table.get-insert id id _ hub.clients, eq_refl id) refl

check_hello_same :
    (env : Env) (id : String) (hello : ClientHello) (hub : Hub)
    → hello.token ≡ none
    → (check_hello env id hello hub).1 ≡ hub
unfolding check_hello check_token reconnect
check_hello_same env id hello hub e = elim (Option-cases (find_by_id id hub.registry)) [
  | inl n ↦ rw (e, n) refl
  | inr (c, p) ↦ rw (e, p) refl
]

join_revoked :
    (env env' : Env) (id : String) (hello : ClientHello) (connection : ℕ) (hub : Hub)
    → IsIndexed hub.clients
    → IsUnique hub.registry.entries
    → (revoke env id hub).0 ≡ ok done
    → (find_by_id id (join_hub env' id hello connection (revoke env id hub).1).registry ≡ none)
      × (Option.map
            (λ (c : ConnectedClient). c.connection)
            (Table.get id (join_hub env' id hello connection (revoke env id hub).1).clients)
          ≡ some connection)
join_revoked env env' id hello connection hub i u e =
    let gone = (revoke_lem env id hub id i u e).0 ∙ unless_named_id id hub.registry in
    (
      ap (find_by_id id) (registry-join_hub env' id hello connection (revoke env id hub).1 gone)
          ∙ gone,
      get-join_hub_self env' id hello connection (revoke env id hub).1,
    )

-- The handshake and the registration of the client are two locked sections. A revocation that
-- succeeds between the two, for a device that was welcomed without a token, leaves it connected though it
-- is no longer enrolled, where the ids of the registry and of the connected clients were unique.
pub revoke-join_hub :
    (env env' : Env) (id : String) (hello : ClientHello) (connection : ℕ) (hub : Hub)
    → IsIndexed hub.clients
    → IsUnique hub.registry.entries
    → hello.token ≡ none
    → (check_hello env' id hello hub).0 ≡ welcomed (server_hello true hub)
    → (revoke env id (check_hello env' id hello hub).1).0 ≡ ok done
    → (find_by_id id
          (join_hub env' id hello connection
            (revoke env id (check_hello env' id hello hub).1).1).registry
        ≡ none)
      × (Option.map
            (λ (c : ConnectedClient). c.connection)
            (Table.get id
              (join_hub env' id hello connection
                (revoke env id (check_hello env' id hello hub).1).1).clients)
          ≡ some connection)
revoke-join_hub env env' id hello connection hub i u t w e =
    let same = sym (check_hello_same env' id hello hub t) in
    join_revoked env env' id hello connection (check_hello env' id hello hub).1
      (subst (λ (h : Hub). IsIndexed h.clients) same i)
      (subst (λ (h : Hub). IsUnique h.registry.entries) same u) e
