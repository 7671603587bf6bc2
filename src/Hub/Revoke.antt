-- ===== src/Hub/Revoke.antt =====
-- Revoking a client: what is left in the registry and among the connections.
use mathlib.Core.Path.{subst}
use subportal.Prelude.{
  String, ◌≡◌, refl, ◌≢◌, str_eq, eq_iff, Bool, true, false, Option, none, some, List, [], ◌∷◌, any,
  All, if◌then◌else◌, arith, Bool-cases, inl, inr, Result, ok, err, and_then, ◌∙◌,
}
use subportal.Prelude.Table
use subportal.Prelude.Table.{Table, values, keys, IsKeyed, AllEntries}
use subportal.Protocol.{done}
use subportal.Peers.Registry.{RegistryError}
use subportal.Peers.Lookup.{IsUnique, unless_named, remove_entry_lem}
use subportal.Peers.Clients
use subportal.Peers.Clients.{ClientEntry, ClientRegistry, client_identified, find_by_id}
use subportal.Hub.{
  ConnectedClient, Hub, Env, is_named_by, disconnect, to_disconnect, revoke_removed, revoke,
}
use subportal.Hub.Invariant.{IsIndexed}

abbrev is_listed : String → List String → Bool
is_listed k ks = any (λ j. str_eq j k) ks

get-disconnect :
    (k : String) (eids : List String) (t : Table ConnectedClient)
    → Table.get k (disconnect eids t).0 ≡ (if is_listed k eids then none else Table.get k t)
unfolding disconnect
get-disconnect k [] t = refl
get-disconnect k (eid ∷ eids) t =
    ground (arith, get-disconnect k eids (Table.remove eid t), Table.get-remove eid k t)

-- What is left of a connected client when the clients that `x` names are disconnected.
abbrev pub unless_named_by : String → ConnectedClient → Option ConnectedClient
unless_named_by x c = if is_named_by x c then none else some c

not_listed :
    (x k : String) (t : Table ConnectedClient)
    → All (λ j. j ≢ k) (keys t)
    → AllEntries (λ j c. j ≡ c.endpoint_id) t
    → is_listed k (to_disconnect x t) ≡ false
unfolding to_disconnect
not_listed x k [] h e = refl
not_listed x k ((j, c) ∷ t) h e = elim (Bool-cases (is_named_by x c)) [
  | inl p ↦ rw p (ground (arith, not_listed x k t h.1 e.1, eq_iff c.endpoint_id k, h.0, e.0))
  | inr p ↦ rw p (not_listed x k t h.1 e.1)
]

get_absent :
    (k : String) (t : Table ConnectedClient) → All (λ j. j ≢ k) (keys t) → Table.get k t ≡ none
unfolding Table.get
get_absent k [] h = refl
get_absent k ((j, c) ∷ t) h = ground (arith, get_absent k t h.1, eq_iff j k)

unlisted_get :
    (x k : String) (t : Table ConnectedClient)
    → IsIndexed t
    → (if is_listed k (to_disconnect x t) then none else Table.get k t)
      ≡ and_then (Table.get k t) (unless_named_by x)
unfolding to_disconnect Table.get
unlisted_get x k [] h = refl
unlisted_get x k ((j, c) ∷ t) ((a, b), (e, f)) = elim (Bool-cases (str_eq j k)) [
  | inl p ↦ elim (Bool-cases (is_named_by x c)) [
    | inl q ↦ rw (p, q) (ground (arith, eq_iff j k, eq_iff c.endpoint_id k))
    | inr q ↦
        rw (p, q)
          (rw (not_listed x k t (subst (λ i. All (λ l. l ≢ i) (keys t)) ((eq_iff j k).0 p) a) f)
            refl)
  ]
  | inr p ↦ elim (Bool-cases (is_named_by x c)) [
    | inl q ↦
        rw (p, q) (ground (arith, eq_iff j k, eq_iff c.endpoint_id k, unlisted_get x k t (b, f)))
    | inr q ↦ rw (p, q) (unlisted_get x k t (b, f))
  ]
]

find-remove :
    (env : Env) (x id : String) (r : ClientRegistry)
    → IsUnique r.entries
    → find_by_id id (Clients.remove env.format env.io x r).1
      ≡ and_then (find_by_id id r) (unless_named x)
unfolding Clients.remove find_by_id
find-remove env x id r u = (remove_entry_lem env.format env.io x r u).1 id

revoke_removed_lem :
    (x id : String) (hub : Hub) (r : Result Bool RegistryError × ClientRegistry)
    → IsIndexed hub.clients
    → find_by_id id r.1 ≡ and_then (find_by_id id hub.registry) (unless_named x)
    → (revoke_removed x hub r).0 ≡ ok done
    → (find_by_id id (revoke_removed x hub r).1.registry
        ≡ and_then (find_by_id id hub.registry) (unless_named x))
      × (Table.get id (revoke_removed x hub r).1.clients
          ≡ and_then (Table.get id hub.clients) (unless_named_by x))
unfolding revoke_removed
revoke_removed_lem x id hub (err e, r) i f h = absurd (cc)
revoke_removed_lem x id hub (ok false, r) i f h = absurd (cc)
revoke_removed_lem x id hub (ok true, r) i f h = (
  f,
  get-disconnect id (to_disconnect x hub.clients) hub.clients ∙ unlisted_get x id hub.clients i,
)

-- What `revoke_client` leaves when it succeeds: in the registry no entry that has the argument as its
-- endpoint id or name, and among the connected clients none that has it as its endpoint id or name;
-- every other entry and every other connected client stays as it was. The ids of the registry and of
-- the connected clients are unique before.
pub revoke_lem :
    (env : Env) (x : String) (hub : Hub) (id : String)
    → IsIndexed hub.clients
    → IsUnique hub.registry.entries
    → (revoke env x hub).0 ≡ ok done
    → (find_by_id id (revoke env x hub).1.registry
        ≡ and_then (find_by_id id hub.registry) (unless_named x))
      × (Table.get id (revoke env x hub).1.clients
          ≡ and_then (Table.get id hub.clients) (unless_named_by x))
unfolding revoke
revoke_lem env x hub id i u e =
    revoke_removed_lem x id hub (Clients.remove env.format env.io x hub.registry) i
      (find-remove env x id hub.registry u) e
