-- ===== src/Agent/Requests/Targets.antt =====
-- The connections that a request goes to: those of the capable connected clients, in the routing order.
use subportal.Prelude.{
  ℕ, String, ◌≡◌, refl, ◌≢◌, true, some, List, [], ◌∷◌, map, All, All-both, All-filter_pass, ap,
  eq_iff, eq_refl, arith, ◌∙◌,
}
use subportal.Prelude.Sort.{All-sort_by}
use subportal.Prelude.Table
use subportal.Prelude.Table.{Table, keys, values, IsKeyed, AllEntries}
use subportal.Router.{ClientInfo, rank, fan_out, has_capability, cmp_clients}
use subportal.Hub.{ConnectedClient, Hub, client_info, client_infos}
use subportal.Hub.Invariant.{IsIndexed, infos-All}
use subportal.Agent.Requests.{connections, ranked_connections}

-- The client that the table has under the endpoint id of `info`, whose view `info` is.
pub record Entry (t : Table ConnectedClient) (info : ClientInfo) : Type 0 where
  pub client : ConnectedClient
  pub found : Table.get info.endpoint_id t ≡ some client
  pub view : client_info client ≡ info

Entry-behind :
    (k : String) (c : ConnectedClient) (t : Table ConnectedClient) (info : ClientInfo)
    → info.endpoint_id ≢ k
    → Entry t info
    → Entry ((k, c) ∷ t) info
unfolding Table.get
Entry-behind k c t info h e = record {
  client = e.client;
  found = ground (arith, e.found, eq_iff k info.endpoint_id);
  view = e.view;
}

Entry-infos : (t : Table ConnectedClient) → IsIndexed t → All (Entry t) (map client_info (values t))
unfolding Table.get
Entry-infos [] h = tt
Entry-infos ((k, c) ∷ t) ((a, b), (e, f)) = (
  record { client = c; found = rw (e, eq_refl c.endpoint_id) refl; view = refl },
  All-both (map client_info (values t)) (Entry-behind k c t) (infos-All k t a f)
      (Entry-infos t (b, f)),
)

-- A connection of a connected client that has the capability.
pub record IsCapable (t : Table ConnectedClient) (capability : String) (target : String × ℕ)
    : Type 0 where
  pub client : ConnectedClient
  pub found : Table.get target.0 t ≡ some client
  pub connection : target.1 ≡ client.connection
  pub capable : has_capability capability (client_info client) ≡ true

abbrev Found : Table ConnectedClient → String → ClientInfo → Type 0
Found t capability info = Entry t info × (has_capability capability info ≡ true)

ids-connections :
    (t : Table ConnectedClient) (capability : String) (infos : List ClientInfo)
    → All (Found t capability) infos
    → map (λ c. c.0) (connections t infos) ≡ map (λ (i : ClientInfo). i.endpoint_id) infos
unfolding connections
ids-connections t capability [] h = refl
ids-connections t capability (info ∷ infos) h =
    rw (h.0.0.found) (ap (◌∷◌ info.endpoint_id) (ids-connections t capability infos h.1))

connections-IsCapable :
    (t : Table ConnectedClient) (capability : String) (infos : List ClientInfo)
    → All (Found t capability) infos
    → All (IsCapable t capability) (connections t infos)
unfolding connections
connections-IsCapable t capability [] h = tt
connections-IsCapable t capability (info ∷ infos) h = rw (h.0.0.found) (
  record {
    client = h.0.0.client;
    found = h.0.0.found;
    connection = refl;
    capable = ap (has_capability capability) h.0.0.view ∙ h.0.1;
  },
  connections-IsCapable t capability infos h.1,
)

Found-fan_out :
    (capability : String) (hub : Hub)
    → IsIndexed hub.clients
    → All (Found hub.clients capability) (fan_out (client_infos hub) capability)
unfolding fan_out client_infos
Found-fan_out capability hub i =
    All-filter_pass _ (has_capability capability) _ (Entry-infos hub.clients i)

Found-rank :
    (capability : String) (hub : Hub)
    → IsIndexed hub.clients
    → All (Found hub.clients capability) (rank (client_infos hub) capability)
unfolding rank fan_out
Found-rank capability hub i =
    All-sort_by _ cmp_clients _ (unfold fan_out in Found-fan_out capability hub i)

-- The targets of a failover or a race are the capable clients in the order of `rank`, none left out,
-- each with the connection of the client that is connected under its endpoint id, and those of a
-- fan-out are all the capable clients. The hub has one entry for each endpoint id.
pub ranked_connections_lem :
    (capability : String) (hub : Hub)
    → IsIndexed hub.clients
    → (map (λ c. c.0) (ranked_connections capability hub)
        ≡ map (λ (i : ClientInfo). i.endpoint_id) (rank (client_infos hub) capability))
      × All (IsCapable hub.clients capability) (ranked_connections capability hub)
      × (map (λ c. c.0) (connections hub.clients (fan_out (client_infos hub) capability))
          ≡ map (λ (i : ClientInfo). i.endpoint_id) (fan_out (client_infos hub) capability))
      × All
          (IsCapable hub.clients capability)
          (connections hub.clients (fan_out (client_infos hub) capability))
unfolding ranked_connections
ranked_connections_lem capability hub i =
    let ranked = Found-rank capability hub i in
    let fanned = Found-fan_out capability hub i in
    (
      ids-connections hub.clients capability _ ranked,
      connections-IsCapable hub.clients capability _ ranked,
      ids-connections hub.clients capability _ fanned,
      connections-IsCapable hub.clients capability _ fanned,
    )
