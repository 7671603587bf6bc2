-- ===== src/Hub/Invariant.antt =====
-- Every hub that the agent reaches has one entry for each connected endpoint id, under that id. So the
-- ranking of its clients does not depend on the order of its map.
use mathlib.Core.List.{Perm}
use mathlib.Core.List.Perm
use mathlib.Core.Path.{subst}
use mathlib.Core.Option.{some-injective}
use subportal.Prelude.{
  ℕ, String, ◌≡◌, refl, ◌≢◌, Bool, Option, none, some, List, [], ◌∷◌, map, All, Result, ok, err,
  true, false, ap, arith,
}
use subportal.Prelude.Table
use subportal.Prelude.Table.{Table, values, keys, IsKeyed, AllEntries}
use subportal.Control.{FocusState, active, idle, ControlMessage, dismiss_notification}
use subportal.Protocol.{Request, notify_dismiss, generate_ticket, revoke_client}
use subportal.Peers.Clients
use subportal.Peers.Clients.{ClientRegistry}
use subportal.Router.{rank}
use subportal.Router.Ranking.{HasDistinctIds, rank_deterministic}
use subportal.Hub.{
  ConnectedClient, TransportAddr, Hub, new, add_client, remove_client, set_focus, update_focus,
  next_notification_id, client_info, client_infos, dismiss_all, broadcast_dismiss, consume_token,
  Env, Answer, generate_ticket_for, disconnect, to_disconnect, revoke_removed, revoke,
  handle_direct,
}

-- One entry for each key, and each client under its endpoint id.
abbrev pub IsIndexed : Table ConnectedClient → Type 0
IsIndexed t = IsKeyed t × AllEntries (λ k c. k ≡ c.endpoint_id) t

insert-IsIndexed :
    (c : ConnectedClient) (t : Table ConnectedClient)
    → IsIndexed t
    → IsIndexed (Table.insert c.endpoint_id c t)
insert-IsIndexed c t h = (
  Table.insert-IsKeyed c.endpoint_id c t h.0,
  Table.insert-AllEntries _ c.endpoint_id c t refl h.1,
)

remove-IsIndexed :
    (k : String) (t : Table ConnectedClient) → IsIndexed t → IsIndexed (Table.remove k t)
remove-IsIndexed k t h = (Table.remove-IsKeyed k t h.0, Table.remove-AllEntries _ k t h.1)

endpoint_id-set_focus :
    (now : ℕ) (state : FocusState) (c : ConnectedClient)
    → (set_focus now state c).endpoint_id ≡ c.endpoint_id
endpoint_id-set_focus now active c = refl
endpoint_id-set_focus now idle c = refl

modify-IsIndexed :
    (now : ℕ) (k : String) (state : FocusState) (t : Table ConnectedClient)
    → IsIndexed t
    → IsIndexed (Table.modify k (set_focus now state) t)
modify-IsIndexed now k state t h = (
  Table.modify-IsKeyed k (set_focus now state) t h.0,
  Table.modify-AllEntries _ k (set_focus now state) t
      (λ j c p. rw (endpoint_id-set_focus now state c) p) h.1,
)

keys-dismiss_all :
    (msg : ControlMessage) (except : Option String) (t : Table ConnectedClient)
    → keys (dismiss_all msg except t) ≡ keys t
unfolding dismiss_all
keys-dismiss_all msg except [] = refl
keys-dismiss_all msg except ((k, c) ∷ t) = ap (◌∷◌ k) (keys-dismiss_all msg except t)

dismiss_all-IsIndexed :
    (msg : ControlMessage) (except : Option String) (t : Table ConnectedClient)
    → IsIndexed t
    → IsIndexed (dismiss_all msg except t)
unfolding dismiss_all
dismiss_all-IsIndexed msg except [] h = (tt, tt)
dismiss_all-IsIndexed msg except ((k, c) ∷ t) ((a, b), (e, f)) =
    let rest = dismiss_all-IsIndexed msg except t (b, f) in
    ((rw (keys-dismiss_all msg except t) a, rest.0), (ground arith, rest.1))

disconnect-IsIndexed :
    (eids : List String) (t : Table ConnectedClient) → IsIndexed t → IsIndexed (disconnect eids t).0
unfolding disconnect
disconnect-IsIndexed [] t h = h
disconnect-IsIndexed (eid ∷ eids) t h =
    disconnect-IsIndexed eids (Table.remove eid t) (remove-IsIndexed eid t h)

revoke_removed-IsIndexed :
    (x : String) (hub : Hub) (r : Result Bool _ × ClientRegistry)
    → IsIndexed hub.clients
    → IsIndexed (revoke_removed x hub r).1.clients
unfolding revoke_removed
revoke_removed-IsIndexed x hub (err e, r) h = h
revoke_removed-IsIndexed x hub (ok false, r) h = h
revoke_removed-IsIndexed x hub (ok true, r) h =
    disconnect-IsIndexed (to_disconnect x hub.clients) hub.clients h

generate-clients :
    (env : Env) (ttl : ℕ) (hub : Hub) (a : Answer)
    → generate_ticket_for env ttl hub ≡ some a
    → hub.clients ≡ a.1.clients
unfolding generate_ticket_for
generate-clients env ttl hub a e = ground arith

handle_direct-IsIndexed :
    (env : Env) (r : Request) (hub : Hub) {a : Answer}
    → handle_direct env r hub ≡ some a
    → IsIndexed hub.clients
    → IsIndexed a.1.clients
unfolding handle_direct revoke broadcast_dismiss
handle_direct-IsIndexed env (notify_dismiss id) hub e h =
    subst (λ (a : Answer). IsIndexed a.1.clients) (some-injective _ _ e)
      (dismiss_all-IsIndexed (dismiss_notification id) none hub.clients h)
handle_direct-IsIndexed env (generate_ticket ttl) hub {a} e h =
    subst IsIndexed (generate-clients env ttl hub a e) h
handle_direct-IsIndexed env (revoke_client x) hub e h =
    subst (λ (a : Answer). IsIndexed a.1.clients) (some-injective _ _ e)
      (revoke_removed-IsIndexed x hub (Clients.remove env.format env.io x hub.registry) h)
handle_direct-IsIndexed env _ hub e h =
    subst (λ (a : Answer). IsIndexed a.1.clients) (some-injective _ _ e) h

-- What the agent's tasks do to the hub, one locked section each.
pub data Step (h h' : Hub) : Type 0 where
  connected : (c : ConnectedClient) → h' ≡ add_client c h → Step h h'
  disconnected : (endpoint_id : String) → h' ≡ remove_client endpoint_id h → Step h h'
  focused :
      (now : ℕ) (endpoint_id : String) (state : FocusState)
      → h' ≡ update_focus now endpoint_id state h
      → Step h h'
  dismissed :
      (id : String) (except : Option String) → h' ≡ broadcast_dismiss id except h → Step h h'
  token_checked : (now : ℕ) (token : String) → h' ≡ (consume_token now token h).1 → Step h h'
  registered : (r : ClientRegistry) → h' ≡ record h { registry = r } → Step h h'
  answered :
      (env : Env) (r : Request) (a : Answer) → handle_direct env r h ≡ some a → h' ≡ a.1 → Step h h'
  numbered : h' ≡ (next_notification_id h).1 → Step h h'
  delivered :
      (id : String) (sent_to : List String)
      → h' ≡ record h { pending_notifications = Table.insert id sent_to h.pending_notifications }
      → Step h h'

pub data Reach (h : Hub) : Hub → Type 0 where
  here : Reach h h
  next : {h' h'' : Hub} → Reach h h' → Step h' h'' → Reach h h''

Step-IsIndexed : {h h' : Hub} → Step h h' → IsIndexed h.clients → IsIndexed h'.clients
unfolding add_client remove_client update_focus broadcast_dismiss consume_token next_notification_id
Step-IsIndexed {h} (connected c e) i = rw e (insert-IsIndexed c h.clients i)
Step-IsIndexed {h} (disconnected eid e) i = rw e (remove-IsIndexed eid h.clients i)
Step-IsIndexed {h} (focused now eid st e) i = rw e (modify-IsIndexed now eid st h.clients i)
Step-IsIndexed {h} (dismissed id ex e) i =
    rw e (dismiss_all-IsIndexed (dismiss_notification id) ex h.clients i)
Step-IsIndexed (token_checked now token e) i = rw e i
Step-IsIndexed (registered r e) i = rw e i
Step-IsIndexed {h} (answered env r a p e) i = rw e (handle_direct-IsIndexed env r h p i)
Step-IsIndexed (numbered e) i = rw e i
Step-IsIndexed (delivered id sent_to e) i = rw e i

-- Every hub that the agent reaches from a new one, by any sequence of locked sections, has one entry
-- for each connected endpoint id, under that id.
pub Reach-IsIndexed :
    (registry : ClientRegistry) (endpoint_id : String) (addrs : List TransportAddr)
    (hostname : String) {h : Hub}
    → Reach (new registry endpoint_id addrs hostname) h
    → IsIndexed h.clients
unfolding new
Reach-IsIndexed registry eid addrs hostname here = (tt, tt)
Reach-IsIndexed registry eid addrs hostname (next r s) =
    Step-IsIndexed s (Reach-IsIndexed registry eid addrs hostname r)

pub infos-All :
    (k : String) (t : Table ConnectedClient)
    → All (λ j. j ≢ k) (keys t)
    → AllEntries (λ j c. j ≡ c.endpoint_id) t
    → All (λ d. d.endpoint_id ≢ k) (map client_info (values t))
infos-All k [] h e = tt
infos-All k ((j, c) ∷ t) h e = (rw (← e.0) h.0, infos-All k t h.1 e.1)

infos-HasDistinctIds :
    (t : Table ConnectedClient) → IsIndexed t → HasDistinctIds (map client_info (values t))
infos-HasDistinctIds [] h = tt
infos-HasDistinctIds ((k, c) ∷ t) ((a, b), (e, f)) = (
  subst (λ j. All (λ d. d.endpoint_id ≢ j) (map client_info (values t))) e (infos-All k t a f),
  infos-HasDistinctIds t (b, f),
)

values-eq-map : (t : Table ConnectedClient) → values t ≡ map (λ e. e.1) t
values-eq-map [] = refl
values-eq-map ((k, c) ∷ t) = ap (◌∷◌ c) (values-eq-map t)

-- Two hubs whose maps hold the same entries in another order rank their clients alike, where one of
-- them has one entry for each endpoint id.
rank-client_infos :
    (h h' : Hub) (capability : String)
    → Perm h.clients h'.clients
    → IsIndexed h.clients
    → rank (client_infos h) capability ≡ rank (client_infos h') capability
unfolding client_infos
rank-client_infos h h' capability p i =
    rank_deterministic _ _ capability
      (rw (values-eq-map h.clients, values-eq-map h'.clients)
        (Perm.map client_info (Perm.map (λ e. e.1) p)))
      (infos-HasDistinctIds h.clients i)
