-- ===== src/Hub/Tests.antt =====
-- Concrete runs of the theorems on the hub.
use subportal.Prelude.{◌≡◌, refl, false, [], ◌∷◌, and_then, arith, ok}
use subportal.Prelude.Order.{str_ne}
use subportal.Prelude.Table
use subportal.Prelude.Table.{values}
use subportal.Protocol.{pong, version, ticket}
use subportal.Peers.Lookup.{IsUnique, unless_named}
use subportal.Peers.Clients.{client_identified, find_by_id}
use subportal.Hub.{Hub, Answer, new, add_client, remove_client, consume_token, revoke}
use subportal.Hub.Invariant.{IsIndexed, here, next, connected, disconnected, Reach-IsIndexed}
use subportal.Hub.Tokens.{is_valid, consume_token_lem}
use subportal.Hub.Revoke.{unless_named_by, revoke_lem}
use subportal.Hub.Sample.{phone, laptop, pending, sample_registry, sample_hub, env_at}

abbrev empty_hub : Hub
empty_hub = new sample_registry "cc" [] "host"

abbrev both : Hub
both = add_client laptop (add_client phone empty_hub)

Reach-IsIndexed_example : IsIndexed (remove_client "aa" both).clients
Reach-IsIndexed_example = Reach-IsIndexed sample_registry "cc" [] "host" (
    next (next (next here (connected phone refl)) (connected laptop refl)) (disconnected "aa" refl))

sample-IsIndexed : IsIndexed sample_hub.clients
sample-IsIndexed = (((str_ne "bb" "aa" refl, tt), (tt, tt)), (refl, (refl, tt)))

abbrev swapped : Hub
swapped = record sample_hub { clients = ("bb", laptop) ∷ ("aa", phone) ∷ [] }

consume_token_lem_example :
    ((consume_token 50 "t1" sample_hub).0 ≡ is_valid 50 "t1" sample_hub.pending_tokens)
    × ((consume_token 60 "t1" (consume_token 50 "t1" sample_hub).1).0 ≡ false)
    × ((consume_token 60 "t3" (consume_token 50 "t1" sample_hub).1).0
        ≡ is_valid 60 "t3" sample_hub.pending_tokens)
consume_token_lem_example =
    consume_token_lem 50 60 "t1" "t3" sample_hub (omega arith) (str_ne "t3" "t1" refl)

abbrev ticket_answer : Answer
ticket_answer = (
  ok (ticket "t2"),
  record sample_hub {
    pending_tokens = pending ∷ record { token = "t2"; created_at = 50; expires_at = 80 } ∷ [];
  },
  [],
)

sample-IsUnique : IsUnique sample_hub.registry.entries
sample-IsUnique = ((str_ne "bb" "aa" refl, tt), (tt, tt))

revoke_lem_example :
    (find_by_id "aa" (revoke (env_at 50) "phone" sample_hub).1.registry
      ≡ and_then (find_by_id "aa" sample_hub.registry) (unless_named "phone"))
    × (Table.get "aa" (revoke (env_at 50) "phone" sample_hub).1.clients
        ≡ and_then (Table.get "aa" sample_hub.clients) (unless_named_by "phone"))
unfolding revoke subportal.Peers.Clients.remove
revoke_lem_example =
    revoke_lem (env_at 50) "phone" sample_hub "aa" sample-IsIndexed sample-IsUnique refl

abbrev ping_answer : Answer
ping_answer = (
  ok (pong ("Confirm" ∷ "Notify" ∷ "OpenURI" ∷ []) version ("laptop" ∷ "phone" ∷ []) "cc"),
  sample_hub,
  [],
)
