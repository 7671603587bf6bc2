-- ===== src/Agent/Requests.antt =====
-- A local request: `ranked_connections` and `handle_unix_request` of crates/subportal/src/agent.rs. The
-- network is what each connection answers to each value; the state of a request is the list of the
-- connections that it asked. The tasks of a race are all asked, and end in the order that `schedule`
-- gives them. While a fan-out sends, the other tasks change the hub by `meanwhile`.
pub mod Targets
pub mod Answers
pub mod Racing
pub mod Delivery
use mathlib.Core.Option
use subportal.Prelude.{
  ℕ, String, ◌≡◌, refl, Option, none, some, List, [], ◌∷◌, ◌++◌, map, Result, ok, err,
}
use subportal.Prelude.Table
use subportal.Prelude.Table.{Table}
use subportal.Protocol.{Request, Response, notify_delivered, SubportalError, no_client}
use subportal.Protocol.Json.{Json}
use subportal.Protocol.Codec.{to_value, inject}
use subportal.Router.{
  ClientInfo, Strategy, failover, race, fan_out_all, direct, strategy_for, rank, fan_out, Outcome,
  failover_decision, Joined, finished, race_decision,
}
use subportal.Hub.{
  ConnectedClient, Hub, Env, Answer, client_infos, next_notification_id, handle_direct,
}
use subportal.Hub.Send.{Exchange, send_to_connection}

-- `filter_map(|info| clients.get(&info.endpoint_id).map(|c| (endpoint_id, connection)))`
connect : String → Option ConnectedClient → List (String × ℕ) → List (String × ℕ)
connect eid none rest = rest
connect eid (some c) rest = (eid, c.connection) ∷ rest

unfoldable pub connections : Table ConnectedClient → List ClientInfo → List (String × ℕ)
unfolding connect
connections t [] = []
connections t (info ∷ infos) =
    let rest = connections t infos in connect info.endpoint_id (Table.get info.endpoint_id t) rest

unfoldable pub ranked_connections : String → Hub → List (String × ℕ)
unfolding connections
ranked_connections capability hub = connections hub.clients (rank (client_infos hub) capability)

-- The outcome, the hub behind it, the connections that were closed and those that were asked. In a race
-- these are the ones that a task to ask them is spawned for: once the race is decided, the drop of the
-- `JoinSet` aborts the other tasks, perhaps before they have sent the request.
pub record Served : Type 0 where
  pub outcome : Outcome
  pub hub : Hub
  pub closed : List ℕ
  pub asked : List ℕ

abbrev pub served : Hub → Outcome × List ℕ → Served
served hub (outcome, asked) = record { outcome = outcome; hub = hub; closed = []; asked = asked }

abbrev pub answered : Answer → Served
answered (outcome, hub, closed) = record {
  outcome = outcome;
  hub = hub;
  closed = closed;
  asked = [];
}

module _ (j : Json) where
  open j use {Value, string}

  module _ (exchange : ℕ → Value → Exchange Value) where
    -- The tasks of the `JoinSet`, each with its endpoint id and its outcome.
    unfoldable race_tasks : Value → List (String × ℕ) → List Joined
    race_tasks value [] = []
    race_tasks value ((eid, connection) ∷ targets) =
        finished eid (send_to_connection j exchange value connection []).0
        ∷ race_tasks value targets

    delivered_to : String → Outcome → List String → List String
    delivered_to eid (ok resp) sent_to = eid ∷ sent_to
    delivered_to eid (err e) sent_to = sent_to

    -- The loop that sends a notification: the endpoint ids whose device took it.
    unfoldable deliver : Value → List (String × ℕ) → List String
    unfolding delivered_to
    deliver value [] = []
    deliver value ((eid, connection) ∷ targets) =
        delivered_to eid (send_to_connection j exchange value connection []).0
          (deliver value targets)

    -- The section that stores the notification's state.
    unfoldable pub store_notification : String → List String → Hub → Hub
    store_notification id sent_to hub = record hub {
      pending_notifications = Table.insert id sent_to hub.pending_notifications;
    }

    unfoldable pub fan_out_to : (Hub → Hub) → Request → List ClientInfo → Hub → Served
    unfolding deliver store_notification connections
    fan_out_to meanwhile request [] hub = served hub (err no_client, [])
    fan_out_to meanwhile request (t ∷ ts) hub =
        let numbered = next_notification_id hub in
        let conns = connections hub.clients (t ∷ ts) in
        let value = inject j "notification_id" (string numbered.0) (to_value j request) in
        served (store_notification numbered.0 (deliver value conns) (meanwhile numbered.1))
          (ok (notify_delivered numbered.0), map (λ c. c.1) conns)

    unfoldable pub by_strategy :
        (List Joined → List Joined) → (Hub → Hub) → Env → Request → Strategy → Hub → Option Served
    unfolding race_tasks fan_out_to ranked_connections send_to_connection
    by_strategy schedule meanwhile env request direct hub =
        Option.map answered (handle_direct env request hub)
    by_strategy schedule meanwhile env request (failover capability) hub = some (
        served hub (
          failover_decision (send_to_connection j exchange (to_value j request))
            (ranked_connections capability hub) []))
    by_strategy schedule meanwhile env request (race capability) hub =
        let targets = ranked_connections capability hub in
        some (
          served hub (
            race_decision (schedule (race_tasks (to_value j request) targets)),
            map (λ c. c.1) targets,
          ))
    by_strategy schedule meanwhile env request (fan_out_all capability) hub =
        some (fan_out_to meanwhile request (fan_out (client_infos hub) capability) hub)

    -- `none` is the panic of a ticket's expiry, see `handle_direct`.
    unfoldable pub handle_unix_request :
        (List Joined → List Joined) → (Hub → Hub) → Env → Request → Hub → Option Served
    unfolding by_strategy
    handle_unix_request schedule meanwhile env request hub =
        by_strategy schedule meanwhile env request (strategy_for request) hub
