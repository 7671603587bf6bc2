-- ===== src/Agent/Tests.antt =====
-- Concrete runs of the theorems on the agent.
use mathlib.Core.List.Perm
use mathlib.Core.Option
use subportal.Prelude.{
  ℕ, String, ◌≡◌, refl, ◌≢◌, ◌⊎◌, Bool, true, false, Option, none, some, List, [], ◌∷◌, map, All,
  ◌++◌, ok, err, arith, ◌==◌, if◌then◌else◌,
}
use subportal.Prelude.Order.{str_ne}
use subportal.Prelude.Sort.{sort_by}
use subportal.Prelude.Table
use subportal.Control.{active, focus_update, dismiss_notification, ControlMessage}
use subportal.Protocol.{
  generate_ticket, open_uri, confirm, notify, done, notify_delivered, no_client,
}
use subportal.Protocol.SampleJson.{sample_json, Value}
use subportal.Protocol.Wire.{response_to_wire}
use subportal.Peers.Lookup.{IsUnique}
use subportal.Peers.Clients.{client_identified, find_by_id}
use subportal.Router.{ClientInfo, rank, fan_out, Joined}
use subportal.Agent.Steps.{hub_behind}
use subportal.Hub.{
  new, ConnectedClient, Hub, client_infos, revoke, consume_token, remove_client, handle_direct,
  generate_ticket_for,
}
use subportal.Hub.Invariant.{token_checked, answered, disconnected, IsIndexed}
use subportal.Hub.Send.{Exchange, recv_failed, received}
use subportal.Hub.Sample.{sample_hub, env_at, hello_with}
use subportal.Agent.Handshake.{refused, server_hello, check_hello, join_hub, handle_iroh_connection}
use subportal.Agent.Handshake.Admission.{Checked, check_hello_lem}
use subportal.Agent.Handshake.Reuse.{check_hello_once}
use subportal.Hub.Spent.{Run, start, then_step}
use subportal.Agent.Handshake.Lifecycle.{left_behind, handle_iroh_connection_lem}
use subportal.Agent.Handshake.Revocation.{revoke-check_hello, revoke-join_hub}
use subportal.Agent.Requests.{Served, served, connections, ranked_connections, handle_unix_request}
use subportal.Agent.Requests.Targets.{IsCapable, ranked_connections_lem}
use subportal.Agent.Requests.Answers.{connections_of, FailedOver, handle_unix_request-failover}
use subportal.Agent.Requests.Racing.{RacedTo, replies, handle_unix_request-race}
use subportal.Agent.Requests.Delivery.{FannedOut, handle_unix_request-fan_out}

indexed : IsIndexed sample_hub.clients
indexed = (((str_ne "bb" "aa" refl, tt), (tt, tt)), (refl, (refl, tt)))

unique : IsUnique sample_hub.registry.entries
unique = ((str_ne "bb" "aa" refl, tt), (tt, tt))

check_hello_lem_example :
    Checked
      (env_at 50)
      "dd"
      (hello_with (some "t1"))
      (some "t1")
      sample_hub
      (check_hello (env_at 50) "dd" (hello_with (some "t1")) sample_hub)
check_hello_lem_example =
    check_hello_lem (env_at 50) "dd" (hello_with (some "t1")) sample_hub unique

abbrev presented : Hub
presented = (check_hello (env_at 50) "dd" (hello_with (some "t1")) sample_hub).1

abbrev tried : Hub
tried = (consume_token 52 "t9" presented).1

-- Another token is tried, a new ticket is asked for, and a device is gone.
abbrev later : Hub
later = remove_client "bb" (record tried {
  pending_tokens =
      tried.pending_tokens ++ (record { token = "t2"; created_at = 53; expires_at = 63 } ∷ []);
})

tried_later : Run "t1" presented later
unfolding handle_direct generate_ticket_for subportal.Peers.Token.generate
tried_later =
    then_step
      (then_step (then_step start (token_checked 52 "t9" refl) refl)
        (answered (env_at 53) (generate_ticket 10) _ refl refl) refl)
      (disconnected "bb" refl) refl

check_hello_once_example :
    (check_hello (env_at 60) "ee" (hello_with (some "t1")) later).0
    ≡ refused (server_hello false later)
check_hello_once_example =
    check_hello_once (env_at 50) (env_at 60) "dd" "ee" "t1" (hello_with (some "t1"))
      (hello_with (some "t1")) sample_hub refl refl tried_later

abbrev msgs : List (ℕ × ControlMessage)
msgs = (51, dismiss_notification "n1") ∷ (52, focus_update active) ∷ []

handle_iroh_connection_lem_example :
    Table.get "aa"
      (handle_iroh_connection (env_at 50) "bb" (hello_with none) 9 msgs sample_hub).1.clients
    ≡ left_behind
        (check_hello (env_at 50) "bb" (hello_with none) sample_hub).0
        "bb"
        msgs
        "aa"
        (Table.get "aa" sample_hub.clients)
handle_iroh_connection_lem_example =
    handle_iroh_connection_lem (env_at 50) "bb" (hello_with none) 9 msgs sample_hub "aa"

revoke-check_hello_example :
    check_hello (env_at 60) "aa" (hello_with none) (revoke (env_at 50) "aa" sample_hub).1 ≡ (
      refused (server_hello false (revoke (env_at 50) "aa" sample_hub).1),
      (revoke (env_at 50) "aa" sample_hub).1,
    )
unfolding revoke subportal.Peers.Clients.remove
revoke-check_hello_example =
    revoke-check_hello (env_at 50) (env_at 60) "aa" (hello_with none) sample_hub indexed unique refl
      refl

revoke-join_hub_example :
    (find_by_id "aa"
        (join_hub
          (env_at 60)
          "aa"
          (hello_with none)
          9
          (revoke
            (env_at 50)
            "aa"
            (check_hello (env_at 60) "aa" (hello_with none) sample_hub).1).1).registry
      ≡ none)
    × (Option.map
          (λ (c : ConnectedClient). c.connection)
          (Table.get "aa"
            (join_hub
              (env_at 60)
              "aa"
              (hello_with none)
              9
              (revoke
                (env_at 50)
                "aa"
                (check_hello (env_at 60) "aa" (hello_with none) sample_hub).1).1).clients)
        ≡ some 9)
unfolding check_hello find_by_id revoke subportal.Peers.Clients.remove
revoke-join_hub_example =
    revoke-join_hub (env_at 50) (env_at 60) "aa" (hello_with none) 9 sample_hub indexed unique refl
      refl refl

ranked_connections_lem_example :
    (map (λ c. c.0) (ranked_connections "OpenURI" sample_hub)
      ≡ map (λ (i : ClientInfo). i.endpoint_id) (rank (client_infos sample_hub) "OpenURI"))
    × All (IsCapable sample_hub.clients "OpenURI") (ranked_connections "OpenURI" sample_hub)
    × (map (λ c. c.0) (connections sample_hub.clients (fan_out (client_infos sample_hub) "OpenURI"))
        ≡ map (λ (i : ClientInfo). i.endpoint_id) (fan_out (client_infos sample_hub) "OpenURI"))
    × All
        (IsCapable sample_hub.clients "OpenURI")
        (connections sample_hub.clients (fan_out (client_infos sample_hub) "OpenURI"))
ranked_connections_lem_example = ranked_connections_lem "OpenURI" sample_hub indexed

-- The laptop, connection 2, cannot be reached; the phone answers.
abbrev network : ℕ → Value → Exchange Value
network connection value =
    if connection == 2 then recv_failed else received (response_to_wire sample_json done)

abbrev as_it_is : Hub → Hub
as_it_is hub = hub

abbrev in_order : List Joined → List Joined
in_order tasks = tasks

abbrev opened : Served
opened = record { outcome = ok done; hub = sample_hub; closed = []; asked = 2 ∷ 1 ∷ [] }

handle_unix_request-failover_example :
    FailedOver sample_json network
      (open_uri "u")
      (ranked_connections "OpenURI" sample_hub)
      opened.outcome
      opened.asked
    × (opened.hub ≡ sample_hub)
    × (opened.closed ≡ [])
unfolding subportal.Router.strategy_for handle_unix_request subportal.Router.failover_decision rank
    sort_by client_infos Table.get response_to_wire
handle_unix_request-failover_example =
    handle_unix_request-failover sample_json network in_order as_it_is (env_at 50) (open_uri "u")
      "OpenURI" sample_hub {s = opened} refl refl

handle_unix_request-race_example :
    RacedTo
      (replies sample_json network (confirm "m" none) (ranked_connections "Confirm" sample_hub))
      opened.outcome
    × (opened.asked ≡ connections_of (ranked_connections "Confirm" sample_hub))
    × (opened.hub ≡ sample_hub)
unfolding subportal.Router.strategy_for handle_unix_request subportal.Router.race_decision rank
    sort_by client_infos Table.get response_to_wire
handle_unix_request-race_example =
    handle_unix_request-race sample_json network in_order as_it_is (env_at 50) (confirm "m" none)
      "Confirm" sample_hub {s = opened} (λ tasks. Perm.refl tasks) refl refl

abbrev notified : Served
notified = record {
  outcome = ok (notify_delivered "n8");
  hub = record sample_hub {
    notification_counter = 8;
    pending_notifications = ("n8", "aa" ∷ []) ∷ [];
  };
  closed = [];
  asked = 1 ∷ 2 ∷ [];
}

handle_unix_request-fan_out_example :
    ((fan_out (client_infos sample_hub) "Notify" ≡ [])
      × (notified ≡ served sample_hub (err no_client, [])))
    ⊎ FannedOut sample_json network as_it_is
        (notify "t" none none none)
        (fan_out (client_infos sample_hub) "Notify")
        sample_hub
        notified
unfolding handle_unix_request subportal.Router.strategy_for fan_out client_infos
    subportal.Hub.next_notification_id Table.insert Table.get subportal.Prelude.Decimal.to_decimal
    response_to_wire
handle_unix_request-fan_out_example =
    handle_unix_request-fan_out sample_json network in_order as_it_is (env_at 50) "t" none none none
      sample_hub {s = notified} refl

abbrev notified_meanwhile : Hub → Hub
notified_meanwhile hub =
    hub_behind
      (handle_unix_request sample_json network in_order
        (λ h. (handle_iroh_connection (env_at 60) "aa" (hello_with none) 9 msgs h).1) (env_at 50)
        (notify "t" none none none) hub)
      hub
