-- ===== src/Android/Tests.antt =====
-- Concrete runs of the theorems on the Android client.
use subportal.Prelude.{Bool, String, ◌≡◌, refl, true, false, none, some, [], ◌∷◌, ok, arith}
use subportal.Prelude.Order.{str_ne}
use subportal.Prelude.Table
use subportal.Protocol.{notify, confirm, ticket, done}
use subportal.Protocol.SampleJson.{sample_json}
use subportal.Protocol.Codec.{to_value, inject}
use subportal.Peers.Clients
use subportal.Peers.Clients.{client_identified}
use subportal.Peers.Servers.{ServerEntry, ServerRegistry, server_identified}
use subportal.Ticket.{Ticket}
use subportal.Hub.{Answer, generate_ticket_for, make_ticket}
use subportal.Hub.Send.{reply}
use subportal.Hub.Sample.{sample_hub, pending, env_at}
use subportal.Agent.Handshake.{welcomed, server_hello, enroll_client, check_hello}
use subportal.Android.Requests.{App, on_notify, capabilities, undecided, handle_request_stream}
use subportal.Android.Answers.{handle_request_stream-inject}
use subportal.Android.Session.{enroll_hello}
use subportal.Control.{dismiss_notification}
use subportal.Desktop.Session.{Attempt, connected}
use subportal.Android.Connection.{Round, spawn_server_connection, connect_to_server}
use subportal.Android.Connection.Changes.{changes, told}
use subportal.Android.Connection.Loop.{settled_at, spawn_server_connection_lem}
use subportal.Android.Runtime.{Core, new, start, reconnect}
use subportal.Android.Runtime.Single.{here, next, started, reconnected, IsSingle, Reach-IsSingle}
use subportal.Android.Enrollment.{ticket_of, check_hello-generate_ticket}

abbrev app : App
app = record {
  opens_uri = λ uri host. true;
  opens_file = λ name mime content host. true;
  confirms = λ message title host. undecided;
  decoded_len = λ content. some 3;
}

handle_request_stream-inject_example :
    (reply sample_json
        (handle_request_stream app sample_json "h" (
          inject sample_json "notification_id"
            (sample_json.string "n1")
            (to_value sample_json (notify "t" none none none)))).0
      ≡ ok done)
    × ((handle_request_stream app sample_json "h" (
          inject sample_json "notification_id"
            (sample_json.string "n1")
            (to_value sample_json (notify "t" none none none)))).1
        ≡ (on_notify "n1" "t" none none "h" ∷ []))
handle_request_stream-inject_example =
    handle_request_stream-inject sample_json app (notify "t" none none none) "h" "n1" tt

abbrev server : String → ServerEntry
server id = record { endpoint_id = id; name = id; addrs = []; relay_url = none; enrolled_at = 1 }

abbrev answer : Answer
answer = (
  ok (ticket "t2"),
  record sample_hub {
    pending_tokens = pending ∷ record { token = "t2"; created_at = 50; expires_at = 80 } ∷ [];
  },
  [],
)

check_hello-generate_ticket_example :
    ((check_hello
        (env_at 70)
        "dd"
        (enroll_hello "tablet" (ticket_of (env_at 50) 80 sample_hub))
        answer.1).0
      ≡ welcomed (server_hello true answer.1))
    × (Clients.find_by_id "dd"
          (check_hello
            (env_at 70)
            "dd"
            (enroll_hello "tablet" (ticket_of (env_at 50) 80 sample_hub))
            answer.1).1.registry
        ≡ some (enroll_client 70 "dd" "tablet" capabilities))
unfolding generate_ticket_for make_ticket subportal.Peers.Token.generate
check_hello-generate_ticket_example =
    check_hello-generate_ticket (env_at 50) (env_at 70) 30 80 sample_hub "dd" "tablet" {a = answer}
      refl refl (omega arith) refl ((str_ne "bb" "aa" refl, tt), (tt, tt))

abbrev sample_ticket : Ticket
sample_ticket = record {
  endpoint_id = "cc";
  addrs = "1.2.3.4:5" ∷ [];
  relay_url = none;
  token = "t1";
  hostname = "host";
}

abbrev servers : ServerRegistry
servers = record { entries = server "cc" ∷ []; file = none }

abbrev restarted : Core
restarted = reconnect (ok servers) (start (ok servers) new)

Reach-IsSingle_example : IsSingle restarted
unfolding new
Reach-IsSingle_example = Reach-IsSingle (
    next (next here (started (ok servers) new refl))
      (reconnected (ok servers) (start (ok servers) new)))

abbrev attempt : Bool → Attempt
attempt enrolled = record {
  has_address = true;
  connects = true;
  opens_stream = true;
  writes_hello = true;
  answer = some (record { hostname = "host"; enrolled = enrolled });
}

abbrev round : Bool → Round app sample_json
round enrolled = record {
  attempt = attempt enrolled;
  messages = dismiss_notification "n1" ∷ [];
  requests = to_value sample_json (confirm "m" none) ∷ [];
}

spawn_server_connection_lem_example :
    let there =
      spawn_server_connection app sample_json (server "bb") (round true ∷ round false ∷ []) [] in
    (changes there.1 ≡ told app sample_json (server "bb") (round true ∷ round false ∷ []))
    × (Table.get "bb" there.0
        ≡ settled_at app sample_json (server "bb") "bb" (round true ∷ round false ∷ []) none)
    × (Table.get "bb" (connect_to_server app sample_json (server "bb") (round true) there.0).1
        ≡ some true)
unfolding connected Table.get
spawn_server_connection_lem_example =
    spawn_server_connection_lem app sample_json (server "bb") (round true ∷ round false ∷ [])
      (round true) [] "bb"
