-- ===== src/Desktop/Tests.antt =====
-- Concrete runs of the theorems on the desktop client.
use mathlib.Core.Option
use subportal.Prelude.{
  ℕ, String, ◌≡◌, refl, true, false, ◌||◌, none, some, List, [], ◌∷◌, ◌++◌, ok, err, str_eq, arith,
  if◌then◌else◌,
}
use subportal.Prelude.Table
use subportal.Prelude.Table.{Table, contains_key}
use subportal.Protocol.{done}
use subportal.Protocol.SampleJson.{sample_json}
use subportal.Control.{ControlMessage, active, idle, focus_update, dismiss_notification}
use subportal.Peers.Registry.{written, read_failed}
use subportal.Peers.Servers
use subportal.Peers.Servers.{ServerEntry, ServerRegistry, server_identified}
use subportal.Peers.SampleFormat.{server_format}
use subportal.Ticket.{Ticket}
use subportal.Hub.{ConnectedClient}
use subportal.Hub.Send.{Exchange, reply}
use subportal.Hub.Sample.{sample_hub, phone}
use subportal.Agent.Handshake.{control_loop}
use subportal.Android.Session.{has_server}
use subportal.Desktop.Session.{handle_request_stream, Attempt, connected}
use subportal.Desktop.Session.Dismissal.{
  Event, controlled, requested, happened, sent, read_control_loop-handle_request_stream,
}
use subportal.Desktop.Run.{Signal, hangup, run_loop, started, run, read_pidfile}
use subportal.Desktop.Run.Pidfile.{ended, read_pidfile-run}
use subportal.Desktop.Run.Served.{last_loaded, run_loop-started}
use subportal.Desktop.Focus.{Poll, detect_focus_state, poll_loop, send_focus_updates}
use subportal.Desktop.Focus.Tracking.{last_state, IsChanging, control_loop-send_focus_updates}
use subportal.Desktop.Enrollment.{Changed, enroll_from_stdin}
use subportal.Desktop.Enrollment.Reloading.{reload, run_loop-enroll_from_stdin}
use subportal.Desktop.Decision.{approved}
use subportal.Desktop.Handler.{Portal}

abbrev portal : Portal
portal = record {
  opens_uri = λ uri. true;
  opens_file = λ name mime content. true;
  notifies = λ title body urgency icon host. some 5;
  confirms = λ message title host. some approved;
  decoded_len = λ content. some 3;
}

abbrev after : Exchange sample_json.Value × Table ℕ
after =
    handle_request_stream sample_json portal "host"
      (sent sample_json portal "n1" "t" none none none) []

abbrev before : List (Event sample_json.Value)
before =
    controlled (focus_update idle)
    ∷ requested "other" (sent sample_json portal "n2" "t" none none none)
    ∷ controlled (dismiss_notification "n2")
    ∷ []

read_control_loop-handle_request_stream_example :
    (reply sample_json after.0 ≡ ok done)
    × ((happened sample_json portal
          (before ++ (controlled (dismiss_notification "n1") ∷ []))
          after.1).0
        ≡ (happened sample_json portal before after.1).0 ++ (5 ∷ []))
unfolding subportal.Protocol.Codec.param_str subportal.Protocol.Codec.inject
    subportal.Protocol.Codec.to_value subportal.Protocol.Codec.request_fields happened
read_control_loop-handle_request_stream_example =
    read_control_loop-handle_request_stream sample_json portal "host" "n1" "t" none none none 5 []
      before [] refl (refl, (refl, (refl, tt)))

abbrev server : String → ServerEntry
server id = record { endpoint_id = id; name = id; addrs = []; relay_url = none; enrolled_at = 1 }

abbrev registry : ServerRegistry
registry = record { entries = server "bb" ∷ server "cc" ∷ []; file = none }

abbrev signals : List Signal
signals = hangup (ok registry) ∷ hangup (err read_failed) ∷ []

run_loop-started_example :
    contains_key "cc" (run_loop signals (started 12 (server "aa" ∷ []))).active
    ≡ has_server "cc" (last_loaded (server "aa" ∷ []) signals)
run_loop-started_example = run_loop-started 12 (server "aa" ∷ []) signals "cc"

abbrev sample_ticket : Ticket
sample_ticket = record {
  endpoint_id = "dd";
  addrs = "1.2.3.4:5" ∷ [];
  relay_url = none;
  token = "t1";
  hostname = "host";
}

abbrev attempt : Attempt
attempt = record {
  has_address = true;
  connects = true;
  opens_stream = true;
  writes_hello = true;
  answer = some (record { hostname = "host"; enrolled = true });
}

abbrev changed : Changed
changed =
    enroll_from_stdin server_format written true (some (12, true)) 50 sample_ticket attempt registry

run_loop-enroll_from_stdin_example :
    (changed.succeeds ≡ true)
    × (contains_key "bb"
          (run_loop
            (reload server_format changed.registry ∷ [])
            (started 12 (server "aa" ∷ []))).active
        ≡ (str_eq "dd" "bb" || has_server "bb" (Servers.list registry)))
unfolding connected
run_loop-enroll_from_stdin_example =
    run_loop-enroll_from_stdin server_format (some (12, true)) 50 12 sample_ticket attempt
      (server "aa" ∷ []) registry "host" "bb" refl

abbrev polls : List Poll
polls =
    record { screensaver = some true; writes = true }
    ∷ record { screensaver = none; writes = true }
    ∷ record { screensaver = some false; writes = true }
    ∷ []

abbrev msgs : List (ℕ × ControlMessage)
msgs = (51, focus_update active) ∷ (52, focus_update idle) ∷ (53, focus_update active) ∷ []

control_loop-send_focus_updates_example :
    (Option.map
        (λ (d : ConnectedClient). d.focus)
        (Table.get "aa" (control_loop "aa" msgs sample_hub).clients)
      ≡ some (last_state active polls))
    × IsChanging active (poll_loop active false polls)
unfolding send_focus_updates poll_loop detect_focus_state Table.get
control_loop-send_focus_updates_example =
    control_loop-send_focus_updates "aa" polls msgs sample_hub phone (refl, (refl, (refl, tt))) refl
      refl

read_pidfile-run_example :
    read_pidfile (run 12 (ok registry) signals).pidfile
    ≡ (if ended (ok registry) signals then none else some 12)
read_pidfile-run_example = read_pidfile-run 12 (ok registry) signals (omega arith)
