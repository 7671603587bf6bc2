-- ===== src/Local/Tests.antt =====
-- Concrete runs of the theorems on the local socket.
use subportal.Prelude.{
  ◌≡◌, ◌⊎◌, refl, true, false, Option, none, some, [], ◌∷◌, any, str_eq, ok, err, if◌then◌else◌,
  arith,
}
use subportal.Prelude.Table
use subportal.Protocol.Wire.{wire_id, error_ids}
use subportal.Protocol.{
  SubportalError, open_uri, notify, notify_delivered, generate_ticket, not_supported, done,
}
use subportal.Protocol.SampleJson.{sample_json}
use subportal.Hub.Send
use subportal.Hub.Send.{reply}
use subportal.Local.Socket.{
  Environment, BindIo, Sockets, default_socket_path, client_path, bind_default, drop_server,
  connect,
}
use subportal.Local.Socket.Reached.{connect-bind_default}
use subportal.Local.Client.{protocol, received, request_value, call}
use subportal.Local.Server.{PeerInfo, uid_mismatch, accept, respond}
use subportal.Local.Call.{
  is_trusted, for_notify, to_client, accept-request_value, call-respond, unknown_error_id,
}

abbrev peer : PeerInfo
peer = record { pid = some 9; uid = some 1000 }

accept-request_value_example :
    accept sample_json 1000 peer (some (request_value sample_json (some "h") (generate_ticket 600)))
    ≡ (if is_trusted 1000 peer.uid then ok (generate_ticket 600, some "h") else err uid_mismatch)
accept-request_value_example =
    accept-request_value sample_json 1000 peer (some "h") (generate_ticket 600) (omega arith)

call-respond_example :
    call sample_json
      (λ value. received (respond sample_json (ok (notify_delivered "n1"))))
      none
      (notify "t" none none none)
    ≡ to_client (ok (notify_delivered "n1"))
call-respond_example =
    call-respond sample_json none (notify "t" none none none) (ok (notify_delivered "n1"))
      for_notify

abbrev odd : Option sample_json.Value
odd = some sample_json.null

unknown_error_id_example :
    ((e : SubportalError) × (any (str_eq "x") (error_ids sample_json) ≡ true)
      × (wire_id e ≡ "x")
      × (call sample_json
            (λ value. received (record { parameters = odd; error = some "x" }))
            none
            (open_uri "u")
          ≡ err (protocol e))
      × (reply sample_json (Send.received (record { parameters = odd; error = some "x" })) ≡ err e))
    ⊎ ((any (str_eq "x") (error_ids sample_json) ≡ false)
        × (call sample_json
              (λ value. received (record { parameters = odd; error = some "x" }))
              none
              (open_uri "u")
            ≡ err (protocol (not_supported "unknown")))
        × (reply sample_json (Send.received (record { parameters = odd; error = some "x" }))
            ≡ ok done))
unknown_error_id_example = unknown_error_id sample_json none (open_uri "u") "x" odd

abbrev env : Environment
env = record { socket_path = none; runtime_dir = some "/run/user/1"; uid = 1 }

abbrev bind_io : BindIo
bind_io = record { creates_dir = true; removes = true; listens = true }

abbrev stale : Sockets
stale = ("/run/user/1/subportal.sock", none) ∷ []

connect-bind_default_example :
    let there = (bind_default bind_io 2 env stale).1 in
    ((bind_default bind_io 2 env stale).0 ≡ ok (default_socket_path env))
    × (connect (client_path env) there ≡ some 2)
    × (Table.get "/run/user/1/other" there ≡ Table.get "/run/user/1/other" stale)
    × (connect (client_path env) (drop_server (default_socket_path env) there) ≡ none)
unfolding default_socket_path subportal.Prelude.Text.join_path subportal.Prelude.Text.strip_prefix
connect-bind_default_example =
    connect-bind_default bind_io env 2 "/run/user/1/other" stale refl refl refl refl refl
