-- ===== src/Android/Connection/Loop.antt =====
-- The loop of a connection's task.
use subportal.Prelude.{
  String, ◌≡◌, refl, ◌∙◌, ap, Bool, true, false, Option, some, List, [], ◌∷◌, ◌++◌, Result, ok, err,
  str_eq, if◌then◌else◌, Bool-cases, inl, inr,
}
use subportal.Prelude.Table
use subportal.Prelude.Table.{Table}
use subportal.Protocol.Json.{Json}
use subportal.Peers.Servers.{ServerEntry}
use subportal.Desktop.Session.{ConnectError, connected}
use subportal.Android.Requests.{App, Call, on_connection_changed}
use subportal.Android.Session.{read_control_loop, set_connection_state}
use subportal.Android.Connection.{
  Round, accept_loop, in_session, connect_to_server, spawn_server_connection,
}
use subportal.Android.Connection.Changes.{
  changes, changes-append, changes-read_control_loop, changes-accept_loop, is_session, told_of,
  told,
}

module _ (app : App) (j : Json) where
  changes-in_session :
      (server : ServerEntry) (round : Round app j) (map : Table Bool)
      (r : Result String ConnectError)
      → changes (in_session app j server round map r).2
        ≡ (if is_session r then (server.name, true) ∷ [] else [])
  unfolding in_session set_connection_state
  changes-in_session server round map (err e) = refl
  changes-in_session server round map (ok host) = ap (◌∷◌ (server.name, true)) (
      changes-append (read_control_loop round.messages) (accept_loop app j host round.requests).1
      ∙ rw (changes-read_control_loop round.messages, changes-accept_loop app j host round.requests)
          refl)

  get-in_session :
      (server : ServerEntry) (round : Round app j) (map : Table Bool)
      (r : Result String ConnectError) (id : String)
      → Table.get id (in_session app j server round map r).1 ≡ (
          if is_session r
          then (if str_eq server.endpoint_id id then some true else Table.get id map)
          else Table.get id map)
  unfolding in_session set_connection_state
  get-in_session server round map (err e) id = refl
  get-in_session server round map (ok host) id = Table.get-insert server.endpoint_id id true map

  -- Behind a round, the server is entered as not connected, and no other entry has changed.
  get-round :
      (server : ServerEntry) (round : Round app j) (map : Table Bool) (id : String)
      → Table.get id
          (Table.insert server.endpoint_id false (connect_to_server app j server round map).1)
        ≡ (if str_eq server.endpoint_id id then some false else Table.get id map)
  unfolding connect_to_server
  get-round server round map id =
      Table.get-insert server.endpoint_id id false _
      ∙ ap (λ o. if str_eq server.endpoint_id id then some false else o)
          (get-in_session server round map (connected round.attempt) id)
      ∙ settled (str_eq server.endpoint_id id) (is_session (connected round.attempt))
    where
      settled :
          (a b : Bool)
          → (if a
              then some false
              else (if b then (if a then some true else Table.get id map) else Table.get id map))
            ≡ (if a then some false else Table.get id map)
      settled true b = refl
      settled false true = refl
      settled false false = refl

  changes-round :
      (server : ServerEntry) (round : Round app j) (map : Table Bool) (later : List Call)
      → changes (
          (connect_to_server app j server round map).2
          ++ (on_connection_changed server.name false ∷ later))
        ≡ told_of app j server round ++ changes later
  unfolding connect_to_server
  changes-round server round map later =
      changes-append (connect_to_server app j server round map).2
        (on_connection_changed server.name false ∷ later)
      ∙ ap (λ l. l ++ ((server.name, false) ∷ changes later))
          (changes-in_session server round map (connected round.attempt))
      ∙ joined (is_session (connected round.attempt))
    where
      joined :
          (b : Bool)
          → (if b then (server.name, true) ∷ [] else []) ++ ((server.name, false) ∷ changes later)
            ≡ (if b
                then (server.name, true) ∷ (server.name, false) ∷ []
                else (server.name, false) ∷ [])
              ++ changes later
      joined true = refl
      joined false = refl

  abbrev pub settled_at : ServerEntry → String → List (Round app j) → Option Bool → Option Bool
  settled_at server id [] before = before
  settled_at server id (round ∷ rounds) before =
      if str_eq server.endpoint_id id then some false else before

  settled_twice :
      (server : ServerEntry) (id : String) (rounds : List (Round app j)) (o : Option Bool)
      → settled_at server id rounds (if str_eq server.endpoint_id id then some false else o)
        ≡ (if str_eq server.endpoint_id id then some false else o)
  settled_twice server id [] o = refl
  settled_twice server id (round ∷ rounds) o = elim (Bool-cases (str_eq server.endpoint_id id)) [
    | inl e ↦ rw e refl
    | inr e ↦ rw e refl
  ]

  -- The task of a server's connection, between two of its rounds: for each round that came to a session
  -- the app was told first that the server is connected and then that it is not, and for each other one
  -- only that it is not, whatever the messages and requests of the sessions were. The server is entered as
  -- not connected if there was a round, and no other entry has changed. In a session the server is
  -- entered as connected.
  pub spawn_server_connection_lem :
      (server : ServerEntry) (rounds : List (Round app j)) (last : Round app j) (map : Table Bool)
      (id : String)
      → let there = spawn_server_connection app j server rounds map in
        (changes there.1 ≡ told app j server rounds)
        × (Table.get id there.0 ≡ settled_at server id rounds (Table.get id map))
        × (Table.get id (connect_to_server app j server last there.0).1 ≡ (
            if is_session (connected last.attempt)
            then (if str_eq server.endpoint_id id then some true else Table.get id there.0)
            else Table.get id there.0))
  unfolding spawn_server_connection connect_to_server set_connection_state
  spawn_server_connection_lem server [] last map id =
      (refl, refl, get-in_session server last map (connected last.attempt) id)
  spawn_server_connection_lem server (round ∷ rounds) last map id =
      let behind =
        Table.insert server.endpoint_id false (connect_to_server app j server round map).1 in
      let later = spawn_server_connection_lem server rounds last behind id in
      (
        changes-round server round map (spawn_server_connection app j server rounds behind).1
            ∙ ap (λ l. told_of app j server round ++ l) later.0,
        later.1
            ∙ ap (settled_at server id rounds) (get-round server round map id)
            ∙ settled_twice server id rounds (Table.get id map),
        later.2,
      )
