-- ===== src/Agent/Steps.antt =====
-- The agent's tasks take the hub's steps only.
use mathlib.Core.Option
use subportal.Prelude.{ℕ, String, Option, none, some, List}
use subportal.Control.{ClientHello, ControlMessage}
use subportal.Protocol.{Request}
use subportal.Protocol.Json.{Json}
use subportal.Router.{Joined}
use subportal.Hub.{Hub, Env}
use subportal.Hub.Send.{Exchange}
use subportal.Agent.Handshake.{Handshake, handle_iroh_connection}
use subportal.Agent.Requests
use subportal.Agent.Requests.{Served, served, handle_unix_request}

-- The hub behind a request, which is as before where the task of the request ends in a panic.
abbrev pub hub_behind : Option Served → Hub → Hub
hub_behind none hub = hub
hub_behind (some s) hub = s.hub

module _ (j : Json) where
  -- What the agent makes of its hub: it handles connections and requests in any order, and also, while a
  -- request's notification is sent, behind each device that it is sent to.
  pub data Activity : (Hub → Hub) → Type 0 where
    idle : Activity (λ hub. hub)
    connection_handled :
        {before : Hub → Hub}
        → Activity before
        → (env : Env) (remote : String) (hello : ClientHello) (connection : ℕ)
        → (msgs : List (ℕ × ControlMessage))
        → Activity (λ hub. (handle_iroh_connection env remote hello connection msgs (before hub)).1)
    request_handled :
        {before meanwhile : Hub → Hub}
        → Activity before
        → Activity meanwhile
        → (exchange : ℕ → j.Value → Exchange j.Value) (schedule : List Joined → List Joined)
        → (env : Env) (request : Request)
        → Activity (λ hub.
          hub_behind
            (handle_unix_request j exchange schedule meanwhile env request (before hub))
            (before hub))
