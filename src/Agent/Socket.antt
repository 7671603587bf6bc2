-- ===== src/Agent/Socket.antt =====
-- One round of `accept_unix_loop` of crates/subportal/src/agent.rs, as a tool that calls the agent sees it.
use subportal.Prelude.{
  ℕ, String, ◌≡◌, ap, ◌∙◌, true, Option, none, some, List, Result, ok, err, if◌then◌else◌,
}
use subportal.Protocol.{Request}
use subportal.Protocol.Json.{Json}
use subportal.Router.{Joined}
use subportal.Hub.{Hub, Env}
use subportal.Hub.Send.{Exchange}
use subportal.Protocol.Codec.RoundTrip.{InRange}
use subportal.Local.Client.{Link, read_failed, received, request_value}
use subportal.Local.Call.{is_trusted, accept-request_value}
use subportal.Local.Server.{PeerInfo, AcceptError, uid_mismatch, accept, respond}
use subportal.Agent.Requests.{Served, handle_unix_request}

module _ (j : Json) where
  open j use {Value}

  -- A rejected connection is closed without an answer, and so is one whose task panics.
  unfoldable pub responded : Hub → Option Served → Link Value × Hub
  responded hub none = (read_failed, hub)
  responded hub (some s) = (received (respond j s.outcome), s.hub)

  module _ (exchange : ℕ → Value → Exchange Value) (schedule : List Joined → List Joined)
      (meanwhile : Hub → Hub) (env : Env) where
    unfoldable on_accept : Hub → Result (Request × Option String) AcceptError → Link Value × Hub
    unfolding responded
    on_accept hub (err e) = (read_failed, hub)
    on_accept hub (ok (request, host)) =
        responded hub (handle_unix_request j exchange schedule meanwhile env request hub)

    -- What the tool reads, and the hub behind it.
    unfoldable pub accept_unix : ℕ → PeerInfo → Hub → Value → Link Value × Hub
    unfolding on_accept
    accept_unix my_uid peer hub value = on_accept hub (accept j my_uid peer (some value))

    -- A tool whose user is trusted is answered with what the agent makes of its request.
    pub accept_unix-request_value :
        (my_uid : ℕ) (peer : PeerInfo) (host : Option String) (request : Request) (hub : Hub)
        → InRange request
        → is_trusted my_uid peer.uid ≡ true
        → accept_unix my_uid peer hub (request_value j host request)
          ≡ responded hub (handle_unix_request j exchange schedule meanwhile env request hub)
    unfolding accept_unix on_accept
    accept_unix-request_value my_uid peer host request hub i t = ap (on_accept hub) (
        accept-request_value j my_uid peer host request i
        ∙ ap (λ b. if b then ok (request, host) else err uid_mismatch) t)
