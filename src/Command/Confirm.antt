-- ===== src/Command/Confirm.antt =====
-- What the exit code of `subportal confirm` says of the devices.
pub mod Approval
use mathlib.Core.List.{Perm, Mem}
use mathlib.Core.List.Perm
use subportal.Prelude.{
  ℕ, String, ◌≡◌, refl, ◌≢◌, true, false, Option, some, List, [], map, any, ap, ◌∙◌, ok, err,
}
use subportal.Protocol.{
  confirm, Response, pong, done, notify_delivered, ticket, SubportalError, no_client, no_decision,
  user_denied, not_supported, file_too_large, not_found,
}
use subportal.Protocol.Json.{Json}
use subportal.Protocol.Wire.{from_wire, error_to_wire, response_to_wire}
use subportal.Router.{strategy_for, Outcome, Joined, finished, race_decision}
use subportal.Router.Race.{IsDecision, was_asked}
use subportal.Hub.{Hub, Env}
use subportal.Hub.Send.{Exchange}
use subportal.Local.Client.{received, read_response, known_error, call, request_value}
use subportal.Local.Server.{PeerInfo, respond}
use subportal.Local.Call.{is_trusted, call-received}
use subportal.Agent.Requests.{ranked_connections, by_strategy, handle_unix_request}
use subportal.Agent.Requests.Racing.{decides, replies, race_tasks-replies}
use subportal.Agent.Socket.{responded, accept_unix, accept_unix-request_value}
use subportal.Command.Console.{SocketPath}
use subportal.Command.Subportal.{confirm_ran, Machine, confirm_user, main}

-- What the answers of the devices say for an exit code: some reply is read as success, some device
-- replied `UserDenied`, no reply decides and some device replied `NoDecision`, or none did, or some device
-- replied another error that decides.
pub data Verdict (answers : List Joined) (code : ℕ) : Type 0 where
  approved :
      code ≡ 0
      → (eid : String) (response : Response) → Mem (finished eid (ok response)) answers
      → Verdict answers code
  denied :
      code ≡ 1
      → (eid : String) → Mem (finished eid (err user_denied)) answers
      → Verdict answers code
  unanswered :
      code ≡ 3 → any decides answers ≡ false → any was_asked answers ≡ true → Verdict answers code
  unasked :
      code ≡ 2 → any decides answers ≡ false → any was_asked answers ≡ false → Verdict answers code
  unable :
      code ≡ 2
      → (eid : String) (e : SubportalError) → Mem (finished eid (err e)) answers
      → IsDecision (err e)
      → e ≢ user_denied
      → Verdict answers code

-- The exit code that `confirm` has for an outcome of the agent.
abbrev pub code_of : Outcome → ℕ
code_of (ok response) = 0
code_of (err user_denied) = 1
code_of (err no_decision) = 3
code_of (err _) = 2

module _ (j : Json) where
  open j use {Value}

  -- On the way through the socket the answer keeps its exit code.
  confirm_ran-respond :
      (socket : SocketPath) (message : String) (title : Option String) (o : Outcome)
      → (confirm_ran socket (
          read_response j
            (confirm message title)
            (respond j o).error
            (respond j o).parameters)).code
        ≡ code_of o
  unfolding confirm_ran read_response respond known_error from_wire error_to_wire response_to_wire
  confirm_ran-respond socket message title (ok (pong a b c d)) = refl
  confirm_ran-respond socket message title (ok done) = refl
  confirm_ran-respond socket message title (ok (notify_delivered id)) = refl
  confirm_ran-respond socket message title (ok (ticket t)) = refl
  confirm_ran-respond socket message title (err user_denied) = refl
  confirm_ran-respond socket message title (err no_decision) = refl
  confirm_ran-respond socket message title (err (not_supported c)) = refl
  confirm_ran-respond socket message title (err (file_too_large n)) = refl
  confirm_ran-respond socket message title (err no_client) = refl
  confirm_ran-respond socket message title (err (not_found w)) = refl

  module _ (exchange : ℕ → Value → Exchange Value) (schedule : List Joined → List Joined)
      (meanwhile : Hub → Hub) (env : Env) where
    -- The answers of the devices that can show a prompt.
    abbrev pub confirmations : String → Option String → Hub → List Joined
    confirmations message title hub =
        replies j exchange (confirm message title) (ranked_connections "Confirm" hub)

    served_confirm :
        (message : String) (title : Option String) (hub : Hub)
        → handle_unix_request j exchange schedule meanwhile env (confirm message title) hub
          ≡ some (record {
            outcome = race_decision (schedule (confirmations message title hub));
            hub = hub;
            closed = [];
            asked = map (λ c. c.1) (ranked_connections "Confirm" hub);
          })
    unfolding handle_unix_request by_strategy strategy_for
    served_confirm message title hub =
        rw
          (race_tasks-replies j exchange (confirm message title) (ranked_connections "Confirm" hub))
          refl

    -- The exit code is that of the race between the devices.
    pub main-confirm_code :
        (m : Machine) (socket : SocketPath) (host : Option String) (my_uid : ℕ) (peer : PeerInfo)
        (message : String) (title : Option String) (hub : Hub)
        → is_trusted my_uid peer.uid ≡ true
        → (main m socket
            (call j
              (λ value. (accept_unix j exchange schedule meanwhile env my_uid peer hub value).0)
              host)
            (confirm_user message title)).code
          ≡ code_of (race_decision (schedule (confirmations message title hub)))
    unfolding main responded
    main-confirm_code m socket host my_uid peer message title hub t =
        let outcome = race_decision (schedule (confirmations message title hub)) in
        let link = λ (value : Value).
          (accept_unix j exchange schedule meanwhile env my_uid peer hub value).0 in
        let answer : link (request_value j host (confirm message title))
            ≡ received (respond j outcome) =
          ap (λ r. r.0)
            (accept_unix-request_value j exchange schedule meanwhile env my_uid peer host
                (confirm message title) hub tt t
              ∙ ap (responded j hub) (served_confirm message title hub)) in
        ap (λ r. (confirm_ran socket r).code)
          (call-received j link host (confirm message title) (respond j outcome) answer)
        ∙ confirm_ran-respond socket message title outcome
