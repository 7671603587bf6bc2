-- ===== src/Hub/Send.antt =====
-- Sending a request to a device: `send_to_connection` of crates/subportal/src/hub.rs.
use subportal.Prelude.{
  ℕ, String, ◌≡◌, refl, Option, none, some, List, [], ◌∷◌, ◌++◌, unwrap_or, ok, err,
}
use subportal.Protocol.{Response, done, SubportalError, no_client, pong, notify_delivered, ticket}
use subportal.Protocol.Json.{Json}
use subportal.Protocol.Wire
use subportal.Protocol.Wire.{WireResponse, from_wire, response_to_wire, error_to_wire}
use subportal.Router.{Outcome}

-- How a stream to a device ends: it cannot be opened, written or read, or a response arrives.
pub data Exchange (V : Type 0) : Type 0 where
  open_failed send_failed recv_failed : Exchange V
  received : WireResponse V → Exchange V

module _ (j : Json) where
  open j use {Value, empty, object}

  -- An error id that `from_wire` does not know falls through to `Ok(Response::Ok)`.
  reply_error : Option SubportalError → Outcome
  reply_error (some e) = err e
  reply_error none = ok done

  reply_received : Option String → Option Value → Outcome
  unfolding reply_error
  reply_received none parameters = ok done
  reply_received (some err_id) parameters =
      reply_error (from_wire j err_id (unwrap_or parameters (object empty)))

  unfoldable pub reply : Exchange Value → Outcome
  unfolding reply_received
  reply (received resp) = reply_received resp.error resp.parameters
  reply _ = err no_client

  -- The state is the list of the connections that were asked so far.
  unfoldable pub send_to_connection :
      (ℕ → Value → Exchange Value) → Value → ℕ → List ℕ → Outcome × List ℕ
  unfolding reply
  send_to_connection exchange req connection asked =
      (reply (exchange connection req), asked ++ (connection ∷ []))

  reply-response_to_wire : (r : Response) → reply (received (response_to_wire j r)) ≡ ok done
  unfolding reply response_to_wire
  reply-response_to_wire (pong a b c d) = refl
  reply-response_to_wire done = refl
  reply-response_to_wire (notify_delivered id) = refl
  reply-response_to_wire (ticket t) = refl

  -- What a device answers reaches the agent: an error as itself, provided its number fits a `u64`, and
  -- every success as `Ok`.
  pub reply-to_wire :
      (e : SubportalError) (r : Response)
      → Wire.InRange j e
      → (reply (received (error_to_wire j e)) ≡ err e)
        × (reply (received (response_to_wire j r)) ≡ ok done)
  unfolding reply error_to_wire
  reply-to_wire e r h = (rw (Wire.from_wire-error_parameters j e h) refl, reply-response_to_wire r)
