-- ===== src/Local/Server.antt =====
-- `Server::accept` and `Responder` of crates/subportal-lib/src/server.rs. The message on the stream, or
-- that none can be read, is an input.
use subportal.Prelude.{
  ℕ, String, Bool, true, not, ◌&&◌, ◌==◌, Option, none, some, Result, ok, err, ◌>>=◌, ◌>>◌, ensure,
  or_err,
}
use subportal.Protocol.{Request, Response, SubportalError}
use subportal.Protocol.Json.{Json}
use subportal.Protocol.Wire.{WireResponse, response_to_wire, error_to_wire}
use subportal.Protocol.Codec.{from_value, param_str}

-- `struct PeerInfo`
pub record PeerInfo : Type 0 where
  pub pid : Option ℕ
  pub uid : Option ℕ

pub data AcceptError : Type 0 where
  uid_mismatch unreadable bad_request : AcceptError

-- The test that a peer passes: no uid, that of root, or that of the server.
unfoldable pub is_allowed : ℕ → PeerInfo → Bool
is_allowed my_uid peer = elim peer.uid [
  | none ↦ true
  | some uid ↦ not (not (uid == 0) && not (uid == my_uid))
]

module _ (j : Json) where
  open j use {Value}

  -- The request and the host that it names.
  unfoldable pub accept : ℕ → PeerInfo → Option Value → Result (Request × Option String) AcceptError
  unfolding is_allowed
  accept my_uid peer message =
      ensure (is_allowed my_uid peer) uid_mismatch
      >> (or_err message unreadable >>= λ value.
          or_err (from_value j value) bad_request >>= λ request.
          ok (request, param_str j "host" value))

  -- `Responder::send_ok` and `send_error`, on what the agent answers.
  unfoldable pub respond : Result Response SubportalError → WireResponse Value
  respond (ok response) = response_to_wire j response
  respond (err error) = error_to_wire j error
