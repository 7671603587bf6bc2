-- ===== src/Router.antt =====
-- Routing: crates/subportal/src/router.rs. An `Instant` is a number of ticks. The tasks of a `JoinSet`
-- are the list of their results in the order in which they end.
pub mod Ranking
pub mod Failover
pub mod Race
mod Tests
use subportal.Prelude.{
  ℕ, compare, Ordering, String, str_eq, Bool, true, false, Option, List, [], ◌∷◌, filter, any,
  Result, ok, err, if◌then◌else◌,
}
use subportal.Prelude.Order.{cmp_by, cmp_reversed, cmp_then, cmp_str}
use subportal.Prelude.Sort.{sort_by}
use subportal.Control.{FocusState, active, idle}
use subportal.Protocol.{
  Request, open_uri, open_file, confirm, notify, Response, SubportalError, user_denied, no_decision,
  not_supported, file_too_large, no_client, not_found,
}

-- `struct ClientInfo`
pub record ClientInfo : Type 0 where
  pub endpoint_id : String
  pub focus : FocusState
  pub capabilities : List String
  pub platform : String
  pub last_active : ℕ

-- `enum Strategy`
pub data Strategy : Type 0 where
  failover race fan_out_all : (capability : String) → Strategy
  direct : Strategy

unfoldable pub strategy_for : Request → Strategy
strategy_for (open_uri uri) = failover "OpenURI"
strategy_for (open_file name mime content) = failover "OpenFile"
strategy_for (confirm message title) = race "Confirm"
strategy_for (notify title body urgency icon) = fan_out_all "Notify"
strategy_for _ = direct

abbrev focus_rank : FocusState → ℕ
focus_rank active = 0
focus_rank idle = 1

-- `c.capabilities.iter().any(|cap| cap == capability)`
abbrev pub has_capability : String → ClientInfo → Bool
has_capability capability c = any (λ cap. str_eq cap capability) c.capabilities

-- The comparator of `rank`: active first, then the more recent, then by endpoint id.
abbrev pub cmp_clients : ClientInfo → ClientInfo → Ordering
cmp_clients = cmp_then (cmp_by compare (λ c. focus_rank c.focus)) (
    cmp_then (cmp_reversed (cmp_by compare (λ c. c.last_active)))
      (cmp_by cmp_str (λ c. c.endpoint_id)))

unfoldable pub rank : List ClientInfo → String → List ClientInfo
rank clients capability = sort_by cmp_clients (filter (has_capability capability) clients)

unfoldable pub fan_out : List ClientInfo → String → List ClientInfo
fan_out clients capability = filter (has_capability capability) clients

-- `Result<Response, SubportalError>`
abbrev pub Outcome : Type 0
Outcome = Result Response SubportalError

-- `failover_decision`. `send` may change a state of its own.
module _ {ℓ} {S : Type ℓ} {T : Type 0} (send : T → S → Outcome × S) where
  -- The `match` on one outcome: `rest` is the loop over the other targets.
  failover_match : Outcome → S → Outcome × S → Outcome × S
  failover_match (ok resp) s rest = (ok resp, s)
  failover_match (err no_client) s rest = rest
  failover_match (err e) s rest = (err e, s)

  unfoldable pub failover_decision : List (String × T) → S → Outcome × S
  unfolding failover_match
  failover_decision [] s = (err no_client, s)
  failover_decision ((eid, target) ∷ targets) s =
      let (outcome, s') = send target s in
      let rest = failover_decision targets s' in failover_match outcome s' rest

-- What `join_next` yields: a task's endpoint id and outcome, or the failure of the task itself.
pub data Joined : Type 0 where
  finished : (eid : String) → Outcome → Joined
  join_error : Joined

-- `race_decision`, with the flag `asked_without_answer`.
unfoldable pub race_loop : Bool → List Joined → Outcome
race_loop asked [] = if asked then err no_decision else err no_client
race_loop asked (finished eid (ok resp) ∷ set) = ok resp
race_loop asked (finished eid (err no_client) ∷ set) = race_loop asked set
race_loop asked (finished eid (err no_decision) ∷ set) = race_loop true set
race_loop asked (finished eid (err e) ∷ set) = err e
race_loop asked (join_error ∷ set) = race_loop asked set

unfoldable pub race_decision : List Joined → Outcome
unfolding race_loop
race_decision set = race_loop false set
