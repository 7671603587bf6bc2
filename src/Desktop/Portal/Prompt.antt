-- ===== src/Desktop/Portal/Prompt.antt =====
-- A confirmation on the desktop: `confirm` of portal.rs under `handle` of handler.rs.
use subportal.Prelude.{
  ℕ, String, ◌≡◌, refl, ap, ◌∙◌, Bool, true, false, Option, none, some, List, [], ◌∷◌, ◌==◌, find,
  ok, err, Bool-cases, inl, inr, if◌then◌else◌,
}
use subportal.Prelude.Table.{Table}
use subportal.Protocol.{confirm as confirm_request, done, user_denied, no_decision}
use subportal.Router.{Outcome}
use subportal.Desktop.Decision.{
  ConfirmDecision, approved, denied, undecided, ConfirmEvent, invoked, closed, await_decision,
  about, meaning,
}
use subportal.Desktop.Handler.{decided, handle}
use subportal.Desktop.Portal.{
  Bus, System, events_of, confirm_call, is_waiting, decide, confirm, portal_of, prompted,
}

-- The first event of a notification.
abbrev pub first_of : ℕ → List ConfirmEvent → Option ConfirmEvent
first_of id events = find (λ e. about e == id) events

abbrev pub answer : ConfirmDecision → Outcome
answer approved = ok done
answer denied = err user_denied
answer undecided = err no_decision

-- What the first event stands for, if there is one.
abbrev pub answer_of : Option ConfirmEvent → Outcome
answer_of none = err no_decision
answer_of (some event) = answer (meaning event)

-- What is closed: a prompt without an event, on a bus that lives.
abbrev pub closed_of : Bool → ℕ → Option ConfirmEvent → Option ℕ
closed_of stream_ends id none = if stream_ends then none else some id
closed_of stream_ends id (some event) = none

abbrev pub decision_of : Option ConfirmEvent → ConfirmDecision
decision_of none = undecided
decision_of (some event) = meaning event

pub decide_lem :
    (events : List ConfirmEvent) (stream_ends : Bool) (id : ℕ)
    → decide events stream_ends id
      ≡ (decision_of (first_of id events), closed_of stream_ends id (first_of id events))
unfolding decide await_decision is_waiting
decide_lem [] true id = refl
decide_lem [] false id = refl
decide_lem (invoked eid action ∷ events) b id = elim (Bool-cases (eid == id)) [
  | inl e ↦ rw e refl
  | inr e ↦ rw e (decide_lem events b id)
]
decide_lem (closed eid reason ∷ events) b id = elim (Bool-cases (eid == id)) [
  | inl e ↦ rw e refl
  | inr e ↦ rw e (decide_lem events b id)
]

decided_answer : (d : ConfirmDecision) → decided (some d) ≡ answer d
unfolding decided
decided_answer approved = refl
decided_answer denied = refl
decided_answer undecided = refl

answer_of_decision : (o : Option ConfirmEvent) → answer (decision_of o) ≡ answer_of o
answer_of_decision none = refl
answer_of_decision (some event) = refl

confirm_lem :
    (bus : Bus) (message : String) (title host : Option String) (id : ℕ)
    → bus.connects ≡ true
    → bus.subscribes ≡ true
    → bus.shows (confirm_call message title host) ≡ some id
    → let first = first_of id (events_of bus.signals) in
      confirm bus message title host
      ≡ (some (decision_of first), closed_of bus.stream_ends id first)
unfolding confirm prompted
confirm_lem bus message title host id c s e =
    rw (c, s, e) (ap (λ r. (some r.0, r.1)) (decide_lem (events_of bus.signals) bus.stream_ends id))

-- A confirmation that the desktop can show is answered by the first event of its own notification that
-- arrives within the timeout: a click on approval is success, another click and a dismissal are a denial,
-- and every other end, the timeout and the end of the bus included, leaves it undecided. The prompt is
-- closed exactly if no such event arrives and the bus lives on. The map of shown notifications stays.
pub handle-confirm :
    (system : System) (bus : Bus) (message : String) (title host nid : Option String) (id : ℕ)
    (map : Table ℕ)
    → bus.connects ≡ true
    → bus.subscribes ≡ true
    → bus.shows (confirm_call message title host) ≡ some id
    → (handle (portal_of system bus) (confirm_request message title) host nid map
        ≡ (answer_of (first_of id (events_of bus.signals)), map))
      × ((confirm bus message title host).1
          ≡ closed_of bus.stream_ends id (first_of id (events_of bus.signals)))
unfolding handle
handle-confirm system bus message title host nid id map c s e =
    let first = first_of id (events_of bus.signals) in
    let both = confirm_lem bus message title host id c s e in
    (
      ap (λ r. (decided r.0, map)) both
          ∙ ap (λ o. (o, map)) (decided_answer (decision_of first) ∙ answer_of_decision first),
      ap (λ r. r.1) both,
    )
