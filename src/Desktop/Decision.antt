-- ===== src/Desktop/Decision.antt =====
-- `await_decision` of crates/subportal-desktop/src/portal.rs: the stream of events is the list of those
-- that come before it ends.
pub mod Laws
use subportal.Prelude.{
  ℕ, String, ◌≡◌, refl, true, false, List, [], ◌∷◌, ◌++◌, str_eq, ◌==◌, if◌then◌else◌, All,
}

-- `enum ConfirmDecision`
pub data ConfirmDecision : Type 0 where
  approved denied undecided : ConfirmDecision

-- `enum ConfirmEvent`
pub data ConfirmEvent : Type 0 where
  invoked : (id : ℕ) (action : String) → ConfirmEvent
  closed : (id : ℕ) (reason : ℕ) → ConfirmEvent

-- `const REASON_DISMISSED`
abbrev reason_dismissed : ℕ
reason_dismissed = 2

unfoldable pub await_decision : List ConfirmEvent → ℕ → ConfirmDecision
await_decision [] id = undecided
await_decision (invoked eid action ∷ events) id =
    let rest = await_decision events id in
    if eid == id then (if str_eq action "approve" then approved else denied) else rest
await_decision (closed eid reason ∷ events) id =
    let rest = await_decision events id in
    if eid == id then (if reason == reason_dismissed then denied else undecided) else rest

-- The notification that an event is about.
abbrev pub about : ConfirmEvent → ℕ
about (invoked id action) = id
about (closed id reason) = id

-- What an event says of its notification: a click approves or denies, a dismissal denies, and another
-- end of the notification decides nothing.
abbrev pub meaning : ConfirmEvent → ConfirmDecision
meaning (invoked id action) = if str_eq action "approve" then approved else denied
meaning (closed id reason) = if reason == 2 then denied else undecided
