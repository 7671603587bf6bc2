-- ===== src/Desktop/Decision/Laws.antt =====
-- Which event decides a confirmation.
use subportal.Prelude.{ℕ, ◌≡◌, refl, true, false, List, [], ◌∷◌, ◌++◌, ◌==◌, All}
use subportal.Desktop.Decision.{
  ConfirmEvent, invoked, closed, undecided, about, meaning, await_decision,
}

-- The events of other notifications have no influence. The first event of the notification decides,
-- whatever comes behind it, so a click is not undone by the close that follows it; and if the stream ends
-- before such an event, then there is no decision.
await_decision_lem :
    (id : ℕ) (before after : List ConfirmEvent) (event : ConfirmEvent)
    → All (λ e. (about e == id) ≡ false) before
    → (about event == id) ≡ true
    → (await_decision (before ++ (event ∷ after)) id ≡ meaning event)
      × (await_decision before id ≡ undecided)
unfolding await_decision
await_decision_lem id [] after (invoked eid action) h e = (rw e refl, refl)
await_decision_lem id [] after (closed eid reason) h e = (rw e refl, refl)
await_decision_lem id (invoked eid action ∷ before) after event (p, h) e =
    rw p (await_decision_lem id before after event h e)
await_decision_lem id (closed eid reason ∷ before) after event (p, h) e =
    rw p (await_decision_lem id before after event h e)
