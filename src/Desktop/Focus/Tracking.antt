-- ===== src/Desktop/Focus/Tracking.antt =====
-- The agent's view of a desktop's focus.
use mathlib.Core.Option
use subportal.Prelude.{
  ℕ, String, ◌≡◌, refl, ◌∙◌, sym, ap, Bool, true, false, Option, none, some, List, [], ◌∷◌, map,
  All, eq_refl, Bool-cases, inl, inr,
}
use subportal.Prelude.Table
use subportal.Control.{FocusState, active, idle, ControlMessage, focus_update, dismiss_notification}
use subportal.Hub.{Hub, ConnectedClient, set_focus}
use subportal.Agent.Handshake.{control_loop}
use subportal.Agent.Handshake.Lifecycle.{focused, heard, control_loop_lem}
use subportal.Desktop.Focus.{detect_focus_state, same_focus, Poll, poll_loop, send_focus_updates}

-- The state that a screen saver's answer stands for.
abbrev state_of : Option Bool → FocusState
state_of (some true) = idle
state_of _ = active

-- The state of the last poll.
abbrev pub last_state : FocusState → List Poll → FocusState
last_state state [] = state
last_state state (poll ∷ polls) = last_state (state_of poll.screensaver) polls

-- The focus that a client is left with by messages.
abbrev focus_behind : FocusState → List ControlMessage → FocusState
focus_behind f [] = f
focus_behind f (focus_update state ∷ msgs) = focus_behind state msgs
focus_behind f (dismiss_notification id ∷ msgs) = focus_behind f msgs

-- Every message reports a change.
abbrev pub IsChanging : FocusState → List ControlMessage → Type 0
IsChanging f [] = Unit
IsChanging f (focus_update state ∷ msgs) = (same_focus state f ≡ false) × IsChanging state msgs
IsChanging f (dismiss_notification id ∷ msgs) = ⊥

same_focus_eq : (f g : FocusState) → same_focus f g ≡ true → f ≡ g
same_focus_eq active active h = refl
same_focus_eq idle idle h = refl
same_focus_eq active idle h = cc
same_focus_eq idle active h = cc

detected :
    (answer : Option Bool) (warned : Bool) → (detect_focus_state answer warned).0 ≡ state_of answer
unfolding detect_focus_state
detected none warned = refl
detected (some true) warned = refl
detected (some false) warned = refl

poll_loop_lem :
    (current : FocusState) (warned : Bool) (polls : List Poll)
    → All (λ (p : Poll). p.writes ≡ true) polls
    → IsChanging current (poll_loop current warned polls)
      × (focus_behind current (poll_loop current warned polls) ≡ last_state current polls)
unfolding poll_loop
poll_loop_lem current warned [] h = (tt, refl)
poll_loop_lem current warned (poll ∷ polls) h =
    let found = detect_focus_state poll.screensaver warned in
    let state = detected poll.screensaver warned in
    elim (Bool-cases (same_focus found.0 current)) [
      | inl e ↦
          let later = poll_loop_lem current found.1 polls h.1 in
          rw e (
            later.0,
            later.1 ∙ ap (λ f. last_state f polls) (sym (same_focus_eq found.0 current e) ∙ state),
          )
      | inr e ↦
          let later = poll_loop_lem found.0 found.1 polls h.1 in
          rw (e, h.0) ((e, later.0), later.1 ∙ ap (λ f. last_state f polls) state)
    ]

focus-focused :
    (msgs : List (ℕ × ControlMessage)) (c : ConnectedClient)
    → (focused msgs c).focus ≡ focus_behind c.focus (map (λ m. m.1) msgs)
focus-focused [] c = refl
focus-focused ((now, focus_update active) ∷ msgs) c = focus-focused msgs (set_focus now active c)
focus-focused ((now, focus_update idle) ∷ msgs) c = focus-focused msgs (set_focus now idle c)
focus-focused ((now, dismiss_notification id) ∷ msgs) c = focus-focused msgs c

heard_self :
    (remote : String) (msgs : List (ℕ × ControlMessage)) (c : ConnectedClient)
    → heard remote msgs remote c ≡ focused msgs c
heard_self remote msgs c = rw (eq_refl remote) refl

-- The agent that reads a desktop's focus messages, at whatever times they arrive, has the state that
-- the last poll detected as the focus of the connected device; and every message behind the first one
-- reports a change. All writes succeed, and the device is connected.
pub control_loop-send_focus_updates :
    (remote : String) (polls : List Poll) (msgs : List (ℕ × ControlMessage)) (hub : Hub)
    (c : ConnectedClient)
    → All (λ (p : Poll). p.writes ≡ true) polls
    → map (λ m. m.1) msgs ≡ send_focus_updates true polls
    → Table.get remote hub.clients ≡ some c
    → (Option.map
          (λ (d : ConnectedClient). d.focus)
          (Table.get remote (control_loop remote msgs hub).clients)
        ≡ some (last_state active polls))
      × IsChanging active (poll_loop active false polls)
unfolding send_focus_updates
control_loop-send_focus_updates remote polls msgs hub c h e g = (
  ap (Option.map (λ (d : ConnectedClient). d.focus))
        (control_loop_lem remote remote msgs hub ∙ ap (Option.map (heard remote msgs remote)) g)
      ∙ ap (λ (d : ConnectedClient). some d.focus) (heard_self remote msgs c)
      ∙ ap some (
          focus-focused msgs c
          ∙ ap (focus_behind c.focus) e
          ∙ (poll_loop_lem active false polls h).1),
  (poll_loop_lem active false polls h).0,
)
