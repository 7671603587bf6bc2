-- ===== src/Desktop/Focus.antt =====
-- `send_focus_updates` of crates/subportal-desktop/src/focus.rs. What the screen saver answers on D-Bus
-- and how each write ends are inputs; a poll that never comes is the end of the list.
pub mod Tracking
use subportal.Prelude.{Bool, true, false, Option, none, some, List, [], ◌∷◌, if◌then◌else◌}
use subportal.Control.{FocusState, active, idle, ControlMessage, focus_update}

-- The state that is detected, and whether the warning has been logged. Nothing is that the query fails.
unfoldable pub detect_focus_state : Option Bool → Bool → FocusState × Bool
detect_focus_state (some true) warned = (idle, warned)
detect_focus_state (some false) warned = (active, warned)
detect_focus_state none warned = (active, true)

-- `==` on focus states
abbrev same_focus : FocusState → FocusState → Bool
same_focus active active = true
same_focus idle idle = true
same_focus _ _ = false

-- A poll: the answer of the screen saver, and whether a write behind it succeeds.
pub record Poll : Type 0 where
  pub screensaver : Option Bool
  pub writes : Bool

abbrev written : Bool → ControlMessage → List ControlMessage → List ControlMessage
written true msg later = msg ∷ later
written false msg later = []

-- The messages that the loop writes.
unfoldable pub poll_loop : FocusState → Bool → List Poll → List ControlMessage
unfolding detect_focus_state
poll_loop current warned [] = []
poll_loop current warned (poll ∷ polls) =
    let (new_state, warned') = detect_focus_state poll.screensaver warned in
    let changed =
      written poll.writes (focus_update new_state) (poll_loop new_state warned' polls) in
    let unchanged = poll_loop current warned' polls in
    if same_focus new_state current then unchanged else changed

-- The initial message, and the loop if it could be written.
unfoldable pub send_focus_updates : Bool → List Poll → List ControlMessage
unfolding poll_loop
send_focus_updates writes polls =
    written writes (focus_update active) (poll_loop active false polls)
