-- ===== src/Desktop/Portal.antt =====
-- crates/subportal-desktop/src/portal.rs: what the desktop is asked for over D-Bus, with the files that
-- `open_file` leaves. The bus, the crates for URLs and base64 and the ends of file operations are inputs.
pub mod Prompt
pub mod Received
mod Tests
use Prim.Native.String.{◌++◌ as str_append}
use mathlib.Core.Option
use subportal.Prelude.{
  ℕ, String, Bool, true, false, not, ◌||◌, ◌&&◌, Option, none, some, List, [], ◌∷◌, ◌==◌, any,
  length, str_eq, unwrap_or, if◌then◌else◌,
}
use subportal.Prelude.Decimal.{to_decimal}
use subportal.Prelude.Table
use subportal.Prelude.Table.{Table}
use subportal.Prelude.Text.{join_path}
use subportal.Desktop.Decision.{
  ConfirmDecision, undecided, ConfirmEvent, invoked, closed, await_decision,
}
use subportal.Desktop.Handler

-- A call of `Notify`. A time of `none` is -1, the default of the notification server.
pub record NotifyCall : Type 0 where
  pub app_name : String
  pub replaces_id : ℕ
  pub app_icon : String
  pub summary : String
  pub body : String
  pub actions : List String
  pub urgency : Option ℕ
  pub expire_timeout : Option ℕ

abbrev urgency_level : String → ℕ
urgency_level u =
    if str_eq u "low" then 0 else (if str_eq u "critical" || str_eq u "urgent" then 2 else 1)

abbrev app_name_of : Option String → String
app_name_of none = "subportal"
app_name_of (some h) = str_append "subportal@" h

abbrev notify_call :
    String → Option String → Option String → Option String → Option String → NotifyCall
notify_call title body urgency icon host = record {
  app_name = app_name_of host;
  replaces_id = 0;
  app_icon = unwrap_or icon "";
  summary = title;
  body = unwrap_or body "";
  actions = [];
  urgency = Option.map urgency_level urgency;
  expire_timeout = none;
}

abbrev pub confirm_call : String → Option String → Option String → NotifyCall
confirm_call message title host = record {
  app_name = app_name_of host;
  replaces_id = 0;
  app_icon = "dialog-question";
  summary = unwrap_or title "Approval required";
  body = message;
  actions = "approve" ∷ "Approve" ∷ "deny" ∷ "Deny" ∷ [];
  urgency = some 2;
  expire_timeout = some 0;
}

-- A signal of the bus: its member, and its body where it reads as that of an action or of a close.
pub record BusSignal : Type 0 where
  pub member : String
  pub action : Option (ℕ × String)
  pub reason : Option (ℕ × ℕ)

abbrev to_event : BusSignal → Option ConfirmEvent
to_event s =
    if str_eq s.member "ActionInvoked"
    then Option.map (λ (a : ℕ × String). invoked a.0 a.1) s.action
    else (if str_eq s.member "NotificationClosed"
        then Option.map (λ (r : ℕ × ℕ). closed r.0 r.1) s.reason
        else none)

kept_event : Option ConfirmEvent → List ConfirmEvent → List ConfirmEvent
kept_event none events = events
kept_event (some event) events = event ∷ events

-- `messages.filter_map(..)`
unfoldable pub events_of : List BusSignal → List ConfirmEvent
unfolding kept_event
events_of [] = []
events_of (s ∷ signals) = kept_event (to_event s) (events_of signals)

-- What the session bus does: whether it can be connected to, the reply to a call of `Notify`, whether
-- the signals can be subscribed to, those that arrive within the timeout of a prompt, and whether the
-- stream of signals ends before that.
pub record Bus : Type 0 where
  pub connects : Bool
  pub subscribes : Bool
  pub shows : NotifyCall → Option ℕ
  pub signals : List BusSignal
  pub stream_ends : Bool

unfoldable pub notify :
    Bus → String → Option String → Option String → Option String → Option String → Option ℕ
notify bus title body urgency icon host =
    if bus.connects then bus.shows (notify_call title body urgency icon host) else none

-- Whether `await_decision` still waits behind the events.
unfoldable is_waiting : List ConfirmEvent → ℕ → Bool
is_waiting [] id = true
is_waiting (invoked eid action ∷ events) id = not (eid == id) && is_waiting events id
is_waiting (closed eid reason ∷ events) id = not (eid == id) && is_waiting events id

-- `timeout(CONFIRM_TIMEOUT, await_decision(events, id))`: a prompt that times out is closed, and the
-- number of the closed one is kept.
unfoldable decide : List ConfirmEvent → Bool → ℕ → ConfirmDecision × Option ℕ
unfolding await_decision is_waiting
decide events stream_ends id =
    if is_waiting events id && not stream_ends
    then (undecided, some id)
    else (await_decision events id, none)

unfoldable pub prompted : Bus → Option ℕ → Option ConfirmDecision × Option ℕ
unfolding decide events_of
prompted bus none = (none, none)
prompted bus (some id) =
    let (decision, gone) = decide (events_of bus.signals) bus.stream_ends id in
    (some decision, gone)

-- The decision, if a prompt could be shown, and the notification that is closed.
unfoldable pub confirm :
    Bus → String → Option String → Option String → Option ConfirmDecision × Option ℕ
unfolding prompted
confirm bus message title host =
    let shown = prompted bus (bus.shows (confirm_call message title host)) in
    if bus.connects && bus.subscribes then shown else (none, none)

-- How a write of a file ends: done, or failed with some content or no file left behind.
pub data WriteEnd : Type 0 where
  written : WriteEnd
  write_failed : Option (List ℕ) → WriteEnd

-- The crates for URLs and base64, the environment, the ends of the file operations, and what the user
-- answers to the portal's question.
pub record System : Type 0 where
  pub parses_url : String → Bool
  pub decode : String → Option (List ℕ)
  pub runtime_dir : Option String
  pub uid : ℕ
  pub creates_dir : Bool
  pub write_end : WriteEnd
  pub opens : Bool
  pub sends_uri : String → Bool
  pub sends_file : String → Bool

module _ (system : System) where
  open system use {
    parses_url, decode, runtime_dir, uid, creates_dir, write_end, opens, sends_uri, sends_file,
  }

  unfoldable pub open_uri : String → Bool
  open_uri uri = parses_url uri && sends_uri uri

  -- $XDG_RUNTIME_DIR/subportal/<name>
  unfoldable file_path : String → String
  unfolding join_path
  file_path name =
      join_path
        (join_path (unwrap_or runtime_dir (str_append "/run/user/" (to_decimal uid))) "subportal")
        name

  unfoldable write_file : String → List ℕ → WriteEnd → Table (List ℕ) → Bool × Table (List ℕ)
  write_file path bytes written files = (opens && sends_file path, Table.insert path bytes files)
  write_file path bytes (write_failed none) files = (false, files)
  write_file path bytes (write_failed (some left)) files = (false, Table.insert path left files)

  unfoldable decoded_file : String → Option (List ℕ) → Table (List ℕ) → Bool × Table (List ℕ)
  unfolding file_path write_file
  decoded_file name none files = (false, files)
  decoded_file name (some bytes) files =
      let done = write_file (file_path name) bytes write_end files in
      if creates_dir then done else (false, files)

  -- Whether the file is opened, and the files behind it.
  unfoldable pub open_file : String → String → Table (List ℕ) → Bool × Table (List ℕ)
  unfolding decoded_file
  open_file name content files = decoded_file name (decode content) files

  -- The portal that the handler calls. Whether a file is opened does not depend on the files there are.
  abbrev pub portal_of : Bus → Handler.Portal
  portal_of bus = record {
    opens_uri = open_uri;
    opens_file = λ name mime content. (open_file name content []).0;
    notifies = notify bus;
    confirms = λ message title host. (confirm bus message title host).0;
    decoded_len = λ content. Option.map length (decode content);
  }
