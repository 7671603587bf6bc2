-- ===== src/Command/Confirm/Approval.antt =====
-- From the exit code of `subportal confirm` to the click of a user on a desktop.
use mathlib.Core.List.{Perm}
use subportal.Prelude.{
  ℕ, String, ◌≡◌, refl, ◌∙◌, sym, ap, Bool, true, false, ◌&&◌, Option, none, some, List, [], ◌∷◌,
  any, str_eq, ok, err, Bool-cases, inl, inr, if◌then◌else◌, ◌==◌,
}
use subportal.Prelude.Sort.{any-perm}
use subportal.Prelude.Table.{Table}
use subportal.Protocol.{
  confirm as confirm_request, done, no_client, no_decision, user_denied, not_supported,
  file_too_large, not_found,
}
use subportal.Protocol.Json.{Json}
use subportal.Protocol.Codec.{to_value, param_str}
use subportal.Protocol.Codec.RoundTrip
use subportal.Router.{Outcome, Joined, finished, join_error, race_loop, race_decision}
use subportal.Hub.{Hub, Env}
use subportal.Hub.Send.{Exchange, reply, reply-to_wire}
use subportal.Local.Client.{call}
use subportal.Local.Server.{PeerInfo, respond}
use subportal.Local.Call.{is_trusted}
use subportal.Agent.Requests.{ranked_connections}
use subportal.Agent.Requests.Racing.{replies}
use subportal.Agent.Socket.{accept_unix}
use subportal.Desktop.Decision.{
  ConfirmDecision, approved, denied, undecided, ConfirmEvent, invoked, closed,
}
use subportal.Desktop.Handler.{handle, decided}
use subportal.Desktop.Portal.{Bus, System, events_of, confirm_call, confirm, prompted, portal_of}
use subportal.Desktop.Portal.Prompt.{first_of, decide_lem, decision_of}
use subportal.Desktop.Session.{stream_request, handle_request_stream}
use subportal.Command.Console.{SocketPath}
use subportal.Command.Subportal.{Machine, confirm_user, main}
use subportal.Command.Confirm.{code_of, confirmations, main-confirm_code}

abbrev is_ok : Outcome → Bool
is_ok (ok response) = true
is_ok (err e) = false

abbrev approves : Joined → Bool
approves (finished eid o) = is_ok o
approves join_error = false

is_ok-code_of : (o : Outcome) → (code_of o == 0) ≡ is_ok o
is_ok-code_of (ok response) = refl
is_ok-code_of (err no_client) = refl
is_ok-code_of (err no_decision) = refl
is_ok-code_of (err user_denied) = refl
is_ok-code_of (err (not_supported c)) = refl
is_ok-code_of (err (file_too_large n)) = refl
is_ok-code_of (err (not_found w)) = refl

-- A race ends well only if some device answers well.
race_loop-approves :
    (asked : Bool) (set : List Joined)
    → is_ok (race_loop asked set) ≡ true
    → any approves set ≡ true
unfolding race_loop
race_loop-approves true [] h = h
race_loop-approves false [] h = h
race_loop-approves asked (finished eid (ok response) ∷ set) h = refl
race_loop-approves asked (finished eid (err no_client) ∷ set) h = race_loop-approves asked set h
race_loop-approves asked (finished eid (err no_decision) ∷ set) h = race_loop-approves true set h
race_loop-approves asked (finished eid (err user_denied) ∷ set) h = cc
race_loop-approves asked (finished eid (err (not_supported c)) ∷ set) h = cc
race_loop-approves asked (finished eid (err (file_too_large n)) ∷ set) h = cc
race_loop-approves asked (finished eid (err (not_found w)) ∷ set) h = cc
race_loop-approves asked (join_error ∷ set) h = race_loop-approves asked set h

-- A click on approval.
abbrev is_approval : Option ConfirmEvent → Bool
is_approval none = false
is_approval (some (invoked id action)) = str_eq action "approve"
is_approval (some (closed id reason)) = false

abbrev on_prompt : Bus → Option ℕ → Bool
on_prompt bus none = false
on_prompt bus (some id) = is_approval (first_of id (events_of bus.signals))

-- A prompt is shown on a desktop, and the first event of its notification is a click on approval.
abbrev pub user_approves : Bus → String → Option String → Option String → Bool
user_approves bus message title host =
    bus.connects && (bus.subscribes && on_prompt bus (bus.shows (confirm_call message title host)))

abbrev is_approved : Option ConfirmDecision → Bool
is_approved (some approved) = true
is_approved _ = false

is_approved-decision_of :
    (o : Option ConfirmEvent) → is_approved (some (decision_of o)) ≡ is_approval o
is_approved-decision_of none = refl
is_approved-decision_of (some (invoked id action)) = elim (Bool-cases (str_eq action "approve")) [
  | inl e ↦ rw e refl
  | inr e ↦ rw e refl
]
is_approved-decision_of (some (closed id reason)) = elim (Bool-cases (reason == 2)) [
  | inl e ↦ rw e refl
  | inr e ↦ rw e refl
]

is_approved-prompted : (bus : Bus) (o : Option ℕ) → is_approved (prompted bus o).0 ≡ on_prompt bus o
unfolding prompted
is_approved-prompted bus none = refl
is_approved-prompted bus (some id) =
    ap (λ r. is_approved (some r.0)) (decide_lem (events_of bus.signals) bus.stream_ends id)
    ∙ is_approved-decision_of (first_of id (events_of bus.signals))

is_approved-if :
    (a b : Bool) (r : Option ConfirmDecision × Option ℕ)
    → is_approved (if a && b then r else (none, none)).0 ≡ (a && (b && is_approved r.0))
is_approved-if true true r = refl
is_approved-if true false r = refl
is_approved-if false b r = refl

is_approved-confirm :
    (bus : Bus) (message : String) (title host : Option String)
    → is_approved (confirm bus message title host).0 ≡ user_approves bus message title host
unfolding confirm
is_approved-confirm bus message title host =
    let shown = bus.shows (confirm_call message title host) in
    is_approved-if bus.connects bus.subscribes (prompted bus shown)
    ∙ ap (λ b. bus.connects && (bus.subscribes && b)) (is_approved-prompted bus shown)

module _ (j : Json) where
  reply-decided :
      (o : Option ConfirmDecision)
      → is_ok (reply j (subportal.Hub.Send.received (respond j (decided o)))) ≡ is_approved o
  unfolding respond decided
  reply-decided none = ap is_ok (reply-to_wire j no_decision done tt).0
  reply-decided (some approved) = ap is_ok (reply-to_wire j user_denied done tt).1
  reply-decided (some denied) = ap is_ok (reply-to_wire j user_denied done tt).0
  reply-decided (some undecided) = ap is_ok (reply-to_wire j no_decision done tt).0

  module _ (system : ℕ → System) (bus : ℕ → Bus) (shown : ℕ → Table ℕ) (hostname : String) where
    -- Each connection leads to a desktop.
    abbrev pub to_desktop : ℕ → j.Value → Exchange j.Value
    to_desktop c value =
        (handle_request_stream j (portal_of (system c) (bus c)) hostname value (shown c)).0

    reply-to_desktop :
        (c : ℕ) (message : String) (title : Option String)
        → is_ok (reply j (to_desktop c (to_value j (confirm_request message title))))
          ≡ user_approves (bus c) message title (some hostname)
    unfolding handle_request_stream stream_request handle
    reply-to_desktop c message title =
        let value = to_value j (confirm_request message title) in
        ap
          (λ r. is_ok (
            reply j
              (stream_request j (portal_of (system c) (bus c)) hostname
                (param_str j "notification_id" value) r (shown c)).0))
          (RoundTrip.from_value-to_value j (confirm_request message title) tt)
        ∙ reply-decided (confirm (bus c) message title (some hostname)).0
        ∙ is_approved-confirm (bus c) message title (some hostname)

    approves-replies :
        (message : String) (title : Option String) (targets : List (String × ℕ))
        → any approves (replies j to_desktop (confirm_request message title) targets)
          ≡ any (λ c. user_approves (bus c.1) message title (some hostname)) targets
    approves-replies message title [] = refl
    approves-replies message title (c ∷ targets) =
        rw (reply-to_desktop c.1 message title, approves-replies message title targets) refl

    -- `subportal confirm`, run by a user that the agent trusts while all connected devices are desktops,
    -- ends with success only if on one of the desktops that can show a prompt the prompt was shown and the
    -- first thing that happened to it within its timeout was a click on approval, in whichever order
    -- the desktops answer.
    pub main-approval :
        (schedule : List Joined → List Joined) (meanwhile : Hub → Hub) (env : Env) (m : Machine)
        (socket : SocketPath) (host : Option String) (my_uid : ℕ) (peer : PeerInfo)
        (message : String) (title : Option String) (hub : Hub)
        → ((tasks : List Joined) → Perm (schedule tasks) tasks)
        → is_trusted my_uid peer.uid ≡ true
        → ((main m socket
              (call j
                (λ value. (accept_unix j to_desktop schedule meanwhile env my_uid peer hub value).0)
                host)
              (confirm_user message title)).code
            == 0)
          ≡ true
        → any
            (λ c. user_approves (bus c.1) message title (some hostname))
            (ranked_connections "Confirm" hub)
          ≡ true
    unfolding race_decision
    main-approval schedule meanwhile env m socket host my_uid peer message title hub p t z =
        let answers = confirmations j to_desktop schedule meanwhile env message title hub in
        let code =
          main-confirm_code j to_desktop schedule meanwhile env m socket host my_uid peer message
            title hub t in
        sym (approves-replies message title (ranked_connections "Confirm" hub))
        ∙ sym (any-perm approves (p answers))
        ∙ race_loop-approves false (schedule answers) (
            sym (is_ok-code_of (race_decision (schedule answers)))
            ∙ ap (λ n. n == 0) (sym code)
            ∙ z)
