-- ===== src/Android/Answers.antt =====
-- What the agent and the app see of a request to the Android client, and an enrollment from end to end.
use subportal.Prelude.{
  String, ◌≡◌, refl, Bool, true, false, not, Option, some, List, [], ◌∷◌, ◌∙◌, ok, err, arith, ltb,
  leb, unwrap_or, Bool-cases, inl, inr, if◌then◌else◌,
}
use subportal.Protocol.{
  Request, ping, open_uri, open_file, notify, confirm, notify_dismiss, generate_ticket,
  revoke_client, Response, done, SubportalError, max_file_size, file_too_large, user_denied,
  no_decision, not_supported,
}
use subportal.Protocol.Json.{Json}
use subportal.Protocol.Wire
use subportal.Protocol.Codec.{to_value, inject}
use subportal.Protocol.Codec.RoundTrip
use subportal.Protocol.Codec.RoundTrip.{InRange, IsForeign}
use subportal.Router.{Outcome}
use subportal.Hub.Send.{reply, received, reply-to_wire}
use subportal.Local.Server.{respond}
use subportal.Android.Requests.{
  App, Call, on_open_uri, on_open_file, on_confirm, on_notify, on_dismiss_notification, handled,
  ConfirmDecision, approved, denied, undecided, decision_outcome, handle_request, stream_request,
  handle_request_stream,
}

-- What the agent reads from a device's outcome: a success is `Ok`.
abbrev read_by_agent : Outcome → Outcome
read_by_agent (ok response) = ok done
read_by_agent (err e) = err e

reply-handled :
    (j : Json) (b : Bool) → reply j (received (respond j (handled b))) ≡ read_by_agent (handled b)
unfolding respond
reply-handled j true = (reply-to_wire j user_denied done tt).1
reply-handled j false = (reply-to_wire j user_denied done tt).0

reply-respond_ok : (j : Json) (r : Response) → reply j (received (respond j (ok r))) ≡ ok done
unfolding respond
reply-respond_ok j r = (reply-to_wire j user_denied r tt).1

reply-respond_err :
    (j : Json) (e : SubportalError)
    → Wire.InRange j e
    → reply j (received (respond j (err e))) ≡ err e
unfolding respond
reply-respond_err j e i = (reply-to_wire j e done i).0

reply-decision :
    (j : Json) (d : ConfirmDecision)
    → reply j (received (respond j (decision_outcome d))) ≡ read_by_agent (decision_outcome d)
unfolding decision_outcome
reply-decision j approved = reply-respond_ok j done
reply-decision j denied = reply-respond_err j user_denied tt
reply-decision j undecided = reply-respond_err j no_decision tt

reply-respond :
    (j : Json) (app : App) (r : Request) (host : String) (id : Option String)
    → reply j (received (respond j (handle_request app r host id).0))
      ≡ read_by_agent (handle_request app r host id).0
unfolding handle_request decision_outcome
reply-respond j app ping host id = reply-respond_ok j _
reply-respond j app (open_uri uri) host id = reply-handled j (app.opens_uri uri host)
reply-respond j app (open_file name mime content) host id =
    elim (Bool-cases (ltb max_file_size (unwrap_or (app.decoded_len content) 0))) [
      | inl e ↦ rw e (reply-respond_err j (file_too_large max_file_size) (omega arith))
      | inr e ↦ rw e (reply-handled j (app.opens_file name mime content host))
    ]
reply-respond j app (notify title body urgency icon) host id = reply-respond_ok j done
reply-respond j app (confirm message title) host id =
    reply-decision j (app.confirms message title host)
reply-respond j app (notify_dismiss nid) host id = reply-respond_ok j done
reply-respond j app (generate_ticket ttl) host id =
    reply-respond_err j (not_supported "GenerateTicket") tt
reply-respond j app (revoke_client x) host id =
    reply-respond_err j (not_supported "RevokeClient") tt

pub foreign : IsForeign "notification_id"
foreign = (
  refl,
  (refl, (refl, (refl, (refl, (refl, (refl, (refl, (refl, (refl, (refl, (refl, tt))))))))))),
)

-- What the app answers, as the agent's users see it.
abbrev accepted : Bool → Outcome
accepted true = ok done
accepted false = err user_denied

-- Whether a file's content is within the limit, where a text that is no base64 counts as empty.
abbrev fits : App → String → Bool
fits app content = leb (unwrap_or (app.decoded_len content) 0) max_file_size

-- What the agent reads for a request to a device with the app.
abbrev answer : App → Request → String → Outcome
answer app ping host = ok done
answer app (open_uri uri) host = accepted (app.opens_uri uri host)
answer app (open_file name mime content) host =
    if fits app content
    then accepted (app.opens_file name mime content host)
    else err (file_too_large max_file_size)
answer app (notify title body urgency icon) host = ok done
answer app (confirm message title) host = elim (app.confirms message title host) [
  | approved ↦ ok done
  | denied ↦ err user_denied
  | undecided ↦ err no_decision
]
answer app (notify_dismiss nid) host = ok done
answer app (generate_ticket ttl) host = err (not_supported "GenerateTicket")
answer app (revoke_client name_or_id) host = err (not_supported "RevokeClient")

-- What the app is told of a request that the agent sends with `id`.
abbrev told : App → Request → String → String → List Call
told app (open_uri uri) host id = on_open_uri uri host ∷ []
told app (open_file name mime content) host id =
    if fits app content then on_open_file name mime content host ∷ [] else []
told app (notify title body urgency icon) host id = on_notify id title body urgency host ∷ []
told app (confirm message title) host id = on_confirm message title host ∷ []
told app (notify_dismiss nid) host id = on_dismiss_notification nid ∷ []
told app _ host id = []

read_handled : (b : Bool) → read_by_agent (handled b) ≡ accepted b
read_handled true = refl
read_handled false = refl

read_decision :
    (d : ConfirmDecision)
    → read_by_agent (decision_outcome d)
      ≡ (elim d [ approved ↦ ok done | denied ↦ err user_denied | undecided ↦ err no_decision ])
unfolding decision_outcome
read_decision approved = refl
read_decision denied = refl
read_decision undecided = refl

ltb-fits :
    (app : App) (content : String)
    → ltb max_file_size (unwrap_or (app.decoded_len content) 0) ≡ not (fits app content)
ltb-fits app content = ground arith

handle_request_lem :
    (app : App) (r : Request) (host id : String)
    → (read_by_agent (handle_request app r host (some id)).0 ≡ answer app r host)
      × ((handle_request app r host (some id)).1 ≡ told app r host id)
unfolding handle_request
handle_request_lem app ping host id = (refl, refl)
handle_request_lem app (open_uri uri) host id = (read_handled (app.opens_uri uri host), refl)
handle_request_lem app (open_file name mime content) host id =
    elim (Bool-cases (fits app content)) [
      | inl e ↦
          rw (ltb-fits app content, e) (read_handled (app.opens_file name mime content host), refl)
      | inr e ↦ rw (ltb-fits app content, e) (refl, refl)
    ]
handle_request_lem app (notify title body urgency icon) host id = (refl, refl)
handle_request_lem app (confirm message title) host id =
    (read_decision (app.confirms message title host), refl)
handle_request_lem app (notify_dismiss nid) host id = (refl, refl)
handle_request_lem app (generate_ticket ttl) host id = (refl, refl)
handle_request_lem app (revoke_client name_or_id) host id = (refl, refl)

-- A request that the agent sends with a notification id to an Android device makes one call of the app:
-- a URL, a file of at most the limit or a prompt with the name of the host, a notification with the
-- agent's id for it, and a dismissal with the id that it names. A larger file, a ping, and the requests for
-- tickets and revocations make none. The agent reads what the app answers: success or `UserDenied` for a
-- URL and a file, approval, `UserDenied` or `NoDecision` for a prompt, success for notifications,
-- dismissals and pings, `FileTooLarge` with the limit, and `NotSupported` for the rest. The number that
-- the request carries fits a `u64`.
pub handle_request_stream-inject :
    (j : Json) (app : App) (r : Request) (host id : String)
    → InRange r
    → (reply j
          (handle_request_stream app j host
            (inject j "notification_id" (j.string id) (to_value j r))).0
        ≡ answer app r host)
      × ((handle_request_stream app j host
            (inject j "notification_id" (j.string id) (to_value j r))).1
          ≡ told app r host id)
unfolding handle_request_stream stream_request
handle_request_stream-inject j app r host id i =
    rw
      (
        RoundTrip.param_str-inject j "notification_id" id r,
        RoundTrip.from_value-inject j "notification_id" (j.string id) (to_value j r) foreign
            ∙ RoundTrip.from_value-to_value j r i,
      )
      (
        reply-respond j app r host (some id) ∙ (handle_request_lem app r host id).0,
        (handle_request_lem app r host id).1,
      )
