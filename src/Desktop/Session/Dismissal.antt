-- ===== src/Desktop/Session/Dismissal.antt =====
-- A notification from the agent to the desktop and its dismissal.
use mathlib.Core.List.{append_assoc}
use subportal.Prelude.{
  ℕ, String, ◌≡◌, refl, ◌∙◌, sym, ap, Bool, true, false, not, Option, none, some, List, [], ◌∷◌,
  ◌++◌, All, ok, str_eq, eq_refl, ltb, unwrap_or, Bool-cases, inl, inr, arith,
}
use subportal.Prelude.Table
use subportal.Prelude.Table.{Table}
use subportal.Control.{ControlMessage, focus_update, dismiss_notification}
use subportal.Protocol.{
  max_file_size, Request, ping, open_uri, open_file, notify, confirm, notify_dismiss,
  generate_ticket, revoke_client, done, user_denied,
}
use subportal.Protocol.Json.{Json}
use subportal.Protocol.Codec.{to_value, from_value, param_str, inject}
use subportal.Protocol.Codec.RoundTrip
use subportal.Hub.Send.{reply, reply-to_wire}
use subportal.Local.Server.{respond}
use subportal.Android.Answers.{foreign}
use subportal.Desktop.Handler.{Portal, handle, shown, register, register_shown}
use subportal.Desktop.Session.{
  closed_first, read_control_loop, stream_request, handle_request_stream,
}

abbrev dismisses : String → ControlMessage → Bool
dismisses nid (focus_update state) = false
dismisses nid (dismiss_notification id) = str_eq id nid

-- The id that a request carries is another one.
abbrev names : String → Option String → Bool
names nid none = false
names nid (some id) = str_eq id nid

get-shown :
    (nid : String) (o : Option ℕ) (id : Option String) (map : Table ℕ)
    → names nid id ≡ false
    → Table.get nid (shown o id map).1 ≡ Table.get nid map
unfolding shown register register_shown
get-shown nid none id map h = refl
get-shown nid (some dbus_id) none map h = refl
get-shown nid (some dbus_id) (some id) map h = Table.get-insert id nid dbus_id map ∙ rw h refl

-- A request with another id leaves what is shown under this one.
get-handle :
    (portal : Portal) (nid : String) (request : Request) (host id : Option String) (map : Table ℕ)
    → names nid id ≡ false
    → Table.get nid (handle portal request host id map).1 ≡ Table.get nid map
unfolding handle
get-handle portal nid (notify title body urgency icon) host id map h =
    get-shown nid (portal.notifies title body urgency icon host) id map h
get-handle portal nid (open_file name mime content) host id map h =
    elim (Bool-cases (ltb max_file_size (unwrap_or (portal.decoded_len content) 0))) [
      | inl e ↦ rw e refl
      | inr e ↦ rw e refl
    ]
get-handle portal nid ping host id map h = refl
get-handle portal nid (open_uri uri) host id map h = refl
get-handle portal nid (confirm message title) host id map h = refl
get-handle portal nid (notify_dismiss other) host id map h = refl
get-handle portal nid (generate_ticket ttl) host id map h = refl
get-handle portal nid (revoke_client name_or_id) host id map h = refl

get-read_control_loop :
    (nid : String) (msg : ControlMessage) (map : Table ℕ)
    → dismisses nid msg ≡ false
    → Table.get nid (read_control_loop (msg ∷ []) map).1 ≡ Table.get nid map
unfolding read_control_loop
get-read_control_loop nid (focus_update state) map h = refl
get-read_control_loop nid (dismiss_notification id) map h = Table.get-remove id nid map ∙ rw h refl

closes_first :
    (nid : String) (dbus_id : ℕ) (map : Table ℕ)
    → Table.get nid map ≡ some dbus_id
    → (read_control_loop (dismiss_notification nid ∷ []) map).0 ≡ (dbus_id ∷ [])
unfolding read_control_loop closed_first
closes_first nid dbus_id map e = rw e refl

-- What reaches the desktop, from any of its servers: a message of a control stream, or the value of a
-- request stream with the server's host name.
pub data Event (V : Type 0) : Type 0 where
  controlled : (msg : ControlMessage) → Event V
  requested : (host : String) (value : V) → Event V

module _ (j : Json) (portal : Portal) where
  open j use {Value}

  -- The D-Bus notifications that are closed, and the map that the tasks of all servers share: the loop of
  -- a control stream takes one message, or a task handles a request stream.
  unfoldable pub happened : List (Event Value) → Table ℕ → List ℕ × Table ℕ
  happened [] map = ([], map)
  happened (controlled msg ∷ events) map =
      let here = read_control_loop (msg ∷ []) map in
      let later = happened events here.1 in (here.0 ++ later.0, later.1)
  happened (requested host value ∷ events) map =
      happened events (handle_request_stream j portal host value map).1

  -- The event dismisses another notification, or is a request that does not use this id.
  abbrev leaves : String → Event Value → Bool
  leaves nid (controlled msg) = not (dismisses nid msg)
  leaves nid (requested host value) = not (names nid (param_str j "notification_id" value))

  get-stream_request :
      (nid host : String) (id : Option String) (request : Option Request) (map : Table ℕ)
      → names nid id ≡ false
      → Table.get nid (stream_request j portal host id request map).1 ≡ Table.get nid map
  unfolding stream_request
  get-stream_request nid host id none map h = refl
  get-stream_request nid host id (some request) map h =
      get-handle portal nid request (some host) id map h

  -- A notification stays shown while the events leave it.
  get-happened :
      (nid : String) (events : List (Event Value)) (map : Table ℕ)
      → All (λ e. leaves nid e ≡ true) events
      → Table.get nid (happened events map).1 ≡ Table.get nid map
  unfolding happened handle_request_stream
  get-happened nid [] map h = refl
  get-happened nid (controlled msg ∷ events) map h =
      get-happened nid events (read_control_loop (msg ∷ []) map).1 h.1
      ∙ get-read_control_loop nid msg map (ground (arith, h.0))
  get-happened nid (requested host value ∷ events) map h =
      get-happened nid events _ h.1
      ∙ get-stream_request nid host (param_str j "notification_id" value) (from_value j value) map
          (ground (arith, h.0))

  happened-append :
      (before after : List (Event Value)) (map : Table ℕ)
      → (happened (before ++ after) map).0
        ≡ (happened before map).0 ++ (happened after (happened before map).1).0
  unfolding happened
  happened-append [] after map = refl
  happened-append (controlled msg ∷ before) after map =
      ap (λ l. (read_control_loop (msg ∷ []) map).0 ++ l)
        (happened-append before after (read_control_loop (msg ∷ []) map).1)
      ∙ sym (append_assoc (read_control_loop (msg ∷ []) map).0 _ _)
  happened-append (requested host value ∷ before) after map = happened-append before after _

  closes :
      (nid : String) (dbus_id : ℕ) (before after : List (Event Value)) (map : Table ℕ)
      → Table.get nid map ≡ some dbus_id
      → All (λ e. leaves nid e ≡ true) before
      → let behind = (happened before map).1 in
        (happened (before ++ (controlled (dismiss_notification nid) ∷ after)) map).0
        ≡ (happened before map).0
          ++ (dbus_id
              ∷ (happened after (read_control_loop (dismiss_notification nid ∷ []) behind).1).0)
  unfolding happened
  closes nid dbus_id before after map e h =
      let behind = (happened before map).1 in
      let later = (happened after (read_control_loop (dismiss_notification nid ∷ []) behind).1).0 in
      happened-append before (controlled (dismiss_notification nid) ∷ after) map
      ∙ ap (λ l. (happened before map).0 ++ (l ++ later))
          (closes_first nid dbus_id behind (get-happened nid before map h ∙ e))

  -- What the agent sends to show a notification that it knows by `nid`.
  abbrev pub sent : String → String → Option String → Option String → Option String → j.Value
  sent nid title body urgency icon =
      inject j "notification_id" (j.string nid) (to_value j (notify title body urgency icon))

  stream-sent :
      (host nid title : String) (body urgency icon : Option String) (map : Table ℕ)
      → handle_request_stream j portal host (sent nid title body urgency icon) map
        ≡ stream_request j portal host (some nid) (some (notify title body urgency icon)) map
  unfolding handle_request_stream
  stream-sent host nid title body urgency icon map =
      rw
        (
          RoundTrip.param_str-inject j "notification_id" nid (notify title body urgency icon),
          RoundTrip.from_value-inject j "notification_id" (j.string nid)
                (to_value j (notify title body urgency icon)) foreign
              ∙ RoundTrip.from_value-to_value j (notify title body urgency icon) tt,
        )
        refl

  shown_lem :
      (host nid title : String) (body urgency icon : Option String) (dbus_id : ℕ) (map : Table ℕ)
      → portal.notifies title body urgency icon (some host) ≡ some dbus_id
      → (reply j
            (stream_request j portal host (some nid) (some (notify title body urgency icon)) map).0
          ≡ ok done)
        × ((stream_request j portal host (some nid) (some (notify title body urgency icon)) map).1
            ≡ Table.insert nid dbus_id map)
  unfolding stream_request handle shown register register_shown respond
  shown_lem host nid title body urgency icon dbus_id map e =
      rw e ((reply-to_wire j user_denied done tt).1, refl)

  -- A notification that the agent sends with an id, and that the desktop's notification service shows as
  -- some D-Bus notification, is answered with success. The next dismissal of that id that any server
  -- sends closes this D-Bus notification, whatever requests and control messages of any server come
  -- before it, of which none is a request with the same id.
  pub read_control_loop-handle_request_stream :
      (host nid title : String) (body urgency icon : Option String) (dbus_id : ℕ) (map : Table ℕ)
      (before after : List (Event Value))
      → portal.notifies title body urgency icon (some host) ≡ some dbus_id
      → All (λ e. leaves nid e ≡ true) before
      → let there = handle_request_stream j portal host (sent nid title body urgency icon) map in
        let behind = (happened before there.1).1 in
        (reply j there.0 ≡ ok done)
        × ((happened (before ++ (controlled (dismiss_notification nid) ∷ after)) there.1).0
            ≡ (happened before there.1).0
              ++ (dbus_id
                  ∷ (happened after
                      (read_control_loop (dismiss_notification nid ∷ []) behind).1).0))
  read_control_loop-handle_request_stream host nid title body urgency icon dbus_id map before after
        e h =
      let arrives = stream-sent host nid title body urgency icon map in
      let kept = shown_lem host nid title body urgency icon dbus_id map e in
      let value = sent nid title body urgency icon in
      (
        ap (λ r. reply j r.0) arrives ∙ kept.0,
        closes nid dbus_id before after (handle_request_stream j portal host value map).1
            (ap (λ r. Table.get nid r.1) arrives
              ∙ ap (Table.get nid) kept.1
              ∙ Table.get-insert nid nid dbus_id map
              ∙ rw (eq_refl nid) refl)
            h,
      )
