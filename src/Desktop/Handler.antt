-- ===== src/Desktop/Handler.antt =====
-- `handle` of crates/subportal-desktop/src/handler.rs, and the map of shown notifications of dismiss.rs.
use subportal.Prelude.{
  ℕ, String, ◌≡◌, refl, Bool, true, false, Option, none, some, List, [], ◌∷◌, ok, err, ltb,
  unwrap_or, if◌then◌else◌, str_eq, eq_refl, ◌∙◌,
}
use subportal.Prelude.Table
use subportal.Prelude.Table.{Table}
use subportal.Protocol.{
  version, max_file_size, Request, ping, open_uri, open_file, notify, confirm, notify_dismiss,
  generate_ticket, revoke_client, pong, done, user_denied, no_decision, not_supported,
  file_too_large,
}
use subportal.Router.{Outcome}
use subportal.Desktop.Decision.{ConfirmDecision, approved, denied, undecided}

-- `const CAPABILITIES`
abbrev pub capabilities : List String
capabilities = "OpenURI" ∷ "OpenFile" ∷ "Notify" ∷ "Confirm" ∷ []

-- What the portal functions end with: whether a call succeeds, the D-Bus id of a notification, and the
-- decision of a confirmation.
pub record Portal : Type 0 where
  pub opens_uri : String → Bool
  pub opens_file : String → String → String → Bool
  pub notifies : String → Option String → Option String → Option String → Option String → Option ℕ
  pub confirms : String → Option String → Option String → Option ConfirmDecision
  pub decoded_len : String → Option ℕ

-- `register`
unfoldable pub register : String → ℕ → Table ℕ → Table ℕ
register agent_id dbus_id map = Table.insert agent_id dbus_id map

-- `dismiss_notification`: the D-Bus notification that is closed, and the map behind it.
unfoldable pub dismiss_notification : String → Table ℕ → Option ℕ × Table ℕ
dismiss_notification agent_id map = (Table.get agent_id map, Table.remove agent_id map)

abbrev pub handled : Bool → Outcome
handled true = ok done
handled false = err user_denied

unfoldable pub decided : Option ConfirmDecision → Outcome
decided none = err no_decision
decided (some approved) = ok done
decided (some denied) = err user_denied
decided (some undecided) = err no_decision

-- `if let Some(nid) = notification_id { register(nid, dbus_id) }`
unfoldable pub register_shown : Option String → ℕ → Table ℕ → Table ℕ
unfolding register
register_shown none dbus_id map = map
register_shown (some nid) dbus_id map = register nid dbus_id map

unfoldable pub shown : Option ℕ → Option String → Table ℕ → Outcome × Table ℕ
unfolding register_shown
shown none id map = (err (not_supported "Notify"), map)
shown (some dbus_id) id map = (ok done, register_shown id dbus_id map)

module _ (portal : Portal) where
  -- The outcome, and the map of shown notifications behind it.
  unfoldable pub handle : Request → Option String → Option String → Table ℕ → Outcome × Table ℕ
  unfolding decided shown
  handle ping host id map = (ok (pong capabilities version [] ""), map)
  handle (open_uri uri) host id map = (handled (portal.opens_uri uri), map)
  handle (open_file name mime content) host id map =
      if ltb max_file_size (unwrap_or (portal.decoded_len content) 0)
      then (err (file_too_large max_file_size), map)
      else (handled (portal.opens_file name mime content), map)
  handle (notify title body urgency icon) host id map =
      shown (portal.notifies title body urgency icon host) id map
  handle (confirm message title) host id map = (decided (portal.confirms message title host), map)
  handle (notify_dismiss nid) host id map = (ok done, map)
  handle (generate_ticket ttl) host id map = (err (not_supported "GenerateTicket"), map)
  handle (revoke_client name_or_id) host id map = (err (not_supported "RevokeClient"), map)

  -- A notification that is shown under an agent's id is closed, once, by a dismissal of that id, which
  -- names its D-Bus notification; a dismissal of another id closes what it would have closed before.
  dismiss_notification-handle :
      (title : String) (body urgency icon host : Option String) (nid other : String) (dbus_id : ℕ)
      (map : Table ℕ)
      → portal.notifies title body urgency icon host ≡ some dbus_id
      → str_eq nid other ≡ false
      → ((dismiss_notification nid
            (handle (notify title body urgency icon) host (some nid) map).1).0
          ≡ some dbus_id)
        × ((dismiss_notification nid
              (dismiss_notification nid
                (handle (notify title body urgency icon) host (some nid) map).1).1).0
            ≡ none)
        × ((dismiss_notification other
              (handle (notify title body urgency icon) host (some nid) map).1).0
            ≡ (dismiss_notification other map).0)
  unfolding dismiss_notification handle register shown register_shown
  dismiss_notification-handle title body urgency icon host nid other dbus_id map e n = (
    rw e (Table.get-insert nid nid dbus_id map ∙ rw (eq_refl nid) refl),
    Table.get-remove nid nid _ ∙ rw (eq_refl nid) refl,
    rw e (Table.get-insert nid other dbus_id map ∙ rw n refl),
  )
