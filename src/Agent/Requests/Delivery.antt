-- ===== src/Agent/Requests/Delivery.antt =====
-- A notification that goes to every capable device.
use mathlib.Core.Option.{some-injective}
use mathlib.Core.Path.{subst}
use subportal.Prelude.{
  ℕ, String, ◌≡◌, refl, Bool, true, false, Option, some, List, [], ◌∷◌, map, filter, ap, ◌∙◌, ok,
  err, if◌then◌else◌, str_eq, ◌⊎◌, Bool-cases, inl, inr,
}
use subportal.Prelude.Table
use subportal.Protocol.{Request, notify, notify_delivered, no_client}
use subportal.Protocol.Json.{Json}
use subportal.Protocol.Codec.{to_value, from_value, inject, param_str}
use subportal.Protocol.Codec.RoundTrip
use subportal.Protocol.Codec.RoundTrip.{InRange, IsForeign}
use subportal.Router.{ClientInfo, strategy_for, fan_out, Outcome, Joined}
use subportal.Hub.{Hub, Env, client_infos, next_notification_id}
use subportal.Hub.Send.{Exchange, reply, send_to_connection}
use subportal.Agent.Requests.{
  Served, served, connections, deliver, delivered_to, store_notification, fan_out_to, by_strategy,
  handle_unix_request,
}
use subportal.Agent.Requests.Answers.{connections_of}

foreign : IsForeign "notification_id"
foreign = (
  refl,
  (refl, (refl, (refl, (refl, (refl, (refl, (refl, (refl, (refl, (refl, (refl, tt))))))))))),
)

abbrev pub is_ok : Outcome → Bool
is_ok (ok resp) = true
is_ok (err e) = false

module _ (j : Json) (exchange : ℕ → j.Value → Exchange j.Value) where
  -- The endpoint ids of the targets that take the value.
  abbrev takers : j.Value → List (String × ℕ) → List String
  takers value targets = map (λ c. c.0) (filter (λ c. is_ok (reply j (exchange c.1 value))) targets)

  delivered_to-cons :
      (eid : String) (o : Outcome) (rest : List String)
      → delivered_to j exchange eid o rest ≡ (if is_ok o then eid ∷ rest else rest)
  unfolding delivered_to
  delivered_to-cons eid (ok resp) rest = refl
  delivered_to-cons eid (err e) rest = refl

  deliver-takers :
      (value : j.Value) (targets : List (String × ℕ))
      → deliver j exchange value targets ≡ takers value targets
  unfolding deliver send_to_connection
  deliver-takers value [] = refl
  deliver-takers value ((eid, connection) ∷ targets) =
      delivered_to-cons eid (reply j (exchange connection value)) (deliver j exchange value targets)
      ∙ elim (Bool-cases (is_ok (reply j (exchange connection value)))) [
        | inl e ↦ rw e (ap (◌∷◌ eid) (deliver-takers value targets))
        | inr e ↦ rw e (deliver-takers value targets)
      ]

  -- What a fan-out to `infos` leaves.
  pub record FannedOut (meanwhile : Hub → Hub) (request : Request) (infos : List ClientInfo)
      (hub : Hub) (s : Served) : Type 0 where
    pub value : j.Value
    pub sees_request : from_value j value ≡ some request
    pub sees_id : param_str j "notification_id" value ≡ some (next_notification_id hub).0
    pub outcome : s.outcome ≡ ok (notify_delivered (next_notification_id hub).0)
    pub asked : s.asked ≡ connections_of (connections hub.clients infos)
    pub stored :
        (id : String)
        → Table.get id s.hub.pending_notifications ≡ (
            if str_eq (next_notification_id hub).0 id
            then some (takers value (connections hub.clients infos))
            else Table.get id (meanwhile (next_notification_id hub).1).pending_notifications)

  fan_out_to_lem :
      (meanwhile : Hub → Hub) (request : Request) (t : ClientInfo) (ts : List ClientInfo)
      (hub : Hub)
      → InRange request
      → FannedOut meanwhile request
          (t ∷ ts)
          hub
          (fan_out_to j exchange meanwhile request (t ∷ ts) hub)
  unfolding fan_out_to store_notification
  fan_out_to_lem meanwhile request t ts hub r =
      let id = (next_notification_id hub).0 in
      let value = inject j "notification_id" (j.string id) (to_value j request) in
      let conns = connections hub.clients (t ∷ ts) in
      record {
        value = value;
        sees_request =
            RoundTrip.from_value-inject j "notification_id" (j.string id) (to_value j request)
              foreign
            ∙ RoundTrip.from_value-to_value j request r;
        sees_id = RoundTrip.param_str-inject j "notification_id" id request;
        outcome = refl;
        asked = refl;
        stored = λ k.
            Table.get-insert id k (deliver j exchange value conns)
              (meanwhile (next_notification_id hub).1).pending_notifications
            ∙ ap
                (λ v.
                  if str_eq id k
                  then some v
                  else Table.get k (meanwhile (next_notification_id hub).1).pending_notifications)
                (deliver-takers value conns);
      }

  fan_out_cases :
      (meanwhile : Hub → Hub) (request : Request) (infos : List ClientInfo) (hub : Hub)
      → InRange request
      → ((infos ≡ [])
          × (fan_out_to j exchange meanwhile request infos hub ≡ served hub (err no_client, [])))
        ⊎ FannedOut meanwhile request infos hub (fan_out_to j exchange meanwhile request infos hub)
  unfolding fan_out_to
  fan_out_cases meanwhile request [] hub r = inl (refl, refl)
  fan_out_cases meanwhile request (t ∷ ts) hub r = inr (fan_out_to_lem meanwhile request t ts hub r)

  -- A notification with no capable connected device is answered with `NoClient` and leaves the hub as it
  -- is. Else every capable device is asked; it reads the same request and beside it a notification id;
  -- the answer is that id, also where no device takes the notification; and the hub, which the other
  -- tasks change meanwhile, then has under that id the endpoint ids of the devices that took it, and
  -- every other notification as the other tasks left it.
  pub handle_unix_request-fan_out :
      (schedule : List Joined → List Joined) (meanwhile : Hub → Hub) (env : Env) (title : String)
      (body urgency icon : Option String) (hub : Hub) {s : Served}
      → handle_unix_request j exchange schedule meanwhile env (notify title body urgency icon) hub
        ≡ some s
      → ((fan_out (client_infos hub) "Notify" ≡ []) × (s ≡ served hub (err no_client, [])))
        ⊎ FannedOut meanwhile
            (notify title body urgency icon)
            (fan_out (client_infos hub) "Notify")
            hub
            s
  unfolding handle_unix_request by_strategy strategy_for
  handle_unix_request-fan_out schedule meanwhile env title body urgency icon hub {s} h =
      let request = notify title body urgency icon in
      let infos = fan_out (client_infos hub) "Notify" in
      subst
        (λ (s : Served).
          ((infos ≡ []) × (s ≡ served hub (err no_client, [])))
          ⊎ FannedOut meanwhile request infos hub s)
        (some-injective _ _ h) (fan_out_cases meanwhile request infos hub tt)
