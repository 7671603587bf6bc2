-- ===== src/Agent/Requests/Answers.antt =====
-- What a local request is answered by the devices: failover and race.
use mathlib.Core.Option.{some-injective}
use mathlib.Core.Path.{subst}
use subportal.Prelude.{
  ℕ, String, ◌≡◌, refl, ◌≢◌, ◌⊎◌, inl, inr, some, List, [], ◌∷◌, ◌++◌, map, All, ap, ◌∙◌, sym, err,
}
use subportal.Protocol.{Request, no_client}
use subportal.Protocol.Json.{Json}
use subportal.Protocol.Codec.{to_value}
use subportal.Router.{failover, strategy_for, Outcome, failover_decision, Joined}
use subportal.Router.Failover.{Skips, AnsweredBy, failover_decision_lem}
use subportal.Hub.{Hub, Env}
use subportal.Hub.Send.{Exchange, reply, send_to_connection}
use subportal.Agent.Requests.{Served, ranked_connections, by_strategy, handle_unix_request}

abbrev pub connections_of : List (String × ℕ) → List ℕ
connections_of targets = map (λ c. c.1) targets

module _ (j : Json) (exchange : ℕ → j.Value → Exchange j.Value) (value : j.Value) where
  -- None of the targets is reachable.
  abbrev Unreachable : List (String × ℕ) → Type 0
  Unreachable targets = All (λ c. reply j (exchange c.1 value) ≡ err no_client) targets

  -- The answer of the first reachable target, with the connections that were asked: those before it,
  -- and its own.
  pub record FirstReachable (targets : List (String × ℕ)) (o : Outcome) (asked : List ℕ)
      : Type 0 where
    pub skipped : List (String × ℕ)
    pub eid : String
    pub connection : ℕ
    pub untried : List (String × ℕ)
    pub split : targets ≡ skipped ++ ((eid, connection) ∷ untried)
    pub unreachable : Unreachable skipped
    pub reachable : o ≢ err no_client
    pub answer : o ≡ reply j (exchange connection value)
    pub log : asked ≡ connections_of skipped ++ (connection ∷ [])

  append_assoc : (as' bs cs : List ℕ) → (as' ++ bs) ++ cs ≡ as' ++ (bs ++ cs)
  append_assoc [] bs cs = refl
  append_assoc (a ∷ as') bs cs = ap (◌∷◌ a) (append_assoc as' bs cs)

  append_nil : (ns : List ℕ) → ns ≡ ns ++ []
  append_nil [] = refl
  append_nil (n ∷ ns) = ap (◌∷◌ n) (append_nil ns)

  Skips-log :
      (targets : List (String × ℕ)) (s s' : List ℕ)
      → Skips (send_to_connection j exchange value) targets s s'
      → Unreachable targets × (s' ≡ s ++ connections_of targets)
  unfolding send_to_connection
  Skips-log [] s s' h = (tt, sym h ∙ append_nil s)
  Skips-log ((eid, connection) ∷ targets) s s' h =
      let rest = Skips-log targets (s ++ (connection ∷ [])) s' h.1 in
      ((h.0, rest.0), rest.1 ∙ append_assoc s (connection ∷ []) (connections_of targets))

  AnsweredBy-FirstReachable :
      (targets : List (String × ℕ)) (r : Outcome × List ℕ)
      → AnsweredBy (send_to_connection j exchange value) targets [] r
      → FirstReachable targets r.0 r.1
  unfolding send_to_connection
  AnsweredBy-FirstReachable targets r a =
      let skips = Skips-log a.skipped [] a.reached a.skips in
      record {
        skipped = a.skipped;
        eid = a.eid;
        connection = a.target;
        untried = a.untried;
        split = a.split;
        unreachable = skips.0;
        reachable = λ e. a.answers (sym (ap (λ x. x.0) a.final) ∙ e);
        answer = ap (λ x. x.0) a.final;
        log = ap (λ x. x.1) a.final ∙ ap (λ l. l ++ (a.target ∷ [])) skips.1;
      }

module _ (j : Json) (exchange : ℕ → j.Value → Exchange j.Value) where
  -- How a failover is answered: no target is reachable, and all were asked; or the first one that is.
  abbrev pub FailedOver : Request → List (String × ℕ) → Outcome → List ℕ → Type 0
  FailedOver request targets o asked =
      (Unreachable j exchange (to_value j request) targets
        × (o ≡ err no_client)
        × (asked ≡ connections_of targets))
      ⊎ FirstReachable j exchange (to_value j request) targets o asked

  failover_lem :
      (request : Request) (targets : List (String × ℕ))
      → FailedOver request targets
          (failover_decision (send_to_connection j exchange (to_value j request)) targets []).0
          (failover_decision (send_to_connection j exchange (to_value j request)) targets []).1
  failover_lem request targets =
      elim (failover_decision_lem (send_to_connection j exchange (to_value j request)) targets []) [
        | inl (s', skips, e) ↦
            let log = Skips-log j exchange (to_value j request) targets [] s' skips in
            inl (log.0, ap (λ x. x.0) e, ap (λ x. x.1) e ∙ log.1)
        | inr a ↦ inr (AnsweredBy-FirstReachable j exchange (to_value j request) targets _ a)
      ]

  -- A request for one device is answered by the best-ranked capable device that can be reached, be it
  -- with success or with an error, and no device behind that one is asked; if none can be reached, all
  -- were asked and the answer is `NoClient`. The hub stays as it is, and no connection is closed.
  pub handle_unix_request-failover :
      (schedule : List Joined → List Joined) (meanwhile : Hub → Hub) (env : Env) (request : Request)
      (capability : String) (hub : Hub) {s : Served}
      → strategy_for request ≡ failover capability
      → handle_unix_request j exchange schedule meanwhile env request hub ≡ some s
      → FailedOver request (ranked_connections capability hub) s.outcome s.asked
        × (s.hub ≡ hub)
        × (s.closed ≡ [])
  unfolding handle_unix_request by_strategy
  handle_unix_request-failover schedule meanwhile env request capability hub {s} e h =
      subst
        (λ (s : Served).
          FailedOver request (ranked_connections capability hub) s.outcome s.asked
          × (s.hub ≡ hub)
          × (s.closed ≡ []))
        (some-injective _ _
          (sym (ap (λ st. by_strategy j exchange schedule meanwhile env request st hub) e) ∙ h))
        (failover_lem request (ranked_connections capability hub), refl, refl)
