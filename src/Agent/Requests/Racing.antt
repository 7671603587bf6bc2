-- ===== src/Agent/Requests/Racing.antt =====
-- A request that races the devices.
use mathlib.Core.List.{Perm, Mem, Memᴰ, mem-append_right}
use mathlib.Core.List.Perm
use mathlib.Core.Option.{some-injective}
use mathlib.Core.Path.{subst}
use subportal.Prelude.{
  ℕ, String, ◌≡◌, refl, ◌⊎◌, inl, inr, Bool, true, false, some, List, [], ◌∷◌, ◌++◌, map, All, any,
  ap, ◌∙◌, sym, ok, err, arith, if◌then◌else◌,
}
use subportal.Prelude.Sort.{any-perm}
use subportal.Protocol.{
  Request, no_client, no_decision, user_denied, not_supported, file_too_large, not_found,
}
use subportal.Protocol.Json.{Json}
use subportal.Protocol.Codec.{to_value}
use subportal.Router.{race, strategy_for, Outcome, Joined, finished, join_error, race_decision}
use subportal.Router.Race.{Abstains, IsDecision, was_asked, race_decision_lem}
use subportal.Hub.{Hub, Env}
use subportal.Hub.Send.{Exchange, reply, send_to_connection}
use subportal.Agent.Requests.{
  Served, ranked_connections, race_tasks, by_strategy, handle_unix_request,
}
use subportal.Agent.Requests.Answers.{connections_of}

-- Whether an outcome is a user decision: anything but `NoClient` and `NoDecision`.
abbrev is_decision : Outcome → Bool
is_decision (err no_client) = false
is_decision (err no_decision) = false
is_decision _ = true

abbrev pub decides : Joined → Bool
decides (finished eid o) = is_decision o
decides join_error = false

is_decision_of : (o : Outcome) → IsDecision o → is_decision o ≡ true
is_decision_of (ok resp) h = refl
is_decision_of (err user_denied) h = refl
is_decision_of (err no_decision) h = absurd (h.1 refl)
is_decision_of (err (not_supported c)) h = refl
is_decision_of (err (file_too_large n)) h = refl
is_decision_of (err no_client) h = absurd (h.0 refl)
is_decision_of (err (not_found w)) h = refl

pub none_decides : (set : List Joined) → All Abstains set → any decides set ≡ false
none_decides [] h = refl
none_decides (join_error ∷ set) h = none_decides set h.1
none_decides (finished eid o ∷ set) (inl e, h) = rw (e, none_decides set h) refl
none_decides (finished eid o ∷ set) (inr e, h) = rw (e, none_decides set h) refl

any-append :
    (t : Joined → Bool) (before : List Joined) (x : Joined) (after : List Joined)
    → t x ≡ true
    → any t (before ++ (x ∷ after)) ≡ true
any-append t [] x after h = rw h refl
any-append t (y ∷ before) x after h = ground (arith, any-append t before x after h)

pub mem-middle :
    (before : List Joined) (x : Joined) (after : List Joined) → Mem x (before ++ (x ∷ after))
mem-middle before x after = mem-append_right before ∣ Memᴰ.head refl ∣₁

-- The answer of a race: no task decides and the answer is no decision, or it is one of the tasks'.
abbrev pub RacedTo : List Joined → Outcome → Type 0
RacedTo tasks o =
    (is_decision o ≡ any decides tasks)
    × (((o ≡ err no_client) ⊎ (o ≡ err no_decision))
        ⊎ ((eid : String) × Mem (finished eid o) tasks))

unanswered :
    (asked : Bool) (o : Outcome)
    → o ≡ (if asked then err no_decision else err no_client)
    → (is_decision o ≡ false) × ((o ≡ err no_client) ⊎ (o ≡ err no_decision))
unanswered true o e = (rw e refl, inr e)
unanswered false o e = (rw e refl, inl e)

race_lem : (set tasks : List Joined) → Perm set tasks → RacedTo tasks (race_decision set)
race_lem set tasks p = elim (race_decision_lem set) [
  | inl (a, e) ↦
      let u = unanswered (any was_asked set) (race_decision set) e in
      (u.0 ∙ sym (sym (any-perm decides p) ∙ none_decides set a), inl u.1)
  | inr d ↦ (
    is_decision_of (race_decision set) d.decision
        ∙ sym (
            sym (any-perm decides p)
            ∙ ap (any decides) d.split
            ∙ any-append decides d.abstained (finished d.eid (race_decision set)) d.late
                (is_decision_of (race_decision set) d.decision)),
    inr (
      d.eid,
      (Perm.mem_iff p).0 (
          subst (Mem (finished d.eid (race_decision set))) (sym d.split)
            (mem-middle d.abstained (finished d.eid (race_decision set)) d.late)),
    ),
  )
]

module _ (j : Json) (exchange : ℕ → j.Value → Exchange j.Value) where
  -- The tasks of a race: what each target's device replies to the request.
  abbrev pub replies : Request → List (String × ℕ) → List Joined
  replies request targets =
      map (λ c. finished c.0 (reply j (exchange c.1 (to_value j request)))) targets

  pub race_tasks-replies :
      (request : Request) (targets : List (String × ℕ))
      → race_tasks j exchange (to_value j request) targets ≡ replies request targets
  unfolding race_tasks send_to_connection
  race_tasks-replies request [] = refl
  race_tasks-replies request (c ∷ targets) =
      ap (◌∷◌ (finished c.0 (reply j (exchange c.1 (to_value j request)))))
        (race_tasks-replies request targets)

  -- In whichever order the tasks end: the answer of a race is a user decision exactly if some capable
  -- connected device decides, and then it is the reply of one of them; else it is `NoClient` or
  -- `NoDecision`. A task to ask it is spawned for each of them, and the hub stays as it is.
  pub handle_unix_request-race :
      (schedule : List Joined → List Joined) (meanwhile : Hub → Hub) (env : Env) (request : Request)
      (capability : String) (hub : Hub) {s : Served}
      → ((tasks : List Joined) → Perm (schedule tasks) tasks)
      → strategy_for request ≡ race capability
      → handle_unix_request j exchange schedule meanwhile env request hub ≡ some s
      → RacedTo (replies request (ranked_connections capability hub)) s.outcome
        × (s.asked ≡ connections_of (ranked_connections capability hub))
        × (s.hub ≡ hub)
  unfolding handle_unix_request by_strategy
  handle_unix_request-race schedule meanwhile env request capability hub {s} p e h =
      let targets = ranked_connections capability hub in
      subst
        (λ (s : Served).
          RacedTo (replies request targets) s.outcome
          × (s.asked ≡ connections_of targets)
          × (s.hub ≡ hub))
        (some-injective _ _
          (sym (ap (λ st. by_strategy j exchange schedule meanwhile env request st hub) e) ∙ h))
        (
          race_lem _ _ (
              subst
                (λ tasks.
                  Perm (schedule (race_tasks j exchange (to_value j request) targets)) tasks)
                (race_tasks-replies request targets) (p _)),
          refl,
          refl,
        )
