-- ===== src/Router/Race.antt =====
-- What `race_decision` answers: the first user decision, in the order in which the devices end.
use subportal.Prelude.{
  String, ◌≡◌, refl, ◌≢◌, ◌⊎◌, inl, inr, Bool, true, false, ◌||◌, List, [], ◌∷◌, ◌++◌, arith, ok,
  err, ap, All, any, if◌then◌else◌,
}
use subportal.Protocol.{
  user_denied, no_decision, not_supported, file_too_large, no_client, not_found,
}
use subportal.Router.{Outcome, Joined, finished, join_error, race_loop, race_decision}

-- A device that gives no user decision: its task failed, it is unreachable, or its prompt ended
-- unanswered.
abbrev pub Abstains : Joined → Type 0
Abstains join_error = Unit
Abstains (finished eid o) = (o ≡ err no_client) ⊎ (o ≡ err no_decision)

-- An answer that is a user decision.
abbrev pub IsDecision : Outcome → Type 0
IsDecision o = (o ≢ err no_client) × (o ≢ err no_decision)

-- The device replied that nobody decided.
abbrev pub was_asked : Joined → Bool
was_asked (finished eid (err no_decision)) = true
was_asked _ = false

-- The first decision of a race, with the devices that abstained before it and those behind it.
pub record DecidedBy (set : List Joined) (o : Outcome) : Type 0 where
  pub abstained : List Joined
  pub eid : String
  pub late : List Joined
  pub split : set ≡ abstained ++ (finished eid o ∷ late)
  pub abstain : All Abstains abstained
  pub decision : IsDecision o

abbrev Described : Bool → List Joined → Outcome → Type 0
Described asked set o =
    (All Abstains set
      × (o ≡ (if asked || any was_asked set then err no_decision else err no_client)))
    ⊎ DecidedBy set o

Described-cons :
    (asked : Bool) (x : Joined) (set : List Joined) (o : Outcome)
    → Abstains x
    → Described (asked || was_asked x) set o
    → Described asked (x ∷ set) o
Described-cons asked x set o h (inl (a, e)) = inl ((h, a), ground arith)
Described-cons asked x set o h (inr d) = inr (record {
  abstained = x ∷ d.abstained;
  eid = d.eid;
  late = d.late;
  split = ap (◌∷◌ x) d.split;
  abstain = (h, d.abstain);
  decision = d.decision;
})

decided_first :
    (eid : String) (o : Outcome) (set : List Joined)
    → IsDecision o
    → DecidedBy (finished eid o ∷ set) o
decided_first eid o set h = record {
  abstained = [];
  eid = eid;
  late = set;
  split = refl;
  abstain = tt;
  decision = h;
}

or-false : (b : Bool) → (b || false) ≡ b
or-false b = ground arith

or-true : (b : Bool) → (b || true) ≡ true
or-true b = ground arith

race_loop_lem : (asked : Bool) (set : List Joined) → Described asked set (race_loop asked set)
unfolding race_loop
race_loop_lem asked [] = inl (tt, ground arith)
race_loop_lem asked (finished eid (ok resp) ∷ set) =
    inr (decided_first eid (ok resp) set ((λ e. cc), (λ e. cc)))
race_loop_lem asked (finished eid (err no_client) ∷ set) =
    Described-cons asked _ set _ (inl refl) (rw (or-false asked) (race_loop_lem asked set))
race_loop_lem asked (finished eid (err no_decision) ∷ set) =
    Described-cons asked _ set _ (inr refl) (rw (or-true asked) (race_loop_lem true set))
race_loop_lem asked (finished eid (err user_denied) ∷ set) =
    inr (decided_first eid (err user_denied) set ((λ e. cc), (λ e. cc)))
race_loop_lem asked (finished eid (err (not_supported c)) ∷ set) =
    inr (decided_first eid (err (not_supported c)) set ((λ e. cc), (λ e. cc)))
race_loop_lem asked (finished eid (err (file_too_large n)) ∷ set) =
    inr (decided_first eid (err (file_too_large n)) set ((λ e. cc), (λ e. cc)))
race_loop_lem asked (finished eid (err (not_found w)) ∷ set) =
    inr (decided_first eid (err (not_found w)) set ((λ e. cc), (λ e. cc)))
race_loop_lem asked (join_error ∷ set) =
    Described-cons asked _ set _ tt (rw (or-false asked) (race_loop_lem asked set))

-- For every order in which the devices end, `race_decision` returns the first user decision, before
-- which all devices abstained; or all devices abstain, and it answers `NoDecision` if some device
-- showed its prompt, and `NoClient` if none did.
pub race_decision_lem :
    (set : List Joined)
    → (All Abstains set
        × (race_decision set ≡ (if any was_asked set then err no_decision else err no_client)))
      ⊎ DecidedBy set (race_decision set)
unfolding race_decision
race_decision_lem set = race_loop_lem false set

race_loop_decided :
    (asked asked' : Bool) (set : List Joined)
    → IsDecision (race_loop asked set)
    → race_loop asked' set ≡ race_loop asked set
unfolding race_loop
race_loop_decided asked asked' [] h = ground arith
race_loop_decided asked asked' (finished eid (ok resp) ∷ set) h = refl
race_loop_decided asked asked' (finished eid (err no_client) ∷ set) h =
    race_loop_decided asked asked' set h
race_loop_decided asked asked' (finished eid (err no_decision) ∷ set) h = refl
race_loop_decided asked asked' (finished eid (err user_denied) ∷ set) h = refl
race_loop_decided asked asked' (finished eid (err (not_supported c)) ∷ set) h = refl
race_loop_decided asked asked' (finished eid (err (file_too_large n)) ∷ set) h = refl
race_loop_decided asked asked' (finished eid (err (not_found w)) ∷ set) h = refl
race_loop_decided asked asked' (join_error ∷ set) h = race_loop_decided asked asked' set h

race_loop_abstain :
    (asked : Bool) (before after : List Joined) (x : Joined)
    → Abstains x
    → IsDecision (race_loop asked (before ++ after))
    → race_loop asked (before ++ (x ∷ after)) ≡ race_loop asked (before ++ after)
unfolding race_loop
race_loop_abstain asked [] after join_error a d = refl
race_loop_abstain asked [] after (finished eid o) (inl e) d = rw e
race_loop_abstain asked [] after (finished eid o) (inr e) d =
    rw e (race_loop_decided asked true after d)
race_loop_abstain asked (finished eid (ok resp) ∷ before) after x a d = refl
race_loop_abstain asked (finished eid (err no_client) ∷ before) after x a d =
    race_loop_abstain asked before after x a d
race_loop_abstain asked (finished eid (err no_decision) ∷ before) after x a d =
    race_loop_abstain true before after x a d
race_loop_abstain asked (finished eid (err user_denied) ∷ before) after x a d = refl
race_loop_abstain asked (finished eid (err (not_supported c)) ∷ before) after x a d = refl
race_loop_abstain asked (finished eid (err (file_too_large n)) ∷ before) after x a d = refl
race_loop_abstain asked (finished eid (err (not_found w)) ∷ before) after x a d = refl
race_loop_abstain asked (join_error ∷ before) after x a d =
    race_loop_abstain asked before after x a d

-- A device that abstains does not change the decision of the others, wherever its end falls among
-- theirs.
race_decision_abstain :
    (before after : List Joined) (x : Joined)
    → Abstains x
    → IsDecision (race_decision (before ++ after))
    → race_decision (before ++ (x ∷ after)) ≡ race_decision (before ++ after)
unfolding race_decision
race_decision_abstain before after x a d = race_loop_abstain false before after x a d
