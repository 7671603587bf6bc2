-- ===== src/Router/Failover.antt =====
-- What `failover_decision` answers, and which targets it contacts.
use subportal.Prelude.{String, ◌≡◌, refl, ◌≢◌, ◌⊎◌, inl, inr, List, [], ◌∷◌, ◌++◌, ok, err, ap}
use subportal.Protocol.{
  user_denied, no_decision, not_supported, file_too_large, no_client, not_found,
}
use subportal.Router.{Outcome, failover_match, failover_decision}

module _ {ℓ} {S : Type ℓ} {T : Type 0} (send : T → S → Outcome × S) where
  -- All targets are contacted, in order, and none is reachable; `send` goes from `s` to `s'`.
  abbrev pub Skips : List (String × T) → S → S → Type ℓ
  Skips [] s s' = s ≡ s'
  Skips ((eid, target) ∷ targets) s s' =
      ((send target s).0 ≡ err no_client) × Skips targets (send target s).1 s'

  -- A target answers, with something else than `NoClient`, and those before it are unreachable. `r`
  -- is its answer, with the state that it leaves: no later target is contacted.
  pub record AnsweredBy (targets : List (String × T)) (s : S) (r : Outcome × S) : Type ℓ where
    pub skipped : List (String × T)
    pub eid : String
    pub target : T
    pub untried : List (String × T)
    pub reached : S
    pub split : targets ≡ skipped ++ ((eid, target) ∷ untried)
    pub skips : Skips skipped s reached
    pub answers : (send target reached).0 ≢ err no_client
    pub final : r ≡ send target reached

  outcome_cases : (o : Outcome) → (o ≡ err no_client) ⊎ (o ≢ err no_client)
  outcome_cases (ok resp) = inr (λ e. cc)
  outcome_cases (err user_denied) = inr (λ e. cc)
  outcome_cases (err no_decision) = inr (λ e. cc)
  outcome_cases (err (not_supported c)) = inr (λ e. cc)
  outcome_cases (err (file_too_large n)) = inr (λ e. cc)
  outcome_cases (err no_client) = inl refl
  outcome_cases (err (not_found w)) = inr (λ e. cc)

  failover_match_final :
      (o : Outcome) (s : S) (rest : Outcome × S)
      → o ≢ err no_client
      → failover_match send o s rest ≡ (o, s)
  unfolding failover_match
  failover_match_final (ok resp) s rest h = refl
  failover_match_final (err user_denied) s rest h = refl
  failover_match_final (err no_decision) s rest h = refl
  failover_match_final (err (not_supported c)) s rest h = refl
  failover_match_final (err (file_too_large n)) s rest h = refl
  failover_match_final (err no_client) s rest h = absurd (h refl)
  failover_match_final (err (not_found w)) s rest h = refl

  failover_match_skip :
      (o : Outcome) (s : S) (rest : Outcome × S)
      → o ≡ err no_client
      → failover_match send o s rest ≡ rest
  unfolding failover_match
  failover_match_skip o s rest e = rw e

  abbrev Described : List (String × T) → S → Outcome × S → Type ℓ
  Described targets s r =
      ((s' : S) × Skips targets s s' × (r ≡ (err no_client, s'))) ⊎ AnsweredBy targets s r

  Described-cons :
      (eid : String) (target : T) (targets : List (String × T)) (s : S) (r : Outcome × S)
      → (send target s).0 ≡ err no_client
      → Described targets (send target s).1 r
      → Described ((eid, target) ∷ targets) s r
  Described-cons eid target targets s r e (inl (s', skips, p)) = inl (s', (e, skips), p)
  Described-cons eid target targets s r e (inr a) = inr (record {
    skipped = (eid, target) ∷ a.skipped;
    eid = a.eid;
    target = a.target;
    untried = a.untried;
    reached = a.reached;
    split = ap (◌∷◌ (eid, target)) a.split;
    skips = (e, a.skips);
    answers = a.answers;
    final = a.final;
  })

  -- For every list of targets, `failover_decision` either contacts all of them, finds none reachable
  -- and answers `NoClient`, or it returns what the first reachable target answers, be it a success or
  -- an error, and contacts none of the targets behind that one.
  pub failover_decision_lem :
      (targets : List (String × T)) (s : S)
      → ((s' : S) × Skips targets s s' × (failover_decision send targets s ≡ (err no_client, s')))
        ⊎ AnsweredBy targets s (failover_decision send targets s)
  unfolding failover_decision
  failover_decision_lem [] s = inl (s, refl, refl)
  failover_decision_lem ((eid, target) ∷ targets) s = elim (outcome_cases (send target s).0) [
    | inl e ↦
        rw
          (failover_match_skip (send target s).0 (send target s).1
            (failover_decision send targets (send target s).1) e)
          (Described-cons eid target targets s _ e
            (failover_decision_lem targets (send target s).1))
    | inr h ↦ inr (record {
      skipped = [];
      eid = eid;
      target = target;
      untried = targets;
      reached = s;
      split = refl;
      skips = refl;
      answers = h;
      final = failover_match_final (send target s).0 (send target s).1 _ h;
    })
  ]
