-- ===== src/Hub/Spent.antt =====
-- A token that has been presented is spent: it is pending no more, whatever sections of the agent's
-- tasks come after.
use mathlib.Core.Path.{subst}
use mathlib.Core.Option.{some-injective}
use subportal.Prelude.{
  ℕ, String, ◌≡◌, refl, Bool, true, false, not, some, List, [], ◌∷◌, ◌++◌, filter, any, ok, err,
  Result, str_eq, arith, Bool-cases, Option-cases, inl, inr,
}
use subportal.Protocol.{Request, notify_dismiss, generate_ticket, revoke_client}
use subportal.Peers.Token
use subportal.Peers.Token.{PendingToken, is_expired, as_i64}
use subportal.Peers.Registry.{RegistryError}
use subportal.Peers.Clients
use subportal.Peers.Clients.{ClientRegistry}
use subportal.Hub.{
  Hub, Env, Answer, consume_token, generate_ticket_for, revoke_removed, revoke, handle_direct,
  add_client, remove_client, update_focus, broadcast_dismiss, next_notification_id,
}
use subportal.Hub.Tokens.{is_valid, pending-generate_ticket}
use subportal.Hub.Invariant.{
  Step, connected, disconnected, focused, dismissed, token_checked, registered, answered, numbered,
  delivered,
}

abbrev pub has_token : String → List PendingToken → Bool
has_token token ts = any (λ t. str_eq t.token token) ts

-- The request is for a new ticket, and its random text is the token's.
abbrev is_for_token : String → Env → Request → Bool
is_for_token token env (generate_ticket ttl) = str_eq env.fresh_token token
is_for_token token env _ = false

-- The step issues a ticket with this token's text.
abbrev pub issues : String → {h h' : Hub} → Step h h' → Bool
issues token (answered env r a p e) = is_for_token token env r
issues token _ = false

-- Locked sections of the agent's tasks, in any order, of which none issues the token anew.
pub data Run (token : String) (h : Hub) : Hub → Type 0 where
  start : Run token h h
  then_step :
      {h' h'' : Hub} → Run token h h' → (s : Step h' h'') → issues token s ≡ false → Run token h h''

has_token-filter :
    (token : String) (q : PendingToken → Bool) (ts : List PendingToken)
    → has_token token ts ≡ false
    → has_token token (filter q ts) ≡ false
has_token-filter token q [] h = refl
has_token-filter token q (t ∷ ts) h = ground (arith, has_token-filter token q ts)

has_token-used :
    (token : String) (ts : List PendingToken)
    → has_token token (filter (λ t. not (str_eq t.token token)) ts) ≡ false
has_token-used token [] = refl
has_token-used token (t ∷ ts) = ground (arith, has_token-used token ts)

has_token-append :
    (token : String) (ts : List PendingToken) (t : PendingToken)
    → has_token token ts ≡ false
    → str_eq t.token token ≡ false
    → has_token token (ts ++ (t ∷ [])) ≡ false
has_token-append token [] t h n = ground arith
has_token-append token (u ∷ ts) t h n = ground (arith, has_token-append token ts t)

-- A token that has been presented is pending no more.
pub has_token-consume_token :
    (now : ℕ) (token : String) (hub : Hub)
    → has_token token (consume_token now token hub).1.pending_tokens ≡ false
unfolding consume_token
has_token-consume_token now token hub =
    let live = filter (λ t. not (is_expired now t)) hub.pending_tokens in
    elim (Bool-cases (has_token token live)) [
      | inl e ↦ rw e (has_token-used token live)
      | inr e ↦ rw e e
    ]

has_token-consume_other :
    (now : ℕ) (token other : String) (hub : Hub)
    → has_token token hub.pending_tokens ≡ false
    → has_token token (consume_token now other hub).1.pending_tokens ≡ false
unfolding consume_token
has_token-consume_other now token other hub h =
    let live = filter (λ t. not (is_expired now t)) hub.pending_tokens in
    let rest = has_token-filter token (λ t. not (is_expired now t)) hub.pending_tokens h in
    elim (Bool-cases (has_token other live)) [
      | inl e ↦ rw e (has_token-filter token (λ t. not (str_eq t.token other)) live rest)
      | inr e ↦ rw e rest
    ]

pending-revoke_removed :
    (x : String) (hub : Hub) (r : Result Bool RegistryError × ClientRegistry)
    → (revoke_removed x hub r).1.pending_tokens ≡ hub.pending_tokens
unfolding revoke_removed
pending-revoke_removed x hub (err e, r) = refl
pending-revoke_removed x hub (ok false, r) = refl
pending-revoke_removed x hub (ok true, r) = refl

has_token-generate_ticket :
    (env : Env) (token : String) (ttl : ℕ) (hub : Hub) (a : Answer)
    → generate_ticket_for env ttl hub ≡ some a
    → str_eq env.fresh_token token ≡ false
    → has_token token hub.pending_tokens ≡ false
    → has_token token a.1.pending_tokens ≡ false
unfolding generate_ticket_for Token.generate
has_token-generate_ticket env token ttl hub a e n h =
    elim (Option-cases (env.plus_seconds env.now (as_i64 ttl))) [
      | inl p ↦ absurd (ground arith)
      | inr (expiry, p) ↦
          rw (pending-generate_ticket env ttl expiry hub a e p)
            (has_token-append token hub.pending_tokens _ h n)
    ]

has_token-handle_direct :
    (env : Env) (token : String) (r : Request) (hub : Hub) {a : Answer}
    → handle_direct env r hub ≡ some a
    → is_for_token token env r ≡ false
    → has_token token hub.pending_tokens ≡ false
    → has_token token a.1.pending_tokens ≡ false
unfolding handle_direct revoke broadcast_dismiss
has_token-handle_direct env token (generate_ticket ttl) hub {a} e n h =
    has_token-generate_ticket env token ttl hub a e n h
has_token-handle_direct env token (revoke_client x) hub e n h =
    subst (λ (a : Answer). has_token token a.1.pending_tokens ≡ false) (some-injective _ _ e)
      (rw (pending-revoke_removed x hub (Clients.remove env.format env.io x hub.registry)) h)
has_token-handle_direct env token (notify_dismiss id) hub e n h =
    subst (λ (a : Answer). has_token token a.1.pending_tokens ≡ false) (some-injective _ _ e) h
has_token-handle_direct env token _ hub e n h =
    subst (λ (a : Answer). has_token token a.1.pending_tokens ≡ false) (some-injective _ _ e) h

has_token-Step :
    (token : String) {h h' : Hub} (s : Step h h')
    → issues token s ≡ false
    → has_token token h.pending_tokens ≡ false
    → has_token token h'.pending_tokens ≡ false
unfolding add_client remove_client update_focus broadcast_dismiss next_notification_id
has_token-Step token (connected c e) n h = rw e h
has_token-Step token (disconnected eid e) n h = rw e h
has_token-Step token (focused now eid st e) n h = rw e h
has_token-Step token (dismissed id ex e) n h = rw e h
has_token-Step token {h} (token_checked now other e) n p =
    rw e (has_token-consume_other now token other h p)
has_token-Step token (registered r e) n h = rw e h
has_token-Step token {h} (answered env r a p e) n q =
    rw e (has_token-handle_direct env token r h p n q)
has_token-Step token (numbered e) n h = rw e h
has_token-Step token (delivered id sent_to e) n h = rw e h

pub has_token-Run :
    (token : String) {h h' : Hub}
    → Run token h h'
    → has_token token h.pending_tokens ≡ false
    → has_token token h'.pending_tokens ≡ false
has_token-Run token start h = h
has_token-Run token (then_step r s n) h = has_token-Step token s n (has_token-Run token r h)

pub is_valid-has_token :
    (now : ℕ) (token : String) (ts : List PendingToken)
    → has_token token ts ≡ false
    → is_valid now token ts ≡ false
is_valid-has_token now token [] h = refl
is_valid-has_token now token (t ∷ ts) h = ground (arith, is_valid-has_token now token ts)
