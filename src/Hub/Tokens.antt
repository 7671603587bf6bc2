-- ===== src/Hub/Tokens.antt =====
-- Enrollment tokens: which are accepted, that each is accepted once, and until when.
use subportal.Prelude.{
  ℕ, ◌≤◌, String, ◌≡◌, refl, ◌≢◌, str_eq, eq_iff, Bool, false, not, ◌&&◌, ◌||◌, some, List, [], ◌∷◌,
  ◌++◌, filter, any, if◌then◌else◌, arith, leb, Bool-cases, inl, inr, ◌∙◌,
}
use subportal.Peers.Token
use subportal.Peers.Token.{PendingToken, is_expired, as_i64}
use subportal.Hub.{Hub, consume_token, Env, Answer, generate_ticket_for}

-- The token is pending and has not expired.
abbrev pub is_valid : ℕ → String → List PendingToken → Bool
is_valid now token [] = false
is_valid now token (t ∷ ts) =
    (str_eq t.token token && leb now t.expires_at) || is_valid now token ts

any-live :
    (now : ℕ) (token : String) (ts : List PendingToken)
    → any (λ t. str_eq t.token token) (filter (λ t. not (is_expired now t)) ts)
      ≡ is_valid now token ts
unfolding is_expired
any-live now token [] = refl
any-live now token (t ∷ ts) = ground (arith, any-live now token ts)

is_valid-used :
    (now now' : ℕ) (token : String) (ts : List PendingToken)
    → is_valid now' token
        (filter (λ t. not (str_eq t.token token)) (filter (λ t. not (is_expired now t)) ts))
      ≡ false
unfolding is_expired
is_valid-used now now' token [] = refl
is_valid-used now now' token (t ∷ ts) = ground (arith, is_valid-used now now' token ts)

is_valid-live :
    (now now' : ℕ) (token : String) (ts : List PendingToken)
    → now ≤ now'
    → is_valid now' token (filter (λ t. not (is_expired now t)) ts) ≡ is_valid now' token ts
unfolding is_expired
is_valid-live now now' token [] h = refl
is_valid-live now now' token (t ∷ ts) h = ground (arith, is_valid-live now now' token ts h)

is_valid-unused :
    (now : ℕ) (token other : String) (ts : List PendingToken)
    → other ≢ token
    → is_valid now other (filter (λ t. not (str_eq t.token token)) ts) ≡ is_valid now other ts
is_valid-unused now token other [] h = refl
is_valid-unused now token other (t ∷ ts) h =
    ground (arith, is_valid-unused now token other ts h, eq_iff t.token token, eq_iff t.token other)

is_valid_earlier :
    (now now' : ℕ) (token : String) (ts : List PendingToken)
    → now ≤ now'
    → is_valid now token ts ≡ false
    → is_valid now' token ts ≡ false
is_valid_earlier now now' token [] h e = refl
is_valid_earlier now now' token (t ∷ ts) h e = ground (arith, is_valid_earlier now now' token ts h)

pub consume_token_valid :
    (now : ℕ) (token : String) (hub : Hub)
    → (consume_token now token hub).0 ≡ is_valid now token hub.pending_tokens
unfolding consume_token
consume_token_valid now token hub = any-live now token hub.pending_tokens

-- A token is refused after it has been presented once.
pub consume_token_once :
    (now now' : ℕ) (token : String) (hub : Hub)
    → now ≤ now'
    → (consume_token now' token (consume_token now token hub).1).0 ≡ false
unfolding consume_token
consume_token_once now now' token hub h = elim (Bool-cases (any (λ t. str_eq t.token token) live)) [
  | inl e ↦ rw (e, any-live now' token _) (is_valid-used now now' token ts)
  | inr e ↦
      rw (e, any-live now' token _, is_valid-live now now' token ts h)
        (is_valid_earlier now now' token ts h (rw (any-live now token ts) at e))
]
  where
    ts : List PendingToken
    ts = hub.pending_tokens

    live : List PendingToken
    live = filter (λ t. not (is_expired now t)) ts

-- `consume_token` accepts exactly the pending tokens that have not expired. After it, at any later
-- time, the same token is refused, and each other token is accepted exactly if it is
-- pending and has not expired at that time.
pub consume_token_lem :
    (now now' : ℕ) (token other : String) (hub : Hub)
    → now ≤ now'
    → other ≢ token
    → ((consume_token now token hub).0 ≡ is_valid now token hub.pending_tokens)
      × ((consume_token now' token (consume_token now token hub).1).0 ≡ false)
      × ((consume_token now' other (consume_token now token hub).1).0
          ≡ is_valid now' other hub.pending_tokens)
unfolding consume_token
consume_token_lem now now' token other hub h ne =
    (any-live now token ts, consume_token_once now now' token hub h, kept)
  where
    ts : List PendingToken
    ts = hub.pending_tokens

    live : List PendingToken
    live = filter (λ t. not (is_expired now t)) ts

    kept :
        any
          (λ t. str_eq t.token other)
          (filter
            (λ t. not (is_expired now' t))
            (if any (λ t. str_eq t.token token) live
              then filter (λ t. not (str_eq t.token token)) live
              else live))
        ≡ is_valid now' other ts
    kept = elim (Bool-cases (any (λ t. str_eq t.token token) live)) [
      | inl e ↦
          rw (e, any-live now' other _, is_valid-unused now' token other live ne)
            (is_valid-live now now' other ts h)
      | inr e ↦ rw (e, any-live now' other _) (is_valid-live now now' other ts h)
    ]

is_valid-snoc :
    (now : ℕ) (token : String) (ts : List PendingToken) (t : PendingToken)
    → is_valid now token (ts ++ (t ∷ []))
      ≡ (is_valid now token ts || (str_eq t.token token && leb now t.expires_at))
is_valid-snoc now token [] t = ground arith
is_valid-snoc now token (u ∷ ts) t = ground (arith, is_valid-snoc now token ts t)

pub pending-generate_ticket :
    (env : Env) (ttl expiry : ℕ) (hub : Hub) (a : Answer)
    → generate_ticket_for env ttl hub ≡ some a
    → env.plus_seconds env.now (as_i64 ttl) ≡ some expiry
    → a.1.pending_tokens
      ≡ hub.pending_tokens
        ++ (record { token = env.fresh_token; created_at = env.now; expires_at = expiry } ∷ [])
unfolding generate_ticket_for Token.generate
pending-generate_ticket env ttl expiry hub a e p = ground arith

-- A generated ticket's token is accepted up to the moment that its time to live ends, and not later
-- unless an equal text was pending before. Each other token is accepted exactly if it was before.
pub consume_token-generate_ticket :
    (env : Env) (ttl now' expiry : ℕ) (token : String) (hub : Hub) {a : Answer}
    → generate_ticket_for env ttl hub ≡ some a
    → env.plus_seconds env.now (as_i64 ttl) ≡ some expiry
    → (consume_token now' token a.1).0 ≡ (
        is_valid now' token hub.pending_tokens || (str_eq env.fresh_token token && leb now' expiry))
unfolding consume_token
consume_token-generate_ticket env ttl now' expiry token hub {a} e p =
    any-live now' token a.1.pending_tokens
    ∙ rw (pending-generate_ticket env ttl expiry hub a e p)
        (is_valid-snoc now' token hub.pending_tokens _)
