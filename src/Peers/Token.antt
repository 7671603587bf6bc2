-- ===== src/Peers/Token.antt =====
-- `PendingToken`: a one-time enrollment token.
use subportal.Prelude.{ℕ, ◌-◌, ◌^◌, String, Bool, Option, ltb, if◌then◌else◌}
use mathlib.Core.Option

-- `negsuc n` is -(n + 1).
pub data ℤ : Type 0 where
  pos : ℕ → ℤ
  negsuc : ℕ → ℤ

-- `n as i64` for a `u64`
abbrev pub as_i64 : ℕ → ℤ
as_i64 n = if ltb n (2 ^ 63) then pos n else negsuc (2 ^ 64 - n - 1)

-- `struct PendingToken`
pub record PendingToken : Type 0 where
  pub token : String
  pub created_at : ℕ
  pub expires_at : ℕ

-- The default of `generate_default`, DEFAULT_TOKEN_TTL_SECS of consts.rs.
abbrev default_token_ttl_secs : ℕ
default_token_ttl_secs = 600

-- `PendingToken::generate`. `plus_seconds now d` is `now + chrono::Duration::seconds(d)`: `none` is
-- the panic of the crate on a value out of its range. The text of the random bytes is an input.
unfoldable pub generate : (ℕ → ℤ → Option ℕ) → ℕ → String → ℕ → Option PendingToken
generate plus_seconds now token ttl_secs =
    Option.map (λ t. record { token = token; created_at = now; expires_at = t })
      (plus_seconds now (as_i64 ttl_secs))

unfoldable generate_default : (ℕ → ℤ → Option ℕ) → ℕ → String → Option PendingToken
unfolding generate
generate_default plus_seconds now token = generate plus_seconds now token default_token_ttl_secs

-- `Utc::now() > self.expires_at`
unfoldable pub is_expired : ℕ → PendingToken → Bool
is_expired now t = ltb t.expires_at now
