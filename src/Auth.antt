-- ===== src/Auth.antt =====
-- internal/auth/jwt.go: the tokens of a session. A time is a number of seconds, as the claims have it.
-- Signing and verifying are the third-party library's: `sign` makes a token with the secret, and
-- `verify` gives the claims of a token that is well formed, signed with the secret by HMAC and not
-- expired at the time; in their place stand the parameters of the section.
pub mod Session
pub mod Tests
use dnsgolang.Base.{
  ℕ, ◌+◌, ◌-◌, ◌*◌, ◌≡◌, Bool, Option, none, some, List, [], ◌∷◌, if◌then◌else◌, ltb,
}
use dnsgolang.Base.Text.{Text, txt}

pub record Claims : Type 0 where
  pub token_type : Text
  pub user_id : ℕ
  pub username : Text
  pub orig_iat : ℕ
  pub issued_at : ℕ
  pub expires_at : ℕ

pub record Manager : Type 0 where
  pub secret : Text
  pub ttl : ℕ
  pub refresh_ttl : ℕ

abbrev pub new_manager : Text → ℕ → ℕ → Manager
new_manager secret ttl_hours refresh_days = record {
  secret = secret;
  ttl = ttl_hours * 3600;
  refresh_ttl = refresh_days * 24 * 3600;
}

pub data AuthError : Type 0 where
  invalid_token window_over : AuthError

pub data Answer {ℓ} (A : Type ℓ) : Type ℓ where
  granted : A → Answer A
  denied : AuthError → Answer A

-- The claims of a new token for a user, whose session began at a time.
abbrev pub claims_of : Manager → ℕ → ℕ → Text → ℕ → Claims
claims_of m now user_id username orig_iat = record {
  token_type = txt "access";
  user_id = user_id;
  username = username;
  orig_iat = orig_iat;
  issued_at = now;
  expires_at = now + m.ttl;
}

abbrev pub or_invalid : Option Claims → Answer Claims
or_invalid none = denied invalid_token
or_invalid (some claims) = granted claims

module _ {Token : Type 0} (sign : Text → Claims → Token)
    (verify : Text → ℕ → Token → Option Claims) where
  unfoldable pub issue : Manager → ℕ → ℕ → Text → Token
  issue m now user_id username = sign m.secret (claims_of m now user_id username now)

  unfoldable pub parse : Manager → ℕ → Token → Answer Claims
  parse m now token = or_invalid (verify m.secret now token)

  -- Where the token cannot be parsed no claims are there, and the refresh is refused too.
  unfoldable pub refresh : Manager → ℕ → Token → Answer Token
  unfolding parse
  refresh m now token = elim (parse m now token) [
    | denied e ↦ denied invalid_token
    | granted claims ↦
        if ltb m.refresh_ttl (now - claims.orig_iat)
        then denied window_over
        else granted
            (sign m.secret (claims_of m now claims.user_id claims.username claims.orig_iat))
  ]

  -- A session: refreshes at these times, one after the other.
  unfoldable pub refresh_all : Manager → List ℕ → Token → Answer Token
  unfolding refresh
  refresh_all m [] token = granted token
  refresh_all m (now ∷ times) token = elim (refresh m now token) [
    | denied e ↦ denied e
    | granted next ↦ refresh_all m times next
  ]
