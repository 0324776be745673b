-- ===== src/Auth/Tests.antt =====
-- internal/auth/jwt.go: the theorems on sessions at tokens that show what was signed.
use dnsgolang.Base.{
  ℕ, ◌+◌, ◌<◌, ◌≡◌, refl, Option, none, some, [], ◌∷◌, if◌then◌else◌, ltb, ◌==◌, text_eq, text_beq,
}
use dnsgolang.Base.Text.{Text, txt}
use dnsgolang.Auth.{Claims, Manager, new_manager, claims_of, issue, parse, refresh, refresh_all}
use dnsgolang.Auth.Session.{IsOf, session_bounds}

abbrev Token : Type 0
Token = Text × Claims

abbrev sign : Text → Claims → Token
sign secret claims = (secret, claims)

abbrev verify : Text → ℕ → Token → Option Claims
verify secret now (by, claims) =
    if secret == by then (if ltb now claims.expires_at then some claims else none) else none

verify-sign :
    (secret : Text) (now : ℕ) (claims : Claims)
    → verify secret now (sign secret claims)
      ≡ (if ltb now claims.expires_at then some claims else none)
verify-sign secret now claims = rw ((text_eq.beq_iff secret secret).1 refl) refl

abbrev manager : Manager
manager = new_manager (txt "secret") 1 7

abbrev last : Claims
last = record (claims_of manager 1003000 7 (txt "admin") 1000000) { issued_at = 1003000 }

session_bounds_example :
    IsOf manager 7 (txt "admin") 1000000 last
    × (1004000 < 1000000 + manager.refresh_ttl + manager.ttl)
unfolding refresh_all refresh issue parse text_beq
session_bounds_example =
    session_bounds sign verify verify-sign manager 1000000 7 (txt "admin") (1002000 ∷ 1003000 ∷ [])
      (txt "secret", last) 1004000 last refl refl
