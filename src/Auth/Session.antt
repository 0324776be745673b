-- ===== src/Auth/Session.antt =====
-- internal/auth/jwt.go: who a session belongs to and how long it lasts.
use dnsgolang.Base.{
  ℕ, ◌+◌, ◌-◌, ◌≤◌, ◌<◌, ◌≡◌, refl, sym, ap, ◌∙◌, inl, inr, true, false, Option, none, some, List,
  [], ◌∷◌, if◌then◌else◌, ltb, arith, Bool-cases, subst,
}
use dnsgolang.Base.Text.{Text}
use dnsgolang.Auth.{
  Claims, Manager, invalid_token, window_over, Answer, granted, denied, claims_of, issue, parse,
  refresh, refresh_all,
}

-- The claims are those of the user's session that began at the time, and end soon enough.
abbrev pub IsOf : Manager → ℕ → Text → ℕ → Claims → Type 0
IsOf m user_id username t0 claims =
    (claims.user_id ≡ user_id)
    × (claims.username ≡ username)
    × (claims.orig_iat ≡ t0)
    × (claims.expires_at ≤ t0 + m.refresh_ttl + m.ttl)

module _ {Token : Type 0} (sign : Text → Claims → Token) (verify : Text → ℕ → Token → Option Claims)
    -- What was signed with a secret verifies with it until it expires.
    (verify-sign : (secret : Text) (now : ℕ) (claims : Claims)
      → verify secret now (sign secret claims)
        ≡ (if ltb now claims.expires_at then some claims else none)) where
  parse-sign :
      (m : Manager) (now : ℕ) (claims : Claims)
      → ltb now claims.expires_at ≡ true
      → parse sign verify m now (sign m.secret claims) ≡ granted claims
  unfolding parse
  parse-sign m now claims h = rw (verify-sign m.secret now claims, parse) (rw h refl)

  parse-expired :
      (m : Manager) (now : ℕ) (claims : Claims)
      → ltb now claims.expires_at ≡ false
      → parse sign verify m now (sign m.secret claims) ≡ denied invalid_token
  unfolding parse
  parse-expired m now claims h = rw (verify-sign m.secret now claims, parse) (rw h refl)

  -- A token that is expired is refused by a refresh, however young its session is.
  pub refresh-expired :
      (m : Manager) (now : ℕ) (claims : Claims)
      → claims.expires_at ≤ now
      → refresh sign verify m now (sign m.secret claims) ≡ denied invalid_token
  unfolding refresh
  refresh-expired m now claims h = rw (parse-expired m now claims (ground (arith, h)), refresh) refl

  refresh-fresh :
      (m : Manager) (now : ℕ) (claims : Claims)
      → ltb now claims.expires_at ≡ true
      → refresh sign verify m now (sign m.secret claims) ≡ (
          if ltb m.refresh_ttl (now - claims.orig_iat)
          then denied window_over
          else granted
              (sign m.secret (claims_of m now claims.user_id claims.username claims.orig_iat)))
  unfolding refresh
  refresh-fresh m now claims h = rw (parse-sign m now claims h, refresh) refl

  refreshed :
      (m : Manager) (now t0 user_id : ℕ) (username : Text) (claims : Claims) (next : Token)
      → IsOf m user_id username t0 claims
      → refresh sign verify m now (sign m.secret claims) ≡ granted next
      → (c : Claims) × (next ≡ sign m.secret c) × IsOf m user_id username t0 c
  refreshed m now t0 user_id username claims next (u, n, o, e) h =
      elim (Bool-cases (ltb now claims.expires_at)) [
        | inr out ↦
            let bad : Answer.denied invalid_token ≡ granted next =
              sym (refresh-expired m now claims (ground (arith, out))) ∙ h in
            cc
        | inl fresh ↦ elim (Bool-cases (ltb m.refresh_ttl (now - claims.orig_iat))) [
          | inl late ↦
              let late' : refresh sign verify m now (sign m.secret claims) ≡ denied window_over =
                refresh-fresh m now claims fresh ∙ (rw late refl) in
              let bad : Answer.denied window_over ≡ granted next = sym late' ∙ h in cc
          | inr young ↦
              let young' : refresh sign verify m now (sign m.secret claims)
                  ≡ granted (
                      sign m.secret
                        (claims_of m now claims.user_id claims.username claims.orig_iat)) =
                refresh-fresh m now claims fresh ∙ (rw young refl) in
              let good = sym h ∙ young' in
              (
                claims_of m now claims.user_id claims.username claims.orig_iat,
                granted_inj next _ good,
                (u, n, o, ground (arith, young, o)),
              )
        ]
      ]
    where
      granted_inj : (a b : Token) → Answer.granted a ≡ granted b → a ≡ b
      granted_inj a b e = cc

  all_refreshed :
      (m : Manager) (times : List ℕ) (t0 user_id : ℕ) (username : Text) (claims : Claims)
      (token : Token)
      → IsOf m user_id username t0 claims
      → refresh_all sign verify m times (sign m.secret claims) ≡ granted token
      → (c : Claims) × (token ≡ sign m.secret c) × IsOf m user_id username t0 c
  unfolding refresh_all
  all_refreshed m [] t0 user_id username claims token k h = (claims, same_token token _ (sym h), k)
    where
      same_token : (a b : Token) → Answer.granted a ≡ granted b → a ≡ b
      same_token a b e = cc
  all_refreshed m (now ∷ times) t0 user_id username claims token k h =
      go (refresh sign verify m now (sign m.secret claims)) refl h
        (λ c. all_refreshed m times t0 user_id username c token)
    where
      go :
          (r : Answer Token)
          → refresh sign verify m now (sign m.secret claims) ≡ r
          → elim r [ denied e ↦ denied e | granted next ↦ refresh_all sign verify m times next ]
            ≡ granted token
          → ((c : Claims)
              → IsOf m user_id username t0 c
              → refresh_all sign verify m times (sign m.secret c) ≡ granted token
              → (c : Claims) × (token ≡ sign m.secret c) × IsOf m user_id username t0 c)
          → (c : Claims) × (token ≡ sign m.secret c) × IsOf m user_id username t0 c
      go (denied e) r h again = cc
      go (granted next) r h again =
          let (c, e, k') = refreshed m now t0 user_id username claims next k r in
          again c k' (subst (λ x. refresh_all sign verify m times x ≡ granted token) e h)

  -- A token that parses after a session of refreshes names the user that it was issued to and the time
  -- of that; and it parses only before the window for refreshes and the lifetime of one token
  -- have gone by since then, however often it was refreshed: no session lasts longer.
  pub session_bounds :
      (m : Manager) (t0 user_id : ℕ) (username : Text) (times : List ℕ) (token : Token) (now : ℕ)
      (claims : Claims)
      → refresh_all sign verify m times (issue sign verify m t0 user_id username) ≡ granted token
      → parse sign verify m now token ≡ granted claims
      → IsOf m user_id username t0 claims × (now < t0 + m.refresh_ttl + m.ttl)
  unfolding issue
  session_bounds m t0 user_id username times token now claims h p =
      let first = claims_of m t0 user_id username t0 in
      let (c, e, k) =
        all_refreshed m times t0 user_id username first token (refl, refl, refl, omega arith) h in
      elim (Bool-cases (ltb now c.expires_at)) [
        | inr out ↦
            let bad : Answer.denied invalid_token ≡ granted claims =
              sym (ap (parse sign verify m now) e ∙ parse-expired m now c out) ∙ p in
            cc
        | inl fresh ↦
            let good : granted c ≡ granted claims =
              sym (ap (parse sign verify m now) e ∙ parse-sign m now c fresh) ∙ p in
            let same : c ≡ claims = cc in
            (
              subst (IsOf m user_id username t0) same k,
              let (_, _, _, le) = k in ground (arith, fresh, le),
            )
      ]
