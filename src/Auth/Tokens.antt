-- ===== src/Auth/Tokens.antt =====
-- A login of backend/app/api/auth.py that is granted, and what its token is good for.
use intrusion_detect.Common.{
  ℕ, ◌*◌, ◌≤◌, ◌<◌, ◌≡◌, refl, ap, ◌∙◌, Bool, true, false, Option, none, some, Text, text_eq,
  text_eq_iff, is_empty, if◌then◌else◌, arith, Option-cases, inl, inr, ◌&&◌,
}
use intrusion_detect.Auth.{
  Claims, Jwt, token_issuer, token_audience, whole_seconds, create_access_token,
  verify_access_token, Settings, LoginRequest, TokenResponse, LoginOutcome, unauthorized, raised,
  granted, verify_password, client_key, account_key, compare_digest, check_keys, grant,
  authenticate, login_checked, subject_of, invalid, login_checked, login, admin, check_token,
  get_current_admin,
}
use intrusion_detect.Auth.Limiter.{LoginRateLimiter, succeeded}

-- What PyJWT documents: a token is decoded with the key that it was encoded with, if the issuer and
-- the audience are the expected ones, from the time of issue until it expires; and no token is
-- empty.
pub record IsSound (jwt : Jwt) : Type 0 where
  pub decode-encode :
      (claims : Claims) (key : Text) (now : ℕ)
      → claims.issuer ≡ token_issuer
      → claims.audience ≡ token_audience
      → claims.issued_at * 1000000 ≤ now
      → now < claims.expires_at * 1000000
      → jwt.decode (jwt.encode claims key) key now ≡ some claims
  pub encode-ne-empty : (claims : Claims) (key : Text) → is_empty (jwt.encode claims key) ≡ false

-- What a granted login was: the throttle let both keys pass, the name and the password are the
-- administrator's, and both keys are forgotten.
pub record Granted (s : Settings) (jwt : Jwt) (verify : Text → Text → Option Bool) (fold : ℕ → Text)
    (body : LoginRequest) (host : Option Text) (now jti : ℕ) (l l' : LoginRateLimiter)
    (response : TokenResponse) : Type 0 where
  pub let_in : (check_keys (client_key host) (account_key fold body.username) now l).1 ≡ none
  pub name : body.username ≡ s.admin_username
  pub password : verify body.password s.admin_password_hash ≡ some true
  pub forgotten :
      l'
      ≡ succeeded (account_key fold body.username) (
          succeeded
            (client_key host)
            (check_keys (client_key host) (account_key fold body.username) now l).0)
  pub answer : response ≡ grant s jwt body.username now jti

-- The two tests of a login, read from its outcome.
abbrev outcome_of :
    Option Bool
    → Bool
    → LoginRateLimiter
    → LoginRateLimiter
    → LoginRateLimiter
    → TokenResponse
    → LoginRateLimiter × LoginOutcome
outcome_of o p l cleared counted r = elim o [
  | none ↦ (l, raised)
  | some m ↦ if m && p then (cleared, granted r) else (counted, unauthorized)
]

outcome_of-granted :
    (o : Option Bool) (p : Bool) (l cleared counted l' : LoginRateLimiter)
    (r response : TokenResponse)
    → outcome_of o p l cleared counted r ≡ (l', granted response)
    → (o ≡ some true) × (p ≡ true) × (l' ≡ cleared) × (response ≡ r)
outcome_of-granted none p l cleared counted l' r response e = absurd cc
outcome_of-granted (some true) true l cleared counted l' r response e = (refl, refl, cc, cc)
outcome_of-granted (some true) false l cleared counted l' r response e = absurd cc
outcome_of-granted (some false) p l cleared counted l' r response e = absurd cc

compare_digest-equal : (a b : Text) → compare_digest a b ≡ some true → a ≡ b
unfolding compare_digest
compare_digest-equal a b e = ground (arith, text_eq_iff a b)

verify_password-true :
    (verify : Text → Text → Option Bool) (password stored_hash : Text)
    → verify_password verify password stored_hash ≡ true
    → verify password stored_hash ≡ some true
unfolding verify_password
verify_password-true verify password stored_hash e =
    elim (Option-cases (verify password stored_hash)) [
      | inl none_e ↦ absurd (ground arith)
      | inr (b, some_e) ↦ ground arith
    ]

authenticate-granted :
    (s : Settings) (jwt : Jwt) (verify : Text → Text → Option Bool) (body : LoginRequest)
    (client account : Text) (now jti : ℕ) (l l' : LoginRateLimiter) (response : TokenResponse)
    → authenticate s jwt verify body client account now jti l ≡ (l', granted response)
    → (compare_digest body.username s.admin_username ≡ some true)
      × (verify_password verify body.password s.admin_password_hash ≡ true)
      × (l' ≡ succeeded account (succeeded client l))
      × (response ≡ grant s jwt body.username now jti)
unfolding authenticate
authenticate-granted s jwt verify body client account now jti l l' response e =
    outcome_of-granted _ _ _ _ _ _ _ _ e

login_checked-granted :
    (s : Settings) (jwt : Jwt) (verify : Text → Text → Option Bool) (body : LoginRequest)
    (client account : Text) (now jti : ℕ) (checked : LoginRateLimiter × Option ℕ)
    (l' : LoginRateLimiter) (response : TokenResponse)
    → login_checked s jwt verify body client account now jti checked ≡ (l', granted response)
    → (checked.1 ≡ none)
      × (authenticate s jwt verify body client account now jti checked.0 ≡ (l', granted response))
unfolding login_checked
login_checked-granted s jwt verify body client account now jti (l, none) l' response e = (refl, e)
login_checked-granted s jwt verify body client account now jti (l, some w) l' response e = absurd cc

login-granted :
    (s : Settings) (jwt : Jwt) (verify : Text → Text → Option Bool) (fold : ℕ → Text)
    (body : LoginRequest) (host : Option Text) (now jti : ℕ) (l l' : LoginRateLimiter)
    (response : TokenResponse)
    → login s jwt verify fold body host now jti l ≡ (l', granted response)
    → Granted s jwt verify fold body host now jti l l' response
unfolding login
login-granted s jwt verify fold body host now jti l l' response e =
    let client = client_key host in
    let account = account_key fold body.username in
    let reached =
      login_checked-granted s jwt verify body client account now jti
        (check_keys client account now l) l' response e in
    let passed =
      authenticate-granted s jwt verify body client account now jti
        (check_keys client account now l).0 l' response reached.1 in
    record {
      let_in = reached.0;
      name = compare_digest-equal body.username s.admin_username passed.0;
      password = verify_password-true verify body.password s.admin_password_hash passed.1;
      forgotten = passed.2;
      answer = passed.3;
    }

grant-decoded :
    (s : Settings) (jwt : Jwt) (sound : IsSound jwt) (username : Text) (now jti later : ℕ)
    → whole_seconds now * 1000000 ≤ later
    → later < whole_seconds (grant s jwt username now jti).expires_at * 1000000
    → (verify_access_token jwt (grant s jwt username now jti).access_token s.secret_key later
        ≡ (if is_empty username then none else some username))
      × (is_empty (grant s jwt username now jti).access_token ≡ false)
unfolding verify_access_token subject_of grant create_access_token
grant-decoded s jwt sound username now jti later h k = (
  ap subject_of (sound.decode-encode _ s.secret_key later refl refl h k),
  sound.encode-ne-empty _ _,
)

checked_by :
    (s : Settings) (o : Option Text)
    → o ≡ some s.admin_username
    → (elim o [
      | none ↦ invalid
      | some username ↦ if text_eq username s.admin_username then admin username else invalid
    ])
      ≡ admin s.admin_username
checked_by s none e = absurd cc
checked_by s (some username) e = ground (arith, text_eq_iff username s.admin_username)

check_token-verified :
    (s : Settings) (jwt : Jwt) (token : Text) (later : ℕ)
    → verify_access_token jwt token s.secret_key later ≡ some s.admin_username
    → check_token s jwt token later ≡ admin s.admin_username
unfolding check_token
check_token-verified s jwt token later e =
    checked_by s (verify_access_token jwt token s.secret_key later) e

get_current_admin-verified :
    (s : Settings) (jwt : Jwt) (token : Text) (later : ℕ)
    → s.auth_enabled ≡ true
    → is_empty token ≡ false
    → verify_access_token jwt token s.secret_key later ≡ some s.admin_username
    → get_current_admin s jwt (some token) later ≡ admin s.admin_username
unfolding get_current_admin
get_current_admin-verified s jwt token later on filled e =
    let checked = check_token-verified s jwt token later e in simp (on, filled, checked)

-- With authentication on, a sound PyJWT and an administrator's name that is not empty, the token of
-- any answer to a login admits the administrator, in the second of the login and until the whole
-- second in which it expires.
pub granted-admitted :
    (s : Settings) (jwt : Jwt) (sound : IsSound jwt) (verify : Text → Text → Option Bool)
    (fold : ℕ → Text) (body : LoginRequest) (host : Option Text) (now jti later : ℕ)
    (l l' : LoginRateLimiter) (response : TokenResponse)
    → s.auth_enabled ≡ true
    → is_empty s.admin_username ≡ false
    → login s jwt verify fold body host now jti l ≡ (l', granted response)
    → whole_seconds now * 1000000 ≤ later
    → later < whole_seconds response.expires_at * 1000000
    → get_current_admin s jwt (some response.access_token) later ≡ admin s.admin_username
granted-admitted s jwt sound verify fold body host now jti later l l' response on named e h k =
    let g = login-granted s jwt verify fold body host now jti l l' response e in
    let same = g.answer ∙ ap (λ u. grant s jwt u now jti) g.name in
    let k' = rw same at k in
    let decoded = grant-decoded s jwt sound s.admin_username now jti later h k' in
    let verified = rw named at decoded.0 in
    rw same (get_current_admin-verified s jwt _ later on decoded.1 verified)
