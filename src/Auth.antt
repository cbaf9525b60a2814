-- ===== src/Auth.antt =====
-- backend/app/api/auth.py: the login, its throttle, access tokens and the administrator check.
--
-- Argon2, PyJWT and Unicode case folding are parameters: `verify` is `PASSWORD_HASH.verify`, and gives
-- no result where it raises `TypeError` or `ValueError`. A login is one step: no other one comes
-- between its check of the throttle and its end.
pub mod Limiter
pub mod Tokens
use intrusion_detect.Common.{
  ℕ, ◌+◌, ◌*◌, ◌/◌, Bool, true, false, not, ◌&&◌, ◌||◌, Option, none, some, List, [], ◌∷◌, ◌++◌,
  Text, codes, text_eq, is_empty, leb, if◌then◌else◌, max,
}
use intrusion_detect.Ingestion.Lease.{seconds}
use intrusion_detect.Worker.Failure.{casefold}
use Limiter.{LoginRateLimiter, retry_after, failed, succeeded}

-- The claims of a token; `iat` and `exp` are encoded in whole seconds.
pub record Claims : Type 0 where
  pub subject : Text
  pub issuer : Text
  pub audience : Text
  pub issued_at : ℕ
  pub expires_at : ℕ
  pub jti : ℕ

-- `jwt.encode` and `jwt.decode` with the options of the code; `decode` knows the time.
pub record Jwt : Type 0 where
  pub encode : Claims → Text → Text
  pub decode : Text → Text → ℕ → Option Claims

abbrev pub token_issuer : Text
token_issuer = codes "iot-intrusion-detection"

abbrev pub token_audience : Text
token_audience = codes "iot-ids-api"

abbrev pub whole_seconds : ℕ → ℕ
whole_seconds t = t / 1000000

unfoldable pub create_access_token : Jwt → Text → Text → ℕ → ℕ → ℕ → Text × ℕ
create_access_token jwt username secret_key expires_in now jti =
    let expires_at = now + seconds expires_in in
    (
      jwt.encode
          (record {
            subject = username;
            issuer = token_issuer;
            audience = token_audience;
            issued_at = whole_seconds now;
            expires_at = whole_seconds expires_at;
            jti = jti;
          })
          secret_key,
      expires_at,
    )

unfoldable subject_of : Option Claims → Option Text
subject_of none = none
subject_of (some claims) = if is_empty claims.subject then none else some claims.subject

unfoldable pub verify_access_token : Jwt → Text → Text → ℕ → Option Text
unfolding subject_of
verify_access_token jwt token secret_key now = subject_of (jwt.decode token secret_key now)

pub record Settings : Type 0 where
  pub auth_enabled : Bool
  pub admin_username : Text
  pub admin_password_hash : Text
  pub secret_key : Text
  pub access_token_minutes : ℕ

pub record LoginRequest : Type 0 where
  pub username : Text
  pub password : Text

pub record TokenResponse : Type 0 where
  pub access_token : Text
  pub expires_in : ℕ
  pub expires_at : ℕ

pub data LoginOutcome : Type 0 where
  too_many : (retry_after_seconds : ℕ) → LoginOutcome
  unauthorized : LoginOutcome
  -- `secrets.compare_digest` raises `TypeError` for texts that are not ASCII
  raised : LoginOutcome
  granted : TokenResponse → LoginOutcome

unfoldable pub verify_password : (Text → Text → Option Bool) → Text → Text → Bool
verify_password verify password stored_hash = elim (verify password stored_hash) [
  | none ↦ false
  | some matches ↦ matches
]

abbrev host_or : Option Text → Text
host_or none = codes "unknown"
host_or (some host) = host

unfoldable pub client_key : Option Text → Text
client_key host = codes "client:" ++ host_or host

unfoldable pub account_key : (ℕ → Text) → Text → Text
unfolding casefold
account_key fold username = codes "account:" ++ casefold fold username

abbrev is_ascii : Text → Bool
is_ascii [] = true
is_ascii (c ∷ t) = leb c 127 && is_ascii t

unfoldable pub compare_digest : Text → Text → Option Bool
compare_digest a b = if is_ascii a && is_ascii b then some (text_eq a b) else none

-- `max` of the values that are there.
abbrev worst : Option ℕ → Option ℕ → Option ℕ
worst none b = b
worst (some a) none = some a
worst (some a) (some b) = some (max a b)

-- `retry_after` for both keys, in order.
unfoldable pub check_keys : Text → Text → ℕ → LoginRateLimiter → LoginRateLimiter × Option ℕ
unfolding retry_after
check_keys client account now l =
    let first = retry_after client now l in
    let second = retry_after account now first.0 in (second.0, worst first.1 second.1)

unfoldable pub grant : Settings → Jwt → Text → ℕ → ℕ → TokenResponse
unfolding create_access_token
grant s jwt username now jti =
    let expires_in = s.access_token_minutes * 60 in
    let token = create_access_token jwt username s.secret_key expires_in now jti in
    record { access_token = token.0; expires_in = expires_in; expires_at = token.1 }

unfoldable pub authenticate :
    Settings
    → Jwt
    → (Text → Text → Option Bool)
    → LoginRequest
    → Text
    → Text
    → ℕ
    → ℕ
    → LoginRateLimiter
    → LoginRateLimiter × LoginOutcome
unfolding compare_digest verify_password grant
authenticate s jwt verify body client account now jti l =
    elim (compare_digest body.username s.admin_username) [
      | none ↦ (l, raised)
      | some username_matches ↦
          if username_matches && verify_password verify body.password s.admin_password_hash
          then (succeeded account (succeeded client l), granted (grant s jwt body.username now jti))
          else (failed account now (failed client now l), unauthorized)
    ]

unfoldable login_checked :
    Settings
    → Jwt
    → (Text → Text → Option Bool)
    → LoginRequest
    → Text
    → Text
    → ℕ
    → ℕ
    → LoginRateLimiter × Option ℕ
    → LoginRateLimiter × LoginOutcome
unfolding authenticate
login_checked s jwt verify body client account now jti (l, some seconds_left) =
    (l, too_many seconds_left)
login_checked s jwt verify body client account now jti (l, none) =
    authenticate s jwt verify body client account now jti l

unfoldable pub login :
    Settings
    → Jwt
    → (Text → Text → Option Bool)
    → (ℕ → Text)
    → LoginRequest
    → Option Text
    → ℕ
    → ℕ
    → LoginRateLimiter
    → LoginRateLimiter × LoginOutcome
unfolding login_checked check_keys client_key account_key
login s jwt verify fold body host now jti l =
    let client = client_key host in
    let account = account_key fold body.username in
    login_checked s jwt verify body client account now jti (check_keys client account now l)

pub data Admin : Type 0 where
  admin : Text → Admin
  required invalid : Admin

unfoldable pub check_token : Settings → Jwt → Text → ℕ → Admin
unfolding verify_access_token
check_token s jwt token now = elim (verify_access_token jwt token s.secret_key now) [
  | none ↦ invalid
  | some username ↦ if text_eq username s.admin_username then admin username else invalid
]

-- `credentials` is the bearer token, if there is one; both refusals are a 401.
unfoldable pub get_current_admin : Settings → Jwt → Option Text → ℕ → Admin
unfolding check_token
get_current_admin s jwt credentials now =
    if not s.auth_enabled then admin s.admin_username else elim credentials [
      | none ↦ required
      | some token ↦ if is_empty token then required else check_token s jwt token now
    ]
