-- ===== src/Tests/Access.antt =====
-- The theorems of the login and of its throttle at concrete inputs.
use intrusion_detect.Common.{
  ℕ, ◌+◌, ◌*◌, ◌<◌, ◌≤◌, ◌≡◌, refl, Bool, true, false, ◌&&◌, Option, none, some, List, [], ◌∷◌,
  Text, codes, text_eq, ltb, leb, ◌==◌, if◌then◌else◌, arith, is_some, count_if,
}
use intrusion_detect.Auth.{
  Claims, Jwt, token_issuer, token_audience, Settings, LoginRequest, TokenResponse, LoginOutcome,
  granted, login, get_current_admin, admin,
}
use intrusion_detect.Auth.Limiter.{LoginRateLimiter, retry_after, put_last, succeeded}
use intrusion_detect.Auth.Limiter.Windows.{is_recent}
use intrusion_detect.Auth.Limiter.History.{
  Event, fails, checks, succeeds, handle, handle_all, HaveRoom, recorded, retry_after-refines,
}
use intrusion_detect.Auth.Tokens.{IsSound, granted-admitted}

abbrev limiter : LoginRateLimiter
limiter = record { maximum = 2; window_seconds = 300; max_keys = 3; failures = [] }

abbrev alice : Text
alice = codes "account:alice"

abbrev bob : Text
bob = codes "account:bob"

abbrev history : List Event
history =
    fails alice 10
    ∷ fails bob 20
    ∷ checks alice 30
    ∷ succeeds bob
    ∷ fails bob 40
    ∷ fails alice 50
    ∷ []

history-HaveRoom : HaveRoom history limiter
unfolding handle put_last
history-HaveRoom = omega arith

retry_after-refines_example :
    is_some (retry_after alice 60 (handle_all history limiter)).1
    ≡ leb 2 (count_if (is_recent 300 60) (recorded alice [] history))
retry_after-refines_example =
    retry_after-refines 2 300 3 60 alice history (omega arith) (omega arith) history-HaveRoom
      (omega arith)

-- The other key has one failure since its success, and is let in.
bob_passes : is_some (retry_after bob 60 (handle_all history limiter)).1 ≡ false
unfolding retry_after handle_all
bob_passes = refl

alice_waits : (retry_after alice 60 (handle_all history limiter)).1 ≡ some 300
unfolding retry_after handle_all
alice_waits = refl

abbrev digest : Text → ℕ
digest [] = 0
digest (c ∷ t) = c + 31 * digest t

-- A token that carries a digest of its key.
abbrev claims_in : Text → ℕ → ℕ → Option Claims
claims_in (d ∷ issued ∷ expires ∷ jti ∷ subject) key_digest now =
    if (d == key_digest && leb (issued * 1000000) now) && ltb now (expires * 1000000)
    then some (record {
      subject = subject;
      issuer = token_issuer;
      audience = token_audience;
      issued_at = issued;
      expires_at = expires;
      jti = jti;
    })
    else none
claims_in other key_digest now = none

abbrev jwt : Jwt
jwt = record {
  encode =
      λ claims key. digest key ∷ claims.issued_at ∷ claims.expires_at ∷ claims.jti ∷ claims.subject;
  decode = λ token key now. claims_in token (digest key) now;
}

jwt_decodes :
    (claims : Claims) (key : Text) (now : ℕ)
    → claims.issuer ≡ token_issuer
    → claims.audience ≡ token_audience
    → claims.issued_at * 1000000 ≤ now
    → now < claims.expires_at * 1000000
    → jwt.decode (jwt.encode claims key) key now ≡ some claims
jwt_decodes claims key now i a h k = ground arith

jwt-IsSound : IsSound jwt
jwt-IsSound = record { decode-encode = jwt_decodes; encode-ne-empty = λ claims key. refl }

abbrev settings : Settings
settings = record {
  auth_enabled = true;
  admin_username = codes "admin";
  admin_password_hash = codes "argon2";
  secret_key = codes "secret";
  access_token_minutes = 30;
}

abbrev verify : Text → Text → Option Bool
verify password stored_hash = some (text_eq password (codes "correct horse"))

abbrev body : LoginRequest
body = record { username = codes "admin"; password = codes "correct horse" }

abbrev answer : LoginRateLimiter × LoginOutcome
answer = login settings jwt verify (λ c. c ∷ []) body none 7500000 9 limiter

abbrev response_of : LoginOutcome → TokenResponse
response_of (granted response) = response
response_of _ = record { access_token = []; expires_in = 0; expires_at = 0 }

answer-granted : answer ≡ (limiter, granted (response_of answer.1))
unfolding login succeeded
answer-granted = refl

granted-admitted_example :
    get_current_admin settings jwt (some (response_of answer.1).access_token) 1800000000
    ≡ admin (codes "admin")
granted-admitted_example =
    granted-admitted settings jwt jwt-IsSound verify (λ c. c ∷ []) body none 7500000 9 1800000000
      limiter limiter (response_of answer.1) refl refl answer-granted (omega arith)
      (unfold login in omega arith)
