-- ===== src/Auth/Errors.antt =====
-- internal/auth/errors.go, claims.go: the errors, what a token claims, and who it says one is.
use pulse_rtc.Prelude.{ℕ, Bool, String, string_eq}

-- The errors that the modelled functions return, one for each variable or literal of the source.
pub data AuthError : Type 0 where
  missing malformed bad_sig bad_alg expired not_yet_valid no_iat stale no_sub issuer audience :
      AuthError
  join_denied room_access_denied publish_denied subscribe_denied control_denied : AuthError

pub data Code : Type 0 where
  unauthenticated invalid_token expired_token invalid_issuer invalid_audience room_access_denied :
      Code
  publish_not_allowed subscribe_not_allowed control_not_allowed join_not_allowed : Code

pub code_of : AuthError → Code
code_of missing = unauthenticated
code_of malformed = invalid_token
code_of bad_sig = invalid_token
code_of bad_alg = invalid_token
code_of expired = expired_token
code_of not_yet_valid = invalid_token
code_of no_iat = invalid_token
code_of stale = invalid_token
code_of no_sub = invalid_token
code_of issuer = invalid_issuer
code_of audience = invalid_audience
code_of join_denied = join_not_allowed
code_of AuthError.room_access_denied = Code.room_access_denied
code_of publish_denied = publish_not_allowed
code_of subscribe_denied = subscribe_not_allowed
code_of control_denied = control_not_allowed

pub record Permissions : Type 0 where
  pub join : Bool
  pub publish : Bool
  pub subscribe : Bool
  pub control : Bool

-- Times in seconds of Unix time. A negative `exp` is represented by 0, which is refused alike; a
-- negative `iat` is not represented.
pub record Claims : Type 0 where
  pub subject : String
  pub name : String
  pub room : String
  pub permissions : Permissions
  pub issued_at : ℕ
  pub expires_at : ℕ
  pub issuer : String
  pub audience : String
  pub jti : String

pub record Identity : Type 0 where
  pub subject : String
  pub name : String
  pub room : String
  pub permissions : Permissions
  pub jti : String
  pub expires_at : ℕ

pub data AuthResult (A : Type 0) : Type 0 where
  ok : A → AuthResult A
  err : AuthError → AuthResult A
