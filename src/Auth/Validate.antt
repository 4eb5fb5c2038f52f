-- ===== src/Auth/Validate.antt =====
-- internal/auth/validator.go: from a token to an identity.
pub mod Policy
use pulse_rtc.Prelude.{
  ℕ, zero, suc, ◌+◌, ◌-◌, ◌*◌, ◌≤◌, ◌<◌, ◌≡◌, ◌≢◌, ◌↔◌, ◌⊎◌, inl, inr, refl, sym, ap, ◌∙◌, Bool,
  true, false, ◌&&◌, ◌||◌, not, Option, none, some, List, [], ◌∷◌, ◌++◌, map, String, arith, ltb,
  leb, ◌==◌, if◌then◌else◌, Bool-cases, Option-cases, length, length-append, take, drop, Eq, ◌=?◌,
  string_eq, All, All-append, is_some,
}
use pulse_rtc.Prelude.Text.{is_blank}
use pulse_rtc.Cluster.Node.{Time, seconds}
use pulse_rtc.Auth.Errors.{
  AuthError, missing, expired, not_yet_valid, no_iat, stale, no_sub, issuer, audience, Claims,
  Identity, AuthResult, ok, err,
}
use pulse_rtc.Auth.Token.{Codec, parse}

pub record Validator : Type 0 where
  pub secret : String
  pub issuer : String
  pub audience : String
  pub algs : String → Bool
  pub leeway : ℕ
  pub max_token_age : ℕ

-- `time.Unix(s, 0)`.
abbrev pub unix : ℕ → Time
unix s = seconds 62_135_596_800 + seconds s

abbrev pub identity_of : Claims → Identity
identity_of c = record {
  subject = c.subject;
  name = c.name;
  room = c.room;
  permissions = c.permissions;
  jti = c.jti;
  expires_at = c.expires_at;
}

unfoldable pub check_claims : Time → Validator → Claims → AuthResult Identity
check_claims now v c =
    if c.expires_at == 0
    then err expired
    else if ltb (unix c.expires_at + v.leeway) now
    then err expired
    else if c.issued_at == 0
    then err no_iat
    else if ltb (now + v.leeway) (unix c.issued_at)
    then err not_yet_valid
    else if not (v.max_token_age == 0) && ltb (unix c.issued_at + (v.max_token_age + v.leeway)) now
    then err stale
    else if is_blank c.subject
    then err no_sub
    else if not (v.issuer =? "") && not (c.issuer =? v.issuer)
    then err AuthError.issuer
    else if not (v.audience =? "") && not (c.audience =? v.audience)
    then err AuthError.audience
    else ok (identity_of c)

unfoldable pub validate : Codec → Time → Validator → String → AuthResult Identity
validate codec now v token =
    if is_blank token then err missing else elim (parse codec token v.secret v.algs) [
      | err e ↦ err e
      | ok claims ↦ check_claims now v claims
    ]
