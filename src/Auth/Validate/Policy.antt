-- ===== src/Auth/Validate/Policy.antt =====
-- Which claims pass.
use pulse_rtc.Prelude.{
  ◌+◌, ◌≤◌, ◌≡◌, ◌≢◌, ◌↔◌, ◌⊎◌, inl, inr, refl, false, String, arith, Bool-cases, string_eq,
}
use pulse_rtc.Prelude.Text.{is_blank, trim}
use pulse_rtc.Cluster.Node.{Time}
use pulse_rtc.Auth.Errors.{Claims, Identity, AuthResult, ok, err}
use pulse_rtc.Auth.Token.{Codec, split_dots, parse}
use pulse_rtc.Auth.Token.Signature.{IsSigned, parse-IsSigned}
use pulse_rtc.Auth.Validate.{Validator, unix, identity_of, check_claims, validate}

-- The policy: an expiry that has not passed and an issue time that is not in the future, up to the
-- leeway, a token that is not too old if there is a limit, a subject, and the issuer and audience
-- that are asked for, if any.
abbrev pub Passes : Time → Validator → Claims → Type 0
Passes now v c =
    (c.expires_at ≢ 0)
    × (now ≤ unix c.expires_at + v.leeway)
    × (c.issued_at ≢ 0)
    × (unix c.issued_at ≤ now + v.leeway)
    × ((v.max_token_age ≡ 0) ⊎ (now ≤ unix c.issued_at + (v.max_token_age + v.leeway)))
    × (is_blank c.subject ≡ false)
    × ((v.issuer ≡ "") ⊎ (c.issuer ≡ v.issuer))
    × ((v.audience ≡ "") ⊎ (c.audience ≡ v.audience))

-- Claims are accepted exactly if they pass the policy, and the identity then has the subject, name,
-- room, permissions, id and expiry of the claims.
pub check_claims_lem :
    (now : Time) (v : Validator) (c : Claims) (i : Identity)
    → (check_claims now v c ≡ ok i) ↔ (Passes now v c × (i ≡ identity_of c))
unfolding check_claims
check_claims_lem now v c i = ground (
  arith,
  string_eq.beq_iff v.issuer "",
  string_eq.beq_iff c.issuer v.issuer,
  string_eq.beq_iff v.audience "",
  string_eq.beq_iff c.audience v.audience,
)

-- What an accepted token carries: signed claims that pass the policy, from which the identity is
-- made.
pub record IsAccepted (codec : Codec) (now : Time) (v : Validator) (token : String) (i : Identity)
    : Type 0 where
  pub claims : Claims
  pub signed : IsSigned codec v.secret v.algs (split_dots (trim token)) claims
  pub passes : Passes now v claims
  pub made : i ≡ identity_of claims

-- What is done with the claims of a token, or the error.
abbrev after_parse : Time → Validator → AuthResult Claims → AuthResult Identity
after_parse now v (err e) = err e
after_parse now v (ok claims) = check_claims now v claims

accepted :
    (codec : Codec) (now : Time) (v : Validator) (token : String) (i : Identity)
    (x : AuthResult Claims)
    → parse codec token v.secret v.algs ≡ x
    → after_parse now v x ≡ ok i
    → IsAccepted codec now v token i
accepted codec now v token i (err a) p h = absurd (let no : ⊥ = ground arith in no)
accepted codec now v token i (ok c) p h =
    let (passes, made) = (check_claims_lem now v c i).0 h in
    record {
      claims = c;
      signed = parse-IsSigned codec v.secret v.algs token c p;
      passes = passes;
      made = made;
    }

-- A token is accepted only if it has three parts between dots, of which the third encodes the keyed
-- hash of the first two with the validator's secret, by an algorithm that the validator allows, and
-- the second encodes claims that pass the policy; the identity is then that of the claims. This
-- holds for all encodings and hash functions.
pub validate-IsAccepted :
    (codec : Codec) (now : Time) (v : Validator) (token : String) (i : Identity)
    → validate codec now v token ≡ ok i
    → IsAccepted codec now v token i
unfolding validate
validate-IsAccepted codec now v token i e = elim (Bool-cases (is_blank token)) [
  | inl blank ↦ absurd (let no : ⊥ = ground arith in no)
  | inr full ↦ accepted codec now v token i (parse codec token v.secret v.algs) refl (rw full at e)
]
