-- ===== src/Auth/Token.antt =====
-- internal/auth/token.go: a signed token, without the policy on its claims. The encodings and the
-- hash functions of Go's library are an interface.
pub mod Signature
use Prim.Native.Char.{Char, code}
use Prim.Native.String.{String, [] as empty, ◌∷◌ as ◌∷ₛ◌, ◌++◌ as ◌++ₛ◌}
use pulse_rtc.Prelude.{
  Bool, ◌||◌, not, Option, none, some, List, [], ◌∷◌, String, ◌==◌, if◌then◌else◌, ◌=?◌, string_eq,
}
use pulse_rtc.Prelude.Text.{trim}
use pulse_rtc.Auth.Errors.{malformed, bad_alg, bad_sig, Claims, AuthResult, ok, err}

-- What the token code calls: the unpadded URL encoding of base 64, JSON of the header's `alg` and
-- of the claims, and the keyed hash of a text by algorithm and secret, `none` for an algorithm that
-- is not one of the three.
pub record Codec : Type 0 where
  pub encode : String → String
  pub decode : String → Option String
  pub header_json : String → String
  pub read_header : String → Option String
  pub claims_json : Claims → String
  pub read_claims : String → Option Claims
  pub mac : String → String → String → Option String

-- `strings.Split(s, ".")`.
unfoldable pub push_char : Char → List String → List String
push_char c [] = (c ∷ₛ empty) ∷ []
push_char c (p ∷ ps) = (c ∷ₛ p) ∷ ps

unfoldable pub split_dots : String → List String
split_dots empty = "" ∷ []
split_dots (c ∷ₛ s) = if code c == 46 then "" ∷ split_dots s else push_char c (split_dots s)

abbrev pub with_dot : String → String → String
with_dot a b = a ++ₛ "." ++ₛ b

module _ (c : Codec) where
  unfoldable pub sign : Claims → String → String → AuthResult String
  sign claims alg secret =
      let signing : String =
        with_dot (c.encode (c.header_json alg)) (c.encode (c.claims_json claims)) in
      elim (c.mac alg secret signing) [
        | none ↦ err bad_alg
        | some sum ↦ ok (with_dot signing (c.encode sum))
      ]

  -- The last step: the claims, once the signature is known to be right.
  pub read_payload : String → AuthResult Claims
  read_payload payload = elim (c.decode payload) [
    | none ↦ err malformed
    | some json ↦ elim (c.read_claims json) [ none ↦ err malformed | some claims ↦ ok claims ]
  ]

  -- The signature is compared with the keyed hash of the first two parts, by the allowed algorithm
  -- that the header names.
  check_signature : String → (String → Bool) → String → String → String → String → AuthResult Claims
  check_signature secret allowed alg header payload signature =
      if not (allowed alg) then err bad_alg else elim (c.mac alg secret (with_dot header payload)) [
        | none ↦ err bad_alg
        | some sum ↦ elim (c.decode signature) [
          | none ↦ err malformed
          | some sig ↦ if sig =? sum then read_payload payload else err bad_sig
        ]
      ]

  parse_parts : String → (String → Bool) → List String → AuthResult Claims
  parse_parts secret allowed (header ∷ payload ∷ signature ∷ []) =
      if (header =? "") || (payload =? "") || (signature =? "")
      then err malformed
      else elim (c.decode header) [
        | none ↦ err malformed
        | some json ↦ elim (c.read_header json) [
          | none ↦ err malformed
          | some alg ↦ check_signature secret allowed alg header payload signature
        ]
      ]
  parse_parts secret allowed _ = err malformed

  unfoldable pub parse : String → String → (String → Bool) → AuthResult Claims
  unfolding parse_parts check_signature read_payload
  parse token secret allowed = parse_parts secret allowed (split_dots (trim token))
