-- ===== src/Auth/Token/Signature.antt =====
-- No token is read that was not signed.
use pulse_rtc.Prelude.{
  ◌≡◌, inl, inr, refl, Bool, true, some, List, [], ◌∷◌, String, arith, Option-cases, string_eq,
}
use pulse_rtc.Prelude.Text.{trim}
use pulse_rtc.Auth.Errors.{Claims, ok}
use pulse_rtc.Auth.Token.{
  Codec, split_dots, with_dot, read_payload, check_signature, parse_parts, parse,
}

-- The parts of a token that carries the claims and is signed with the secret, by an algorithm that
-- its header names and that is allowed.
pub record IsSigned (codec : Codec) (secret : String) (allowed : String → Bool)
    (parts : List String) (c : Claims) : Type 0 where
  pub header : String
  pub payload : String
  pub signature : String
  pub alg : String
  pub sum : String
  pub three : parts ≡ header ∷ payload ∷ signature ∷ []
  pub permitted : allowed alg ≡ true
  pub computed : codec.mac alg secret (with_dot header payload) ≡ some sum
  pub carried : codec.decode signature ≡ some sum
  pub read : read_payload codec payload ≡ ok c

check_signature-IsSigned :
    (codec : Codec) (secret : String) (allowed : String → Bool) (alg h p s : String) (c : Claims)
    → check_signature codec secret allowed alg h p s ≡ ok c
    → IsSigned codec secret allowed (h ∷ p ∷ s ∷ []) c
unfolding check_signature
check_signature-IsSigned codec secret allowed alg h p s c e =
    elim (Option-cases (codec.mac alg secret (with_dot h p))) [
      | inl none_made ↦ absurd (let no : ⊥ = ground arith in no)
      | inr (sum, made) ↦ elim (Option-cases (codec.decode s)) [
        | inl none_read ↦ absurd (let no : ⊥ = ground arith in no)
        | inr (sig, found) ↦
            let same : sig ≡ sum = ground (arith, string_eq.beq_iff sig sum) in
            record {
              header = h;
              payload = p;
              signature = s;
              alg = alg;
              sum = sum;
              three = refl;
              permitted = ground arith;
              computed = made;
              carried = rw same at found;
              read = ground (arith, string_eq.beq_iff sig sum);
            }
      ]
    ]

parse_parts-IsSigned :
    (codec : Codec) (secret : String) (allowed : String → Bool) (parts : List String) (c : Claims)
    → parse_parts codec secret allowed parts ≡ ok c
    → IsSigned codec secret allowed parts c
unfolding parse_parts
parse_parts-IsSigned codec secret allowed [] c e = absurd (let no : ⊥ = ground arith in no)
parse_parts-IsSigned codec secret allowed (h ∷ []) c e = absurd (let no : ⊥ = ground arith in no)
parse_parts-IsSigned codec secret allowed (h ∷ p ∷ []) c e =
    absurd (let no : ⊥ = ground arith in no)
parse_parts-IsSigned codec secret allowed (h ∷ p ∷ s ∷ t ∷ ts) c e =
    absurd (let no : ⊥ = ground arith in no)
parse_parts-IsSigned codec secret allowed (h ∷ p ∷ s ∷ []) c e =
    elim (Option-cases (codec.decode h)) [
      | inl none_read ↦ absurd (let no : ⊥ = ground arith in no)
      | inr (json, found) ↦ elim (Option-cases (codec.read_header json)) [
        | inl no_alg ↦ absurd (let no : ⊥ = ground arith in no)
        | inr (alg, named) ↦
            check_signature-IsSigned codec secret allowed alg h p s c (ground arith)
      ]
    ]

-- Whatever the encodings and the hash functions are: claims are read from a token only if it has
-- three parts between dots, the third encodes the keyed hash of the first two with the secret, by
-- an algorithm that is allowed, and the second encodes the claims.
pub parse-IsSigned :
    (codec : Codec) (secret : String) (allowed : String → Bool) (token : String) (c : Claims)
    → parse codec token secret allowed ≡ ok c
    → IsSigned codec secret allowed (split_dots (trim token)) c
unfolding parse
parse-IsSigned codec secret allowed token c e =
    parse_parts-IsSigned codec secret allowed (split_dots (trim token)) c e
