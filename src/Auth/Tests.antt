-- ===== src/Auth/Tests.antt =====
-- The theorems about rate limits, permissions and claims at concrete inputs.
use pulse_rtc.Prelude.{
  ℕ, ◌≡◌, ◌↔◌, refl, true, false, ◌&&◌, ◌||◌, none, some, List, [], ◌∷◌, arith, leb, if◌then◌else◌,
  ◌=?◌, string_eq, String,
}
use pulse_rtc.Prelude.Map.{lookup}
use pulse_rtc.Prelude.Text.{is_blank, trim}
use pulse_rtc.Prelude.Float.{nat_floats}
use pulse_rtc.Auth.RateLimit.{RateLimiter, new_rate_limiter, seconds_of}
use pulse_rtc.Auth.RateLimit.Burst.{
  Call, allows, sweeps, IsExact, granted, requests_of, granted_lem,
}
use pulse_rtc.Auth.Errors.{missing, Identity, Claims, ok}
use pulse_rtc.Auth.Authorize.{
  authorize_join, authorize_publish, authorize_subscribe, authorize_control, may, authorize_lem,
}
use pulse_rtc.Auth.Token.{Codec, split_dots, push_char, parse}
use pulse_rtc.Auth.Validate.{validate, Validator, check_claims}
use pulse_rtc.Auth.Validate.Policy.{IsAccepted, validate-IsAccepted}

abbrev calls : List (ℕ × Call nat_floats)
calls = (5, allows "k") ∷ (6, allows "k") ∷ (9, sweeps 1) ∷ []

exact : IsExact nat_floats 3 (new_rate_limiter nat_floats 3 1_000_000_000).rate
unfolding new_rate_limiter seconds_of
exact = record {
  sub_one = λ m h. omega arith;
  no_time = λ m h. omega arith;
  one_above = refl;
  rate_set = refl;
}

-- Another key has used up its tokens.
abbrev in_use : RateLimiter ℕ
in_use = record {
  rate = (new_rate_limiter nat_floats 3 1_000_000_000).rate;
  burst = 3;
  buckets = ("j", record { tokens = 0; last = 6 }) ∷ [];
}

abbrev asked : List String
asked = "k" ∷ ("j" ∷ ("k" ∷ ("k" ∷ ("j" ∷ ("k" ∷ [])))))

granted_lem_example :
    granted nat_floats asked 7 "k" in_use
    ≡ (if leb (requests_of "k" asked) 3 then requests_of "k" asked else 3)
unfolding lookup
granted_lem_example = granted_lem nat_floats 3 asked 7 "k" in_use refl exact refl

abbrev publisher : Identity
publisher = record {
  subject = "u";
  name = "";
  room = "r";
  permissions = record { join = true; publish = true; subscribe = false; control = false };
  jti = "";
  expires_at = 100;
}

authorize_lem_example :
    ((authorize_join (some publisher) "r" ≡ none) ↔ (
      may (some publisher) (λ i. i.permissions.join && (is_blank i.room || (i.room =? "r")))
      ≡ true))
    × ((authorize_publish (some publisher) ≡ none)
        ↔ (may (some publisher) (λ i. i.permissions.publish) ≡ true))
    × ((authorize_subscribe (some publisher) ≡ none)
        ↔ (may (some publisher) (λ i. i.permissions.subscribe) ≡ true))
    × ((authorize_control (some publisher) ≡ none)
        ↔ (may (some publisher) (λ i. i.permissions.control) ≡ true))
    × (some publisher ≡ none
        → (authorize_join (some publisher) "r" ≡ some missing)
          × (authorize_publish (some publisher) ≡ some missing)
          × (authorize_subscribe (some publisher) ≡ some missing)
          × (authorize_control (some publisher) ≡ some missing))
authorize_lem_example = authorize_lem (some publisher) "r"

abbrev validator : Validator
validator = record {
  secret = "s";
  issuer = "";
  audience = "";
  algs = λ a. a =? "HS256";
  leeway = 0;
  max_token_age = 0;
}

abbrev claims : Claims
claims = record {
  subject = "u";
  name = "";
  room = "r";
  permissions = publisher.permissions;
  issued_at = 50;
  expires_at = 100;
  issuer = "";
  audience = "";
  jti = "";
}

-- Encodings that leave every text as it is, and a hash that is the secret.
abbrev plain : Codec
plain = record {
  encode = λ s. s;
  decode = λ s. some s;
  header_json = λ a. a;
  read_header = λ s. some s;
  claims_json = λ c. c.subject;
  read_claims = λ s. some claims;
  mac = λ a s t. some s;
}

signed : validate plain 62_135_596_870_000_000_000 validator "HS256.u.s" ≡ ok publisher
unfolding validate check_claims parse split_dots push_char is_blank trim
signed = refl

validate-IsAccepted_example :
    IsAccepted plain 62_135_596_870_000_000_000 validator "HS256.u.s" publisher
validate-IsAccepted_example =
    validate-IsAccepted plain 62_135_596_870_000_000_000 validator "HS256.u.s" publisher signed
