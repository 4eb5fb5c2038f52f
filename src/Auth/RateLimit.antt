-- ===== src/Auth/RateLimit.antt =====
-- internal/auth/ratelimit.go: a bucket of tokens for each key. The clock does not run backwards, as
-- the monotonic clock of `time.Now` does not.
pub mod Burst
use pulse_rtc.Prelude.{
  ℕ, zero, suc, ◌+◌, ◌-◌, ◌*◌, ◌≤◌, ◌<◌, ◌≡◌, ◌≢◌, ◌↔◌, ◌⊎◌, inl, inr, refl, sym, ap, ◌∙◌, Bool,
  true, false, ◌&&◌, ◌||◌, not, Option, none, some, List, [], ◌∷◌, ◌++◌, map, String, arith, ltb,
  leb, ◌==◌, if◌then◌else◌, Bool-cases, Option-cases, length, length-append, take, drop, Eq, ◌=?◌,
  string_eq, All, All-append, is_some,
}
use pulse_rtc.Prelude.Map.{
  Map, lookup, insert, delete, lookup-insert, lookup-delete, Distinct, insert-Distinct,
  delete-Distinct, beq_self, lookup-insert_self, lookup-delete_self, map_laws, length-delete-le,
}
use pulse_rtc.Prelude.{◌/◌, ◌%◌}
use pulse_rtc.Prelude.Float.{Floats, lt, equal}
use pulse_rtc.Cluster.Node.{Time}

pub record Bucket (F : Type 0) : Type 0 where
  pub tokens : F
  pub last : Time

pub record RateLimiter (F : Type 0) : Type 0 where
  pub rate : F
  pub burst : F
  pub buckets : Map String (Bucket F)

module _ (fl : Floats) where
  -- `Duration.Seconds`.
  unfoldable pub seconds_of : ℕ → fl.Float
  seconds_of d =
      fl.add (fl.of_ℕ (d / 1_000_000_000))
        (fl.div (fl.of_ℕ (d % 1_000_000_000)) (fl.of_ℕ 1_000_000_000))

  unfoldable pub new_rate_limiter : ℕ → ℕ → RateLimiter fl.Float
  new_rate_limiter per_window window =
      if not (per_window == 0) && not (window == 0)
      then (record {
        rate = fl.div (fl.of_ℕ per_window) (seconds_of window);
        burst = fl.of_ℕ per_window;
        buckets = [];
      })
      else (record { rate = fl.of_ℕ 0; burst = fl.of_ℕ 0; buckets = [] })

  abbrev pub bucket_or_full : Time → fl.Float → Option (Bucket fl.Float) → Bucket fl.Float
  bucket_or_full now burst none = record { tokens = burst; last = now }
  bucket_or_full now burst (some b) = b

  abbrev pub at_most : fl.Float → fl.Float → fl.Float
  at_most cap x = if lt fl cap x then cap else x

  -- The tokens of a bucket when it is looked at.
  unfoldable pub refilled : Time → RateLimiter fl.Float → Bucket fl.Float → fl.Float
  refilled now rl b =
      at_most rl.burst (fl.add b.tokens (fl.mul (seconds_of (now - b.last)) rl.rate))

  unfoldable pub allow : Time → String → RateLimiter fl.Float → Bool × RateLimiter fl.Float
  unfolding refilled
  allow now key rl =
      if equal fl rl.rate (fl.of_ℕ 0)
      then (true, rl)
      else (let tokens = refilled now rl (bucket_or_full now rl.burst (lookup key rl.buckets)) in
          if lt fl tokens (fl.of_ℕ 1)
          then (
            false,
            record rl { buckets = insert key (record { tokens = tokens; last = now }) rl.buckets },
          )
          else (
            true,
            record rl {
              buckets =
                  insert key (record { tokens = fl.sub tokens (fl.of_ℕ 1); last = now }) rl.buckets;
            },
          ))

  sweep_buckets : Time → Map String (Bucket fl.Float) → Map String (Bucket fl.Float)
  sweep_buckets cutoff [] = []
  sweep_buckets cutoff ((k, b) ∷ m) =
      let rest = sweep_buckets cutoff m in if ltb b.last cutoff then rest else (k, b) ∷ rest

  unfoldable pub sweep : Time → ℕ → RateLimiter fl.Float → RateLimiter fl.Float
  unfolding sweep_buckets
  sweep now max_idle rl = record rl { buckets = sweep_buckets (now - max_idle) rl.buckets }
