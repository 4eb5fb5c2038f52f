-- ===== src/Auth/RateLimit/Burst.antt =====
-- How many requests a limiter lets through.
use pulse_rtc.Prelude.{
  ℕ, zero, suc, ◌+◌, ◌-◌, ◌≤◌, ◌<◌, ◌≡◌, ◌≢◌, ◌⊎◌, inl, inr, refl, sym, ap, ◌∙◌, none, ◌=?◌, true,
  false, ◌&&◌, not, List, [], ◌∷◌, String, arith, leb, ◌==◌, if◌then◌else◌, Bool-cases, string_eq,
  All,
}
use mathlib.Core.Path.{subst}
use pulse_rtc.Prelude.Map.{Map, lookup, insert, lookup-insert, lookup-insert_self}
use pulse_rtc.Prelude.Float.{Floats, lt, equal}
use pulse_rtc.Cluster.Node.{Time}
use pulse_rtc.Auth.RateLimit.{
  Bucket, RateLimiter, seconds_of, new_rate_limiter, bucket_or_full, refilled, allow, sweep,
  sweep_buckets,
}

module _ (fl : Floats) where
  -- No bucket holds more than the burst.
  abbrev pub IsBounded : RateLimiter fl.Float → Type 0
  IsBounded rl = All (λ (e : String × Bucket fl.Float). fl.le e.1.tokens rl.burst ≡ true) rl.buckets

  le_self : (a : fl.Float) → fl.le a a ≡ true
  le_self a = ground (arith, fl.le_total a a)

  refilled_le :
      (now : Time) (rl : RateLimiter fl.Float) (b : Bucket fl.Float)
      → fl.le (refilled fl now rl b) rl.burst ≡ true
  unfolding refilled
  refilled_le now rl b = ground (arith, le_self rl.burst)

  insert-within_burst :
      (k : String) (b : Bucket fl.Float) (burst : fl.Float) (m : Map String (Bucket fl.Float))
      → fl.le b.tokens burst ≡ true
      → All (λ (e : String × Bucket fl.Float). fl.le e.1.tokens burst ≡ true) m
      → All (λ (e : String × Bucket fl.Float). fl.le e.1.tokens burst ≡ true) (insert k b m)
  unfolding insert
  insert-within_burst k b burst [] h hs = (h, tt)
  insert-within_burst k b burst ((j, c) ∷ m) h hs =
      ground (arith, insert-within_burst k b burst m h hs.1)

  sweep-within_burst :
      (cutoff : Time) (burst : fl.Float) (m : Map String (Bucket fl.Float))
      → All (λ (e : String × Bucket fl.Float). fl.le e.1.tokens burst ≡ true) m
      → All
          (λ (e : String × Bucket fl.Float). fl.le e.1.tokens burst ≡ true)
          (sweep_buckets fl cutoff m)
  unfolding sweep_buckets
  sweep-within_burst cutoff burst [] hs = tt
  sweep-within_burst cutoff burst ((j, c) ∷ m) hs =
      ground (arith, sweep-within_burst cutoff burst m hs.1)

  allow-IsBounded :
      (now : Time) (key : String) (rl : RateLimiter fl.Float)
      → IsBounded rl
      → IsBounded (allow fl now key rl).1 × ((allow fl now key rl).1.burst ≡ rl.burst)
  unfolding allow
  allow-IsBounded now key rl h = elim (Bool-cases (equal fl rl.rate (fl.of_ℕ 0))) [
    | inl off ↦ rw (off, allow) (h, refl)
    | inr on ↦
        let b = bucket_or_full fl now rl.burst (lookup key rl.buckets) in
        let tokens = refilled fl now rl b in
        let full = refilled_le now rl b in
        elim (Bool-cases (lt fl tokens (fl.of_ℕ 1))) [
          | inl low ↦
              rw (on, allow, low)
                (
                  insert-within_burst key (record { tokens = tokens; last = now }) rl.burst
                      rl.buckets full h,
                  refl,
                )
          | inr enough ↦
              let less = fl.sub_le tokens (fl.of_ℕ 1) (fl.of_ℕ_mono 0 1 (omega arith)) in
              let under = fl.le_trans (fl.sub tokens (fl.of_ℕ 1)) tokens rl.burst less full in
              rw (on, allow, enough)
                (
                  insert-within_burst key
                      (record { tokens = fl.sub tokens (fl.of_ℕ 1); last = now }) rl.burst
                      rl.buckets under h,
                  refl,
                )
        ]
  ]

  pub data Call : Type 0 where
    allows : String → Call
    sweeps : ℕ → Call

  unfoldable pub step : RateLimiter fl.Float → Time × Call → RateLimiter fl.Float
  step rl (now, allows key) = (allow fl now key rl).1
  step rl (now, sweeps max_idle) = sweep fl now max_idle rl

  unfoldable pub run : RateLimiter fl.Float → List (Time × Call) → RateLimiter fl.Float
  run rl [] = rl
  run rl (c ∷ cs) = run (step rl c) cs

  run-IsBounded :
      (rl : RateLimiter fl.Float) (cs : List (Time × Call))
      → IsBounded rl
      → IsBounded (run rl cs) × ((run rl cs).burst ≡ rl.burst)
  unfolding step run sweep
  run-IsBounded rl [] h = (h, refl)
  run-IsBounded rl ((now, allows key) ∷ cs) h =
      let one = allow-IsBounded now key rl h in
      let rest = run-IsBounded (allow fl now key rl).1 cs one.0 in (rest.0, rest.1 ∙ one.1)
  run-IsBounded rl ((now, sweeps max_idle) ∷ cs) h =
      run-IsBounded (sweep fl now max_idle rl) cs
        (sweep-within_burst (now - max_idle) rl.burst rl.buckets h)

-- After any requests and sweeps of a new limiter, at any times, no key has more tokens than the
-- number of requests that the limiter was made for (0 if it was made to allow everything): an idle
-- key saves up no more than one burst.
pub run-new-IsBounded :
    (fl : Floats) (per_window window : ℕ) (cs : List (Time × Call fl))
    → All
        (λ (e : String × Bucket fl.Float).
          fl.le e.1.tokens (fl.of_ℕ (if window == 0 then 0 else per_window)) ≡ true)
        (run fl (new_rate_limiter fl per_window window) cs).buckets
unfolding new_rate_limiter
run-new-IsBounded fl per_window window cs =
    elim (Bool-cases (not (per_window == 0) && not (window == 0))) [
      | inl on ↦
          let burst_is : (if window == 0 then 0 else per_window) ≡ per_window = ground arith in
          let (bounded, same) =
            run-IsBounded fl
              (record {
                rate = fl.div (fl.of_ℕ per_window) (seconds_of fl window);
                burst = fl.of_ℕ per_window;
                buckets = [];
              })
              cs tt in
          rw (on, new_rate_limiter, burst_is) (rw same at bounded)
      | inr off ↦
          let burst_is : (if window == 0 then 0 else per_window) ≡ 0 = ground arith in
          let (bounded, same) =
            run-IsBounded fl (record { rate = fl.of_ℕ 0; burst = fl.of_ℕ 0; buckets = [] }) cs tt in
          rw (off, new_rate_limiter, burst_is) (rw same at bounded)
    ]

-- A request leaves the rate and the burst as they were.
allow-config :
    (fl : Floats) (now : Time) (key : String) (rl : RateLimiter fl.Float)
    → ((allow fl now key rl).1.burst ≡ rl.burst) × ((allow fl now key rl).1.rate ≡ rl.rate)
unfolding allow
allow-config fl now key rl =
    let tokens = refilled fl now rl (bucket_or_full fl now rl.burst (lookup key rl.buckets)) in
    ground arith

ℕ-cases : (m : ℕ) → (m ≡ 0) ⊎ ((i : ℕ) × (m ≡ i + 1))
ℕ-cases zero = inl refl
ℕ-cases (suc i) = inr (i, omega arith)

-- A request for one key leaves every other key as it was.
pub allow-other :
    (fl : Floats) (now : Time) (key other : String) (rl : RateLimiter fl.Float)
    → other ≢ key
    → lookup other (allow fl now key rl).1.buckets ≡ lookup other rl.buckets
unfolding allow
allow-other fl now key other rl ne =
    let b = bucket_or_full fl now rl.burst (lookup key rl.buckets) in
    let tokens = refilled fl now rl b in
    ground (
      arith,
      string_eq.beq_iff key other,
      lookup-insert key other (record { tokens = tokens; last = now }) rl.buckets,
      lookup-insert key other (record { tokens = fl.sub tokens (fl.of_ℕ 1); last = now })
          rl.buckets,
    )

-- What exact arithmetic on the numbers up to `n` says: taking 1 away gives the number below, no
-- time adds nothing, the order is that of the numbers, and the rate is not 0.
pub record IsExact (fl : Floats) (n : ℕ) (rate : fl.Float) : Type 0 where
  pub sub_one : (m : ℕ) → m < n → fl.sub (fl.of_ℕ (m + 1)) (fl.of_ℕ 1) ≡ fl.of_ℕ m
  pub no_time : (m : ℕ) → m ≤ n → fl.add (fl.of_ℕ m) (fl.mul (seconds_of fl 0) rate) ≡ fl.of_ℕ m
  pub one_above : fl.le (fl.of_ℕ 1) (fl.of_ℕ 0) ≡ false
  pub rate_set : equal fl rate (fl.of_ℕ 0) ≡ false

-- The number of requests for `key` that are granted, of requests for these keys at one time.
unfoldable pub granted : (fl : Floats) → List String → Time → String → RateLimiter fl.Float → ℕ
granted fl [] now key rl = 0
granted fl (k ∷ ks) now key rl =
    let (granted_one, rl') = allow fl now k rl in
    let rest = granted fl ks now key rl' in if granted_one && k =? key then rest + 1 else rest

abbrev pub requests_of : String → List String → ℕ
requests_of key [] = 0
requests_of key (k ∷ ks) = if k =? key then suc (requests_of key ks) else requests_of key ks

module _ (fl : Floats) (n : ℕ) (now : Time) (key : String) where
  -- The key has `m` tokens at this time.
  abbrev Has : ℕ → RateLimiter fl.Float → Type 0
  Has m rl =
      (bucket_or_full fl now rl.burst (lookup key rl.buckets)
        ≡ record { tokens = fl.of_ℕ m; last = now })
      × (rl.burst ≡ fl.of_ℕ n)

  refilled-Has :
      (m : ℕ) (rl : RateLimiter fl.Float)
      → m ≤ n
      → IsExact fl n rl.rate
      → Has m rl
      → refilled fl now rl (bucket_or_full fl now rl.burst (lookup key rl.buckets)) ≡ fl.of_ℕ m
  unfolding refilled
  refilled-Has m rl le x h =
      let b = bucket_or_full fl now rl.burst (lookup key rl.buckets) in
      let tokens : b.tokens ≡ fl.of_ℕ m = ap (λ c. c.tokens) h.0 in
      let last : b.last ≡ now = ap (λ c. c.last) h.0 in
      let no_time : now - now ≡ 0 = omega arith in
      let under = fl.of_ℕ_mono m n le in rw (tokens, last, no_time, x.no_time m le, h.1, under) refl

  allow-Has_none :
      (rl : RateLimiter fl.Float)
      → IsExact fl n rl.rate
      → Has 0 rl
      → ((allow fl now key rl).0 ≡ false)
        × Has 0 (allow fl now key rl).1
        × ((allow fl now key rl).1.rate ≡ rl.rate)
  unfolding allow
  allow-Has_none rl x h =
      let t = refilled-Has 0 rl (omega arith) x h in
      ground
        (arith, t, lookup-insert_self key (record { tokens = fl.of_ℕ 0; last = now }) rl.buckets)

  allow-Has :
      (m : ℕ) (rl : RateLimiter fl.Float)
      → m < n
      → IsExact fl n rl.rate
      → Has (m + 1) rl
      → ((allow fl now key rl).0 ≡ true)
        × Has m (allow fl now key rl).1
        × ((allow fl now key rl).1.rate ≡ rl.rate)
  unfolding allow
  allow-Has m rl lt x h =
      let t = refilled-Has (m + 1) rl (omega arith) x h in
      let above = fl.of_ℕ_mono 1 (m + 1) (omega arith) in
      ground (
        arith,
        t,
        above,
        x.sub_one m lt,
        x.rate_set,
        lookup-insert_self key (record { tokens = fl.of_ℕ m; last = now }) rl.buckets,
      )

  -- A request for another key.
  allow-Has_other :
      (m : ℕ) (k : String) (rl : RateLimiter fl.Float)
      → key ≢ k
      → Has m rl
      → Has m (allow fl now k rl).1 × ((allow fl now k rl).1.rate ≡ rl.rate)
  allow-Has_other m k rl ne h =
      let same = allow-other fl now k key rl ne in
      let config = allow-config fl now k rl in ((rw (config.0, same) h.0, config.0 ∙ h.1), config.1)

  granted-Has :
      (ks : List String) (m : ℕ) (rl : RateLimiter fl.Float)
      → m ≤ n
      → IsExact fl n rl.rate
      → Has m rl
      → granted fl ks now key rl ≡ (if leb (requests_of key ks) m then requests_of key ks else m)
  unfolding granted
  granted-Has [] m rl le x h = ground arith
  granted-Has (k ∷ ks) m rl le x h = elim (Bool-cases (k =? key)) [
    | inl same ↦
        let is : key ≡ k = sym ((string_eq.beq_iff k key).0 same) in
        elim (ℕ-cases m) [
          | inl z ↦
              let (no_one, h', rate) = allow-Has_none rl x (subst (λ i. Has i rl) z h) in
              let none_left =
                granted-Has ks zero (allow fl now key rl).1 (omega arith) (rw rate x) h' in
              let step : (allow fl now k rl) ≡ (allow fl now key rl) =
                ap (λ i. allow fl now i rl) (sym is) in
              ground (arith, none_left, step, z, same, no_one)
          | inr (i, e) ↦
              let (one, h', rate) = allow-Has i rl (omega arith) x (subst (λ i. Has i rl) e h) in
              let rest = granted-Has ks i (allow fl now key rl).1 (omega arith) (rw rate x) h' in
              let step : (allow fl now k rl) ≡ (allow fl now key rl) =
                ap (λ i. allow fl now i rl) (sym is) in
              ground (arith, rest, step, e, same, one)
        ]
    | inr other ↦
        let ne : key ≢ k = λ e. let wrong = (string_eq.beq_iff k key).1 (sym e) in cc in
        let (h', rate) = allow-Has_other m k rl ne h in
        let rest = granted-Has ks m (allow fl now k rl).1 le (rw rate x) h' in
        ground (arith, rest, other)
  ]

-- Of requests for any keys at one time, in any order, on a limiter with the burst `n` that has not
-- seen the key `key`, and where the arithmetic is exact up to `n`, the first `n` for that key are
-- granted and no more: what is asked for other keys takes nothing from it.
pub granted_lem :
    (fl : Floats) (n : ℕ) (ks : List String) (now : Time) (key : String) (rl : RateLimiter fl.Float)
    → rl.burst ≡ fl.of_ℕ n
    → IsExact fl n rl.rate
    → lookup key rl.buckets ≡ none
    → granted fl ks now key rl ≡ (if leb (requests_of key ks) n then requests_of key ks else n)
granted_lem fl n ks now key rl b x u =
    granted-Has fl n now key ks n rl (omega arith) x
      (ap (bucket_or_full fl now rl.burst) u ∙ ap (λ t. record { tokens = t; last = now }) b, b)
