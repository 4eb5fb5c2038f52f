-- ===== src/Quality/Status/Streak.antt =====
-- A verdict changes the stable status exactly if it repeats often enough without a break.
use pulse_rtc.Prelude.{
  ℕ, zero, suc, ◌+◌, ◌≤◌, ◌≡◌, ◌↔◌, ◌⊎◌, inl, inr, refl, sym, ap, ◌∙◌, true, false, some, List, [],
  ◌∷◌, arith, leb, if◌then◌else◌, Bool-cases, Option-cases, string_eq,
}
use pulse_rtc.Quality.Status.{
  Status, unknown, good, warning, poor, rank, worst, is, Stabilizer, new_stabilizer, is_candidate,
  need, observe,
}

is_iff : (a b : Status) → (is a b ≡ true) ↔ (a ≡ b)
is_iff unknown unknown = ground arith
is_iff unknown good = ground arith
is_iff unknown warning = ground arith
is_iff unknown poor = ground arith
is_iff good unknown = ground arith
is_iff good good = ground arith
is_iff good warning = ground arith
is_iff good poor = ground arith
is_iff warning unknown = ground arith
is_iff warning good = ground arith
is_iff warning warning = ground arith
is_iff warning poor = ground arith
is_iff poor unknown = ground arith
is_iff poor good = ground arith
is_iff poor warning = ground arith
is_iff poor poor = ground arith

-- `worst` is commutative, associative and idempotent, with `unknown` as its unit, and a known
-- status is never made better by it.
pub worst_lem :
    (a b c : Status)
    → (worst a b ≡ worst b a)
      × (worst (worst a b) c ≡ worst a (worst b c))
      × (worst a a ≡ a)
      × (worst unknown a ≡ a)
      × (rank a ≤ rank (worst a b))
unfolding worst
worst_lem a b c = ground (arith, is_iff a b, is_iff b a)

-- A new stabilizer after verdicts, the newest first.
unfoldable pub after : ℕ → ℕ → List Status → Stabilizer
after degrade recover [] = new_stabilizer degrade recover
after degrade recover (r ∷ older) = (observe r (after degrade recover older)).1

-- The newest `n` verdicts are all `c`.
abbrev pub Newest : ℕ → Status → List Status → Type 0
Newest zero c h = Unit
Newest (suc n) c [] = ⊥
Newest (suc n) c (r ∷ older) = (r ≡ c) × Newest n c older

Newest-fewer : (m n : ℕ) (c : Status) (h : List Status) → m ≤ n → Newest n c h → Newest m c h
Newest-fewer zero n c h le x = tt
Newest-fewer (suc m) zero c h le x = absurd (let no : ⊥ = omega arith in no)
Newest-fewer (suc m) (suc n) c [] le x = absurd x
Newest-fewer (suc m) (suc n) c (r ∷ older) le x = (x.0, Newest-fewer m n c older (omega arith) x.1)

-- The streak of the candidate is one of the newest verdicts.
abbrev Tracks : List Status → Stabilizer → Type 0
Tracks h s = (c : Status) → s.candidate ≡ some c → Newest s.streak c h

-- The streak with which a verdict is compared, if it is not the stable status.
abbrev streak_of : Status → Stabilizer → ℕ
streak_of raw s = if is_candidate raw s.candidate then s.streak + 1 else 1

streak_of-Newest :
    (raw : Status) (h : List Status) (s : Stabilizer)
    → Tracks h s
    → Newest (streak_of raw s) raw (raw ∷ h)
streak_of-Newest raw h s t = elim (Option-cases s.candidate) [
  | inl e ↦ rw e (refl, tt)
  | inr (c, e) ↦ elim (Bool-cases (is raw c)) [
    | inl same ↦
        let eq : raw ≡ c = (is_iff raw c).0 same in
        let plus : s.streak + 1 ≡ suc s.streak = omega arith in
        rw (e, same, plus) (refl, t raw (e ∙ ap some (sym eq)))
    | inr other ↦ rw (e, other) (refl, tt)
  ]
]

observe-Tracks :
    (raw : Status) (h : List Status) (s : Stabilizer)
    → Tracks h s
    → Tracks (raw ∷ h) (observe raw s).1
unfolding observe
observe-Tracks raw h s t c e = elim (Bool-cases (is raw s.stable)) [
  | inl same ↦ rw (same, observe) tt
  | inr other ↦ elim (Bool-cases (leb (need s raw) (streak_of raw s))) [
    | inl enough ↦ rw (other, observe, enough) tt
    | inr few ↦
        let is_c : some raw ≡ some c = rw (other, observe, few) at e in
        let raw_is : raw ≡ c = ground arith in
        rw (other, observe, few, ← raw_is) (streak_of-Newest raw h s t)
  ]
]

-- A run of equal verdicts is the stable status, or counted by the streak.
abbrev Counts : List Status → Stabilizer → Type 0
Counts h s =
    (n : ℕ) (c : Status)
    → Newest (suc n) c h
    → (s.stable ≡ c) ⊎ ((s.candidate ≡ some c) × (suc n ≤ s.streak))

streak_of-Counts :
    (n : ℕ) (raw : Status) (h : List Status) (s : Stabilizer)
    → Counts h s
    → is raw s.stable ≡ false
    → Newest n raw h
    → suc n ≤ streak_of raw s
streak_of-Counts zero raw h s k other x = ground arith
streak_of-Counts (suc n) raw h s k other x = elim (k n raw x) [
  | inl same ↦ ground (arith, is_iff raw s.stable)
  | inr (e, more) ↦
      let same : is raw raw ≡ true = (is_iff raw raw).1 refl in rw (e, same) (omega arith)
]

observe-Counts :
    (raw : Status) (h : List Status) (s : Stabilizer)
    → Counts h s
    → Counts (raw ∷ h) (observe raw s).1
unfolding observe
observe-Counts raw h s k n c x = elim (Bool-cases (is raw s.stable)) [
  | inl same ↦
      let eq : raw ≡ s.stable = (is_iff raw s.stable).0 same in
      rw (same, observe) (inl (sym eq ∙ x.0))
  | inr other ↦ elim (Bool-cases (leb (need s raw) (streak_of raw s))) [
    | inl enough ↦ rw (other, observe, enough) (inl x.0)
    | inr few ↦
        let run : Newest n raw h = rw x.0 x.1 in
        rw (other, observe, few) (inr (ap some x.0, streak_of-Counts n raw h s k other run))
  ]
]

after-Tracks : (degrade recover : ℕ) (h : List Status) → Tracks h (after degrade recover h)
unfolding after new_stabilizer
after-Tracks degrade recover [] c e = tt
after-Tracks degrade recover (r ∷ older) c e =
    observe-Tracks r older (after degrade recover older) (after-Tracks degrade recover older) c e

after-Counts : (degrade recover : ℕ) (h : List Status) → Counts h (after degrade recover h)
unfolding after
after-Counts degrade recover [] n c x = absurd x
after-Counts degrade recover (r ∷ older) n c x =
    observe-Counts r older (after degrade recover older) (after-Counts degrade recover older) n c x

enough_iff :
    (n : ℕ) (raw : Status) (h : List Status) (s : Stabilizer)
    → Tracks h s
    → Counts h s
    → is raw s.stable ≡ false
    → (leb n (streak_of raw s) ≡ true) ↔ Newest n raw (raw ∷ h)
enough_iff n raw h s t k other = (
  λ e. Newest-fewer n (streak_of raw s) raw (raw ∷ h) (ground arith) (streak_of-Newest raw h s t),
  reach n,
)
  where
    reach : (m : ℕ) → Newest m raw (raw ∷ h) → leb m (streak_of raw s) ≡ true
    reach zero x = ground arith
    reach (suc m) x = let le = streak_of-Counts m raw h s k other x.1 in ground arith

observe-changed :
    (raw : Status) (s : Stabilizer)
    → ((observe raw s).0.1 ≡ true)
      ↔ ((is raw s.stable ≡ false) × (leb (need s raw) (streak_of raw s) ≡ true))
unfolding observe
observe-changed raw s = ground arith

-- After any verdicts, given newest first, a further verdict changes the stable status exactly if it
-- differs from it and the newest verdicts, itself included, are all equal to it, as many as are
-- needed: the number to recover for a strict improvement between known statuses, and else the
-- number to degrade. The stable status then is that verdict, and otherwise it stays as it was.
pub observe-after :
    (degrade recover : ℕ) (h : List Status) (raw : Status)
    → (((observe raw (after degrade recover h)).0.1 ≡ true) ↔ (
        (is raw (after degrade recover h).stable ≡ false)
        × Newest (need (after degrade recover h) raw) raw (raw ∷ h)))
      × ((observe raw (after degrade recover h)).1.stable ≡ (
          if (observe raw (after degrade recover h)).0.1
          then raw
          else (after degrade recover h).stable))
      × ((observe raw (after degrade recover h)).0.0
          ≡ (observe raw (after degrade recover h)).1.stable)
observe-after degrade recover h raw =
    let s = after degrade recover h in
    let (to, from) = observe-changed raw s in
    let t = after-Tracks degrade recover h in
    let k = after-Counts degrade recover h in
    (
      (
        λ e. ((to e).0, (enough_iff (need s raw) raw h s t k (to e).0).0 (to e).1),
        λ x. from (x.0, (enough_iff (need s raw) raw h s t k x.0).1 x.1),
      ),
      (unfold observe in ground arith),
      (unfold observe in ground arith),
    )
