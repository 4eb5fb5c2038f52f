-- ===== src/Quality/Analyzer/Plain.antt =====
-- The exact verdict where every figure is plainly good or plainly bad.
use pulse_rtc.Prelude.{
  ℕ, ◌+◌, ◌-◌, ◌≤◌, ◌≡◌, ◌⊎◌, inl, inr, refl, ap, ◌∙◌, Bool, true, false, ◌&&◌, ◌||◌, Option, none,
  some, List, [], ◌∷◌, arith, leb, if◌then◌else◌, string_eq, Bool-cases,
}
use pulse_rtc.Prelude.Float.{Floats}
use pulse_rtc.Quality.Status.{good, poor, worst}
use pulse_rtc.Quality.Score.{
  band, band_low, penalty, penalty_low, clamp_score, status_from_score, status_from_band,
}
use pulse_rtc.Quality.Score.Bands.{clamp_score_lem}
use pulse_rtc.Quality.Analyzer.{
  Problem, Config, Rule, Tally, band_of, penalty_of, tally_rule, tally, eval_rules,
}
use pulse_rtc.Quality.Analyzer.Verdict.{
  as_bad, noticed, past_poor, band_at, highest_band, problems_of, tally_lem,
}

-- What exact arithmetic on the numbers up to 100 says of a difference.
pub record IsExactScore (fl : Floats) : Type 0 where
  pub sub_num : (a b : ℕ) → a ≤ 100 → b ≤ a → fl.sub (fl.of_ℕ a) (fl.of_ℕ b) ≡ fl.of_ℕ (a - b)
  pub sub_under :
      (a b : ℕ) → b ≤ 100 → a ≤ b → fl.le (fl.sub (fl.of_ℕ a) (fl.of_ℕ b)) (fl.of_ℕ 0) ≡ true

module _ (fl : Floats) where
  -- A rule with a figure that is plainly good, better than its warning threshold, or plainly bad:
  -- it has reached the poor threshold, is worse than the warning threshold, and the thresholds are
  -- set.
  abbrev pub Plain : Rule fl.Float → Option fl.Float → Type 0
  Plain r none = Unit
  Plain r (some v) =
      (noticed fl r (some v) ≡ false)
      ⊎ ((as_bad fl r v r.poor ≡ true)
          × (as_bad fl r r.warn v ≡ false)
          × ((fl.le r.warn (fl.of_ℕ 0) && fl.le r.poor (fl.of_ℕ 0)) ≡ false))

  abbrev pub penalty_sum : List (Rule fl.Float) → ℕ
  penalty_sum [] = 0
  penalty_sum (r ∷ rs) = (if past_poor fl r r.value then r.pen else 0) + penalty_sum rs

  abbrev pub bad_ones : List (Rule fl.Float) → List Problem
  bad_ones [] = []
  bad_ones (r ∷ rs) = if past_poor fl r r.value then r.problem ∷ bad_ones rs else bad_ones rs

  -- The score after penalties of `n` in all.
  abbrev Left : ℕ → fl.Float → Type 0
  Left n s = ((n ≤ 100) × (s ≡ fl.of_ℕ (100 - n))) ⊎ ((100 ≤ n) × (fl.le s (fl.of_ℕ 0) ≡ true))

  sub-Left :
      (n p : ℕ) (s : fl.Float)
      → IsExactScore fl
      → p ≤ 100
      → Left n s
      → Left (n + p) (fl.sub s (fl.of_ℕ p))
  sub-Left n p s x hp (inl (le, e)) = elim (Bool-cases (leb p (100 - n))) [
    | inl fits ↦
        let is : fl.sub s (fl.of_ℕ p) ≡ fl.of_ℕ (100 - n - p) =
          ap (λ y. fl.sub y (fl.of_ℕ p)) e ∙ x.sub_num (100 - n) p (omega arith) (ground arith) in
        let same : 100 - n - p ≡ 100 - (n + p) = omega arith in
        inl (ground arith, is ∙ ap fl.of_ℕ same)
    | inr over ↦
        let under = x.sub_under (100 - n) p hp (ground arith) in
        inr (ground arith, ap (λ y. fl.le (fl.sub y (fl.of_ℕ p)) (fl.of_ℕ 0)) e ∙ under)
  ]
  sub-Left n p s x hp (inr (ge, e)) =
      let less = fl.sub_le s (fl.of_ℕ p) (fl.of_ℕ_mono 0 p (omega arith)) in
      inr (omega arith, fl.le_trans (fl.sub s (fl.of_ℕ p)) s (fl.of_ℕ 0) less e)

  penalty_of-Plain :
      (r : Rule fl.Float) (v : fl.Float)
      → Plain r (some v)
      → penalty_of fl r v ≡ fl.of_ℕ (if past_poor fl r (some v) then r.pen else 0)
  unfolding penalty_of penalty penalty_low
  penalty_of-Plain r v (inl h) = ground (arith, fl.le_total v r.warn, fl.le_total r.warn v)
  penalty_of-Plain r v (inr (past, worse, set)) = ground arith

  problem-Plain :
      (r : Rule fl.Float) (o : Option fl.Float)
      → Plain r o
      → leb 1 (band_at fl r o) ≡ past_poor fl r o
  unfolding band_of band band_low
  problem-Plain r none h = refl
  problem-Plain r (some v) (inl h) = ground arith
  problem-Plain r (some v) (inr (past, worse, set)) = ground arith

  tally_rule-Left :
      (r : Rule fl.Float) (o : Option fl.Float) (n : ℕ) (t : Tally fl.Float)
      → IsExactScore fl
      → r.pen ≤ 100
      → Plain r o
      → Left n t.score
      → Left (n + (if past_poor fl r o then r.pen else 0)) (tally_rule fl r o t).score
  tally_rule-Left r none n t x hp pl h = ground (arith, h)
  tally_rule-Left r (some v) n t x hp pl h =
      let p : ℕ = if past_poor fl r (some v) then r.pen else 0 in
      let small : p ≤ 100 = ground arith in
      rw (penalty_of-Plain r v pl) (sub-Left n p t.score x small h)

  abbrev pub IsPlain : List (Rule fl.Float) → Type 0
  IsPlain [] = Unit
  IsPlain (r ∷ rs) = (r.pen ≤ 100) × Plain r r.value × IsPlain rs

  tally-Left :
      (rs : List (Rule fl.Float)) (n : ℕ) (t : Tally fl.Float)
      → IsExactScore fl
      → IsPlain rs
      → Left n t.score
      → Left (n + penalty_sum rs) (tally fl rs t).score
  unfolding tally
  tally-Left [] n t x pl h = rw (n_plus n) h
    where
      n_plus : (n : ℕ) → n + 0 ≡ n
      n_plus n = omega arith
  tally-Left (r ∷ rs) n t x pl h =
      let p : ℕ = if past_poor fl r r.value then r.pen else 0 in
      let same : n + (p + penalty_sum rs) ≡ n + p + penalty_sum rs = omega arith in
      rw same (
        tally-Left rs (n + p) (tally_rule fl r r.value t) x pl.2
          (tally_rule-Left r r.value n t x pl.0 pl.1 h))

  problems-Plain : (rs : List (Rule fl.Float)) → IsPlain rs → problems_of fl rs ≡ bad_ones rs
  unfolding problems_of
  problems-Plain [] pl = refl
  problems-Plain (r ∷ rs) pl = ground (arith, problem-Plain r r.value pl.1, problems-Plain rs pl.2)

  abbrev pub any_bad : List (Rule fl.Float) → Bool
  any_bad [] = false
  any_bad (r ∷ rs) = past_poor fl r r.value || any_bad rs

  band-Plain :
      (r : Rule fl.Float) (o : Option fl.Float)
      → Plain r o
      → band_at fl r o ≡ (if past_poor fl r o then 2 else 0)
  unfolding band_of band band_low
  band-Plain r none h = refl
  band-Plain r (some v) (inl h) = ground arith
  band-Plain r (some v) (inr (past, worse, set)) = ground arith

  highest-Plain :
      (rs : List (Rule fl.Float))
      → IsPlain rs
      → (highest_band fl rs ≡ (if any_bad rs then 2 else 0))
        × (any_bad rs ≡ false → penalty_sum rs ≡ 0)
  unfolding highest_band
  highest-Plain [] pl = ground arith
  highest-Plain (r ∷ rs) pl = ground (arith, band-Plain r r.value pl.1, highest-Plain rs pl.2)

  clamp_score-Left : (n : ℕ) (s : fl.Float) → Left n s → clamp_score fl s ≡ 100 - n
  unfolding clamp_score
  clamp_score-Left n s (inl (le, e)) =
      let m = 100 - n in
      let below = fl.of_ℕ_mono m 100 (omega arith) in
      let above = fl.of_ℕ_mono 0 m (omega arith) in
      rw (e, below, above, clamp_score) (fl.round-of_ℕ m (omega arith))
  clamp_score-Left n s (inr (ge, e)) = (clamp_score_lem fl s s).2 e ∙ zero_left
    where
      zero_left : 0 ≡ 100 - n
      zero_left = omega arith

-- Where every figure is either better than its warning threshold, or has reached its poor threshold
-- and is worse than the warning one, no penalty is above 100, the arithmetic up to 100 is exact and
-- a score of 100 counts as good: the score is 100 less the full penalties of the bad figures, 0 if
-- these are more; the problems are those of the bad figures, in order; and the verdict is poor if
-- there is a bad figure and good if there is none.
pub eval_rules-IsPlain :
    (fl : Floats) (rs : List (Rule fl.Float)) (cfg : Config fl.Float)
    → IsExactScore fl
    → IsPlain fl rs
    → cfg.good_score ≤ 100
    → ((eval_rules fl rs cfg).score ≡ 100 - penalty_sum fl rs)
      × ((eval_rules fl rs cfg).problems ≡ bad_ones fl rs)
      × ((eval_rules fl rs cfg).status ≡ (if any_bad fl rs then poor else good))
unfolding eval_rules worst status_from_band status_from_score
eval_rules-IsPlain fl rs cfg x pl hg =
    let t0 : Tally fl.Float = record { score = fl.of_ℕ 100; problems = []; worst_band = 0 } in
    let t = tally_lem fl rs t0 in
    let start : Left fl 0 (fl.of_ℕ 100) = inl (omega arith, refl) in
    let score =
      clamp_score-Left fl (0 + penalty_sum fl rs) (tally fl rs t0).score
        (tally-Left fl rs 0 t0 x pl start) in
    let bands = highest-Plain fl rs pl in
    (ground (arith, score), t.0 ∙ problems-Plain fl rs pl, ground (arith, score, t, bands))
