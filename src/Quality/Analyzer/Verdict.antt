-- ===== src/Quality/Analyzer/Verdict.antt =====
-- What a verdict says about the figures.
use pulse_rtc.Prelude.{
  ℕ, ◌≤◌, ◌≡◌, ◌⊎◌, inl, inr, refl, ◌∙◌, Bool, true, false, ◌||◌, Option, none, some, List, [], ◌∷◌,
  ◌++◌, arith, ltb, leb, if◌then◌else◌, string_eq, All, Bool-cases,
}
use mathlib.Core.List.{append-nil, append_assoc}
use pulse_rtc.Prelude.Float.{Floats}
use pulse_rtc.Quality.Status.{good, poor, worst}
use pulse_rtc.Quality.Score.{band, band_low, status_from_score, status_from_band}
use pulse_rtc.Quality.Analyzer.{
  Problem, Config, Rule, Tally, band_of, tally_rule, tally, eval_rules,
}

module _ (fl : Floats) where
  -- The figure `v` is at least as bad as `w`.
  abbrev pub as_bad : Rule fl.Float → fl.Float → fl.Float → Bool
  as_bad r v w = if r.lower_worse then fl.le v w else fl.le w v

  -- There is a figure, and it has reached the warning threshold or the poor one.
  abbrev pub noticed : Rule fl.Float → Option fl.Float → Bool
  noticed r none = false
  noticed r (some v) = as_bad r v r.warn || as_bad r v r.poor

  abbrev pub past_poor : Rule fl.Float → Option fl.Float → Bool
  past_poor r none = false
  past_poor r (some v) = as_bad r v r.poor

  -- The band of a rule, good where there is no figure.
  abbrev pub band_at : Rule fl.Float → Option fl.Float → ℕ
  band_at r none = 0
  band_at r (some v) = band_of fl r v

  unfoldable pub highest_band : List (Rule fl.Float) → ℕ
  highest_band [] = 0
  highest_band (r ∷ rs) =
      let rest = highest_band rs in if ltb rest (band_at r r.value) then band_at r r.value else rest

  -- The problems of the rules that are not in the good band, in their order.
  unfoldable pub problems_of : List (Rule fl.Float) → List Problem
  problems_of [] = []
  problems_of (r ∷ rs) =
      let rest = problems_of rs in if leb 1 (band_at r r.value) then r.problem ∷ rest else rest

  tally_rule_lem :
      (r : Rule fl.Float) (o : Option fl.Float) (t : Tally fl.Float)
      → ((tally_rule fl r o t).problems
          ≡ t.problems ++ (if leb 1 (band_at r o) then r.problem ∷ [] else []))
        × ((tally_rule fl r o t).worst_band
            ≡ (if ltb t.worst_band (band_at r o) then band_at r o else t.worst_band))
  tally_rule_lem r none t = ground (arith, append-nil t.problems)
  tally_rule_lem r (some v) t = ground (arith, append-nil t.problems)

  pub tally_lem :
      (rs : List (Rule fl.Float)) (t : Tally fl.Float)
      → ((tally fl rs t).problems ≡ t.problems ++ problems_of rs)
        × ((tally fl rs t).worst_band
            ≡ (if ltb t.worst_band (highest_band rs) then highest_band rs else t.worst_band))
  unfolding tally highest_band problems_of
  tally_lem [] t = ground (arith, append-nil t.problems)
  tally_lem (r ∷ rs) t = ground (
    arith,
    tally_rule_lem r r.value t,
    tally_lem rs (tally_rule fl r r.value t),
    append_assoc t.problems (r.problem ∷ []) (problems_of rs),
    append-nil t.problems,
  )

  band_at_le : (r : Rule fl.Float) (o : Option fl.Float) → band_at r o ≤ 2
  unfolding band_of band band_low
  band_at_le r none = omega arith
  band_at_le r (some v) = ground arith

  pub highest_band_lem :
      (rs : List (Rule fl.Float))
      → (highest_band rs ≤ 2) × (problems_of rs ≡ [] → highest_band rs ≡ 0)
  unfolding highest_band problems_of
  highest_band_lem [] = ground arith
  highest_band_lem (r ∷ rs) = ground (arith, highest_band_lem rs, band_at_le r r.value)

  band-noticed : (r : Rule fl.Float) (o : Option fl.Float) → band_at r o ≡ 0 → noticed r o ≡ false
  unfolding band_of band band_low
  band-noticed r none h = refl
  band-noticed r (some v) h = ground arith

  band-past_poor :
      (r : Rule fl.Float) (o : Option fl.Float) → past_poor r o ≡ true → band_at r o ≡ 2
  unfolding band_of band band_low
  band-past_poor r none h = cc
  band-past_poor r (some v) h = ground arith

  highest-noticed :
      (rs : List (Rule fl.Float))
      → highest_band rs ≡ 0
      → All (λ r. noticed r r.value ≡ false) rs × (problems_of rs ≡ [])
  unfolding highest_band problems_of
  highest-noticed [] h = (tt, refl)
  highest-noticed (r ∷ rs) h =
      let here : band_at r r.value ≡ 0 = ground arith in
      let rest = highest-noticed rs (ground arith) in
      ((band-noticed r r.value here, rest.0), ground (arith, here, rest.1))

  highest-past_poor :
      (rs : List (Rule fl.Float)) → highest_band rs ≤ 1 → All (λ r. past_poor r r.value ≡ false) rs
  unfolding highest_band
  highest-past_poor [] h = tt
  highest-past_poor (r ∷ rs) h =
      let rest = highest-past_poor rs (ground arith) in
      elim (Bool-cases (past_poor r r.value)) [
        | inl past ↦ let two = band-past_poor r r.value past in absurd (ground (arith, two))
        | inr clear ↦ (clear, rest)
      ]

-- A verdict is good only if no figure has reached its warning threshold, and then names no problem;
-- and it is other than poor only if no figure has reached its poor threshold. This holds for any
-- figures and thresholds, whatever the score is.
pub eval_rules-good :
    (fl : Floats) (rs : List (Rule fl.Float)) (cfg : Config fl.Float)
    → ((eval_rules fl rs cfg).status ≡ good
        → All (λ r. noticed fl r r.value ≡ false) rs × ((eval_rules fl rs cfg).problems ≡ []))
      × (((eval_rules fl rs cfg).status ≡ poor) ⊎ All (λ r. past_poor fl r r.value ≡ false) rs)
unfolding eval_rules worst status_from_band status_from_score
eval_rules-good fl rs cfg =
    let t0 : Tally fl.Float = record { score = fl.of_ℕ 100; problems = []; worst_band = 0 } in
    let t = tally_lem fl rs t0 in
    let bound = highest_band_lem fl rs in
    (
      λ h.
          let zero_band : highest_band fl rs ≡ 0 = ground (arith, t, bound) in
          let none_there = highest-noticed fl rs zero_band in (none_there.0, t.0 ∙ none_there.1),
      elim (Bool-cases (leb (highest_band fl rs) 1)) [
        | inl low ↦ inr (highest-past_poor fl rs (ground arith))
        | inr high ↦ inl (ground (arith, t, bound))
      ],
    )
