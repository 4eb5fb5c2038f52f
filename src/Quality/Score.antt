-- ===== src/Quality/Score.antt =====
-- internal/quality/scoring_score.go: penalties, bands and the score.
pub mod Bands
use pulse_rtc.Prelude.{
  ℕ, zero, suc, ◌+◌, ◌-◌, ◌*◌, ◌≤◌, ◌<◌, ◌≡◌, ◌≢◌, ◌↔◌, ◌⊎◌, inl, inr, refl, sym, ap, ◌∙◌, Bool,
  true, false, ◌&&◌, ◌||◌, not, Option, none, some, List, [], ◌∷◌, ◌++◌, map, String, arith, ltb,
  leb, ◌==◌, if◌then◌else◌, Bool-cases, Option-cases, length, length-append, take, drop, Eq, ◌=?◌,
  string_eq, All, All-append, is_some,
}
use pulse_rtc.Prelude.Float.{Floats, lt}
use pulse_rtc.Quality.Status.{Status, good, warning, poor}

module _ (fl : Floats) where
  unfoldable pub band : fl.Float → fl.Float → fl.Float → ℕ
  band v warn bad = if fl.le bad v then 2 else if fl.le warn v then 1 else 0

  unfoldable pub band_low : fl.Float → fl.Float → fl.Float → ℕ
  band_low v warn bad = if fl.le v bad then 2 else if fl.le v warn then 1 else 0

  unfoldable pub penalty : fl.Float → fl.Float → fl.Float → fl.Float → fl.Float
  penalty v warn bad max =
      if fl.le warn (fl.of_ℕ 0) && fl.le bad (fl.of_ℕ 0)
      then fl.of_ℕ 0
      else if fl.le v warn
      then fl.of_ℕ 0
      else if fl.le bad v
      then max
      else fl.div (fl.mul max (fl.sub v warn)) (fl.sub bad warn)

  unfoldable pub penalty_low : fl.Float → fl.Float → fl.Float → fl.Float → fl.Float
  penalty_low v warn bad max =
      if fl.le warn (fl.of_ℕ 0) && fl.le bad (fl.of_ℕ 0)
      then fl.of_ℕ 0
      else if fl.le warn v
      then fl.of_ℕ 0
      else if fl.le v bad
      then max
      else fl.div (fl.mul max (fl.sub warn v)) (fl.sub warn bad)

  -- `math.Round(math.Max(0, math.Min(100, s)))`; there is no NaN.
  unfoldable pub clamp_score : fl.Float → ℕ
  clamp_score s =
      let below : fl.Float = (if fl.le s (fl.of_ℕ 100) then s else fl.of_ℕ 100) in
      fl.round (if fl.le (fl.of_ℕ 0) below then below else fl.of_ℕ 0)

unfoldable pub status_from_score : ℕ → ℕ → ℕ → Status
status_from_score good_score warning_score score =
    if leb good_score score then good else if leb warning_score score then warning else poor

unfoldable pub status_from_band : ℕ → Status
status_from_band b = if b == 2 then poor else if b == 1 then warning else good
