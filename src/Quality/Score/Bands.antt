-- ===== src/Quality/Score/Bands.antt =====
-- The score is a percentage.
use pulse_rtc.Prelude.{◌≤◌, ◌≡◌, true, arith, string_eq}
use pulse_rtc.Prelude.Float.{Floats}
use pulse_rtc.Quality.Score.{clamp_score}

-- Whatever the penalties leave, the score is between 0 and 100 and never falls when they leave
-- more; it is 0 if they leave nothing and 100 if they leave 100 or more.
pub clamp_score_lem :
    (fl : Floats) (a b : fl.Float)
    → (clamp_score fl a ≤ 100)
      × (fl.le a b ≡ true → clamp_score fl a ≤ clamp_score fl b)
      × (fl.le a (fl.of_ℕ 0) ≡ true → clamp_score fl a ≡ 0)
      × (fl.le (fl.of_ℕ 100) a ≡ true → clamp_score fl a ≡ 100)
unfolding clamp_score
clamp_score_lem fl a b =
    let order = fl.of_ℕ_mono 0 100 (omega arith) in
    let zero_is = fl.round-of_ℕ 0 (omega arith) in
    let top_is = fl.round-of_ℕ 100 (omega arith) in
    (
      ground (arith, fl.round_mono (fl.of_ℕ 0) (fl.of_ℕ 100), fl.round_mono a (fl.of_ℕ 100)),
      ground (
        arith,
        fl.round_mono a b,
        fl.round_mono (fl.of_ℕ 0) b,
        fl.round_mono a (fl.of_ℕ 100),
        fl.round_mono (fl.of_ℕ 0) (fl.of_ℕ 100),
        fl.le_trans (fl.of_ℕ 0) a b,
        fl.le_trans a b (fl.of_ℕ 100),
        fl.le_total (fl.of_ℕ 0) a,
        fl.le_total a (fl.of_ℕ 100),
      ),
      ground (
        arith,
        fl.round_mono a (fl.of_ℕ 0),
        fl.le_trans a (fl.of_ℕ 0) (fl.of_ℕ 100),
        fl.round_mono (fl.of_ℕ 0) a,
      ),
      ground (
        arith,
        fl.round_mono a (fl.of_ℕ 100),
        fl.round_mono (fl.of_ℕ 100) a,
        fl.le_trans (fl.of_ℕ 0) (fl.of_ℕ 100) a,
      ),
    )
