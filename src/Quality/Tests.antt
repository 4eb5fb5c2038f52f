-- ===== src/Quality/Tests.antt =====
-- The theorems about quality verdicts at concrete inputs.
use pulse_rtc.Prelude.{
  ℕ, ◌≡◌, ◌↔◌, ◌⊎◌, inl, inr, All, refl, true, false, none, some, List, [], ◌∷◌, arith,
  if◌then◌else◌, string_eq,
}
use pulse_rtc.Prelude.Float.{nat_floats}
use pulse_rtc.Quality.Status.{Status, good, poor, is, need, observe}
use pulse_rtc.Quality.Status.Streak.{after, Newest, observe-after}
use pulse_rtc.Quality.Analyzer.{
  Config, MediaThresholds, Rule, high_rtt, high_jitter, low_bitrate, high_packet_loss, rule,
  eval_rules,
}
use pulse_rtc.Quality.Analyzer.Verdict.{noticed, past_poor, eval_rules-good}
use pulse_rtc.Quality.Analyzer.Plain.{IsExactScore, IsPlain, eval_rules-IsPlain}
use pulse_rtc.Quality.Engine.{Sample, new_stream}
use pulse_rtc.Quality.Engine.Events.{Agrees}

abbrev verdicts : List Status
verdicts = poor ∷ good ∷ good ∷ []

observe-after_example :
    (((observe poor (after 2 3 verdicts)).0.1 ≡ true) ↔ (
      (is poor (after 2 3 verdicts).stable ≡ false)
      × Newest (need (after 2 3 verdicts) poor) poor (poor ∷ verdicts)))
    × ((observe poor (after 2 3 verdicts)).1.stable
        ≡ (if (observe poor (after 2 3 verdicts)).0.1 then poor else (after 2 3 verdicts).stable))
    × ((observe poor (after 2 3 verdicts)).0.0 ≡ (observe poor (after 2 3 verdicts)).1.stable)
observe-after_example = observe-after 2 3 verdicts poor

abbrev limits : MediaThresholds ℕ
limits = record {
  loss_warn = 3;
  loss_poor = 8;
  jitter_warn = 30;
  jitter_poor = 60;
  rtt_warn = 200;
  rtt_poor = 400;
  bitrate_warn = 24;
  bitrate_poor = 12;
  fps_warn = 15;
  fps_poor = 8;
  frame_drop_warn = 5;
  frame_drop_poor = 15;
}

abbrev config : Config ℕ
config = record {
  window_samples = 3;
  history_size = 2;
  degrade_samples = 1;
  recover_samples = 2;
  good_score = 80;
  warning_score = 50;
  audio = limits;
  video = limits;
  connection = limits;
}

abbrev rules : List (Rule ℕ)
rules = rule high_rtt (some 500) 200 400 25 false ∷ []

eval_rules-good_example :
    ((eval_rules nat_floats rules config).status ≡ good
      → All (λ r. noticed nat_floats r r.value ≡ false) rules
        × ((eval_rules nat_floats rules config).problems ≡ []))
    × (((eval_rules nat_floats rules config).status ≡ poor)
        ⊎ All (λ r. past_poor nat_floats r r.value ≡ false) rules)
eval_rules-good_example = eval_rules-good nat_floats rules config

nat-IsExactScore : IsExactScore nat_floats
nat-IsExactScore = record { sub_num = λ a b h k. refl; sub_under = λ a b h k. ground arith }

abbrev figures : List (Rule ℕ)
figures =
    rule high_rtt (some 500) 200 400 25 false
    ∷ (rule high_jitter none 30 60 25 false
        ∷ (rule low_bitrate (some 5) 24 12 30 true
            ∷ (rule high_packet_loss (some 1) 3 8 45 false ∷ [])))

figures-IsPlain : IsPlain nat_floats figures
figures-IsPlain = (
  omega arith,
  inr (refl, refl, refl),
  (omega arith, tt, (omega arith, inr (refl, refl, refl), (omega arith, inl refl, tt))),
)

eval_rules-IsPlain_example :
    ((eval_rules nat_floats figures config).score ≡ 45)
    × ((eval_rules nat_floats figures config).problems ≡ high_rtt ∷ (low_bitrate ∷ []))
    × ((eval_rules nat_floats figures config).status ≡ poor)
eval_rules-IsPlain_example =
    eval_rules-IsPlain nat_floats figures config nat-IsExactScore figures-IsPlain (omega arith)

abbrev sample : Sample ℕ
sample = record {
  at_millis = 1000;
  bytes_received = none;
  bytes_sent = none;
  packets_received = none;
  packets_lost = none;
  frames_decoded = none;
  frames_dropped = none;
  jitter_ms = some 90;
  rtt_ms = none;
  fps = none;
  width = none;
  height = none;
  enabled = none;
  conn_state = "";
  ice_state = "";
}

new-Agrees : Agrees 2 (new_stream nat_floats config)
unfolding new_stream
new-Agrees = record { shown = refl; bounded = omega arith }
