-- ===== src/Quality/Analyzer.antt =====
-- internal/quality/analyzer.go: the verdict for one stream over its window. The rounded figures of
-- the map `Metrics` are not modelled: they are shown and not read.
pub mod Plain
pub mod Verdict
use pulse_rtc.Prelude.{
  ℕ, zero, suc, ◌+◌, ◌-◌, ◌*◌, ◌≤◌, ◌<◌, ◌≡◌, ◌≢◌, ◌↔◌, ◌⊎◌, inl, inr, refl, sym, ap, ◌∙◌, Bool,
  true, false, ◌&&◌, ◌||◌, not, Option, none, some, List, [], ◌∷◌, ◌++◌, map, String, arith, ltb,
  leb, ◌==◌, if◌then◌else◌, Bool-cases, Option-cases, length, length-append, take, drop, Eq, ◌=?◌,
  string_eq, All, All-append, is_some,
}
use pulse_rtc.Prelude.Float.{Floats}
use pulse_rtc.Quality.Status.{Status, unknown, poor, worst}
use pulse_rtc.Quality.Score.{
  band, band_low, penalty, penalty_low, clamp_score, status_from_score, status_from_band,
}
use pulse_rtc.Quality.Window.{Kind, audio, video, connection, Derived}

pub data Problem : Type 0 where
  high_packet_loss high_jitter high_rtt low_bitrate low_fps high_frame_drop : Problem
  connection_unstable track_disabled : Problem

pub record Analysis : Type 0 where
  pub status : Status
  pub score : ℕ
  pub problems : List Problem

pub record MediaThresholds (F : Type 0) : Type 0 where
  pub loss_warn : F
  pub loss_poor : F
  pub jitter_warn : F
  pub jitter_poor : F
  pub rtt_warn : F
  pub rtt_poor : F
  pub bitrate_warn : F
  pub bitrate_poor : F
  pub fps_warn : F
  pub fps_poor : F
  pub frame_drop_warn : F
  pub frame_drop_poor : F

-- `Config`, without the sampling interval, which nothing reads.
pub record Config (F : Type 0) : Type 0 where
  pub window_samples : ℕ
  pub history_size : ℕ
  pub degrade_samples : ℕ
  pub recover_samples : ℕ
  pub good_score : ℕ
  pub warning_score : ℕ
  pub audio : MediaThresholds F
  pub video : MediaThresholds F
  pub connection : MediaThresholds F

pub record Rule (F : Type 0) : Type 0 where
  pub problem : Problem
  pub value : Option F
  pub warn : F
  pub poor : F
  pub pen : ℕ
  pub lower_worse : Bool

abbrev pub rule : {F : Type 0} → Problem → Option F → F → F → ℕ → Bool → Rule F
rule problem value warn bad pen lower_worse = record {
  problem = problem;
  value = value;
  warn = warn;
  poor = bad;
  pen = pen;
  lower_worse = lower_worse;
}

-- What the loop of `evalRules` keeps.
pub record Tally (F : Type 0) : Type 0 where
  pub score : F
  pub problems : List Problem
  pub worst_band : ℕ

module _ (fl : Floats) where
  abbrev pub thresholds : Config fl.Float → Kind → MediaThresholds fl.Float
  thresholds cfg audio = cfg.audio
  thresholds cfg video = cfg.video
  thresholds cfg connection = cfg.connection

  unfoldable pub media_rules :
      Kind → Derived fl.Float → MediaThresholds fl.Float → List (Rule fl.Float)
  media_rules k d t =
      let rules : List (Rule fl.Float) =
        rule high_packet_loss d.loss_pct t.loss_warn t.loss_poor 45 false
        ∷ rule high_jitter d.jitter_ms t.jitter_warn t.jitter_poor 25 false
        ∷ rule high_rtt d.rtt_ms t.rtt_warn t.rtt_poor 25 false
        ∷ rule low_bitrate d.bitrate_bps t.bitrate_warn t.bitrate_poor 30 true
        ∷ [] in
      elim k [
        | video ↦
            rules
            ++ (rule low_fps d.fps t.fps_warn t.fps_poor 30 true
                ∷ rule high_frame_drop d.frame_drop_pct t.frame_drop_warn t.frame_drop_poor 25 false
                ∷ [])
        | audio ↦ rules
        | connection ↦ rules
      ]

  unfoldable pub band_of : Rule fl.Float → fl.Float → ℕ
  band_of r v = if r.lower_worse then band_low fl v r.warn r.poor else band fl v r.warn r.poor

  unfoldable pub penalty_of : Rule fl.Float → fl.Float → fl.Float
  penalty_of r v =
      if r.lower_worse
      then penalty_low fl v r.warn r.poor (fl.of_ℕ r.pen)
      else penalty fl v r.warn r.poor (fl.of_ℕ r.pen)

  -- One round of the loop, for a rule whose figure is there.
  abbrev pub tally_value : Rule fl.Float → fl.Float → Tally fl.Float → Tally fl.Float
  tally_value r v t =
      let b = band_of r v in
      record {
        score = fl.sub t.score (penalty_of r v);
        problems = if leb 1 b then t.problems ++ (r.problem ∷ []) else t.problems;
        worst_band = if ltb t.worst_band b then b else t.worst_band;
      }

  abbrev pub tally_rule : Rule fl.Float → Option fl.Float → Tally fl.Float → Tally fl.Float
  tally_rule r none t = t
  tally_rule r (some v) t = tally_value r v t

  unfoldable pub tally : List (Rule fl.Float) → Tally fl.Float → Tally fl.Float
  tally [] t = t
  tally (r ∷ rs) t = tally rs (tally_rule r r.value t)

  unfoldable pub eval_rules : List (Rule fl.Float) → Config fl.Float → Analysis
  eval_rules rules cfg =
      let t = tally rules (record { score = fl.of_ℕ 100; problems = []; worst_band = 0 }) in
      let s = clamp_score fl t.score in
      record {
        status =
            worst (status_from_score cfg.good_score cfg.warning_score s)
              (status_from_band t.worst_band);
        score = s;
        problems = t.problems;
      }

  unfoldable pub connection_rules :
      Derived fl.Float → MediaThresholds fl.Float → List (Rule fl.Float)
  connection_rules d t =
      rule high_rtt d.rtt_ms t.rtt_warn t.rtt_poor 35 false
      ∷ rule high_packet_loss d.loss_pct t.loss_warn t.loss_poor 45 false
      ∷ rule high_jitter d.jitter_ms t.jitter_warn t.jitter_poor 25 false
      ∷ []

  unfoldable pub analyze_connection : Derived fl.Float → Config fl.Float → Analysis
  analyze_connection d cfg =
      if not (d.conn_state =? "") && not (d.conn_state =? "connected")
      then (record { status = poor; score = 0; problems = connection_unstable ∷ [] })
      else if (d.ice_state =? "disconnected") || (d.ice_state =? "failed")
      then (record { status = poor; score = 10; problems = connection_unstable ∷ [] })
      else eval_rules (connection_rules d cfg.connection) cfg

  unfoldable pub analyze : Kind → Derived fl.Float → Config fl.Float → Analysis
  analyze k d cfg =
      if not d.has_data
      then (record { status = unknown; score = 0; problems = [] })
      else if not d.enabled
      then (record { status = unknown; score = 0; problems = track_disabled ∷ [] })
      else elim k [
        | connection ↦ analyze_connection d cfg
        | audio ↦ eval_rules (media_rules audio d (thresholds cfg audio)) cfg
        | video ↦ eval_rules (media_rules video d (thresholds cfg video)) cfg
      ]
