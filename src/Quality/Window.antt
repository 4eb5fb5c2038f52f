-- ===== src/Quality/Window.antt =====
-- internal/quality/history.go, sample.go: the measurements of a stream, and their mean over a
-- window.
pub mod Bounds
use pulse_rtc.Prelude.{
  ℕ, zero, suc, ◌+◌, ◌-◌, ◌*◌, ◌≤◌, ◌<◌, ◌≡◌, ◌≢◌, ◌↔◌, ◌⊎◌, inl, inr, refl, sym, ap, ◌∙◌, Bool,
  true, false, ◌&&◌, ◌||◌, not, Option, none, some, List, [], ◌∷◌, ◌++◌, map, String, arith, ltb,
  leb, ◌==◌, if◌then◌else◌, Bool-cases, Option-cases, length, length-append, take, drop, Eq, ◌=?◌,
  string_eq, All, All-append, is_some,
}
use pulse_rtc.Prelude.Float.{Floats}

pub data Kind : Type 0 where
  audio video connection : Kind

-- `Derived`: the figures of one sample. A figure is `none` where the source has nil.
pub record Derived (F : Type 0) : Type 0 where
  pub has_data : Bool
  pub enabled : Bool
  pub conn_state : String
  pub ice_state : String
  pub loss_pct : Option F
  pub bitrate_bps : Option F
  pub jitter_ms : Option F
  pub rtt_ms : Option F
  pub fps : Option F
  pub frame_drop_pct : Option F
  pub width : Option F
  pub height : Option F

pub record Window (F : Type 0) : Type 0 where
  pub buf : List (Derived F)
  pub size : ℕ

unfoldable pub new_window : {F : Type 0} → ℕ → Window F
new_window size = record { buf = []; size = if size == 0 then 1 else size }

unfoldable pub push : {F : Type 0} → Derived F → Window F → Window F
push d w =
    let buf = w.buf ++ (d ∷ []) in
    record w { buf = if ltb w.size (length buf) then drop (length buf - w.size) buf else buf }

module _ (fl : Floats) where
  -- The loop of `avg`.
  sum_of :
      (Derived fl.Float → Option fl.Float) → List (Derived fl.Float) → fl.Float → ℕ → fl.Float × ℕ
  sum_of get [] sum n = (sum, n)
  sum_of get (d ∷ ds) sum n = elim (get d) [
    | none ↦ sum_of get ds sum n
    | some v ↦ sum_of get ds (fl.add sum v) (n + 1)
  ]

  unfoldable pub avg :
      (Derived fl.Float → Option fl.Float) → List (Derived fl.Float) → Option fl.Float
  unfolding sum_of
  avg get buf =
      let (sum, n) = sum_of get buf (fl.of_ℕ 0) 0 in
      if n == 0 then none else some (fl.div sum (fl.of_ℕ n))

  -- `mean`, for a window whose last sample is `last`.
  unfoldable pub mean_with : Derived fl.Float → List (Derived fl.Float) → Derived fl.Float
  mean_with last buf = record {
    has_data = true;
    enabled = last.enabled;
    conn_state = last.conn_state;
    ice_state = last.ice_state;
    loss_pct = avg (λ d. d.loss_pct) buf;
    bitrate_bps = avg (λ d. d.bitrate_bps) buf;
    jitter_ms = avg (λ d. d.jitter_ms) buf;
    rtt_ms = avg (λ d. d.rtt_ms) buf;
    fps = avg (λ d. d.fps) buf;
    frame_drop_pct = avg (λ d. d.frame_drop_pct) buf;
    width = last.width;
    height = last.height;
  }
