-- ===== src/Quality/Engine.antt =====
-- internal/quality/engine.go, events.go, sample.go: the streams of all participants.
pub mod Events
pub mod Overall
use pulse_rtc.Prelude.{
  ℕ, zero, suc, ◌+◌, ◌-◌, ◌*◌, ◌≤◌, ◌<◌, ◌≡◌, ◌≢◌, ◌↔◌, ◌⊎◌, inl, inr, refl, sym, ap, ◌∙◌, Bool,
  true, false, ◌&&◌, ◌||◌, not, Option, none, some, List, [], ◌∷◌, ◌++◌, map, String, arith, ltb,
  leb, ◌==◌, if◌then◌else◌, Bool-cases, Option-cases, length, length-append, take, drop, Eq, ◌=?◌,
  string_eq, All, All-append, is_some,
}
use pulse_rtc.Prelude.Map.{
  Map, lookup, insert, delete, lookup-insert, lookup-delete, Distinct, insert-Distinct,
  delete-Distinct, beq_self, lookup-insert_self, lookup-delete_self, map_laws, length-delete-le,
}
use pulse_rtc.Prelude.Float.{Floats, lt}
use pulse_rtc.Cluster.Node.{Time}
use pulse_rtc.Quality.Status.{
  Status, unknown, good, warning, poor, rank, is, worst, Stabilizer, new_stabilizer, observe,
}
use pulse_rtc.Quality.Window.{
  Kind, audio, video, connection, Derived, Window, new_window, push, mean_with,
}
use pulse_rtc.Quality.Analyzer.{Problem, Analysis, Config, analyze}

-- `Sample`, with its counters and figures; `at_millis` is not negative.
pub record Sample (F : Type 0) : Type 0 where
  pub at_millis : ℕ
  pub bytes_received : Option F
  pub bytes_sent : Option F
  pub packets_received : Option F
  pub packets_lost : Option F
  pub frames_decoded : Option F
  pub frames_dropped : Option F
  pub jitter_ms : Option F
  pub rtt_ms : Option F
  pub fps : Option F
  pub width : Option F
  pub height : Option F
  pub enabled : Option Bool
  pub conn_state : String
  pub ice_state : String

module _ (fl : Floats) where
  unfoldable pub delta_non_neg : Option fl.Float → Option fl.Float → Option fl.Float
  delta_non_neg none cur = none
  delta_non_neg (some pv) none = none
  delta_non_neg (some pv) (some cv) = if lt fl cv pv then none else some (fl.sub cv pv)

  -- The share of the first count in both, in percent.
  abbrev pub share : Option fl.Float → Option fl.Float → Option fl.Float
  share none b = none
  share (some a) none = none
  share (some a) (some b) =
      let total = fl.add a b in
      if lt fl (fl.of_ℕ 0) total
      then some (fl.mul (fl.div a total) (fl.of_ℕ 100))
      else some (fl.of_ℕ 0)

  abbrev pub rate_of : fl.Float → Option fl.Float → Option fl.Float → Option fl.Float
  rate_of dt none none = none
  rate_of dt none (some s) = some (fl.div (fl.mul s (fl.of_ℕ 8)) dt)
  rate_of dt (some r) _ = some (fl.div (fl.mul r (fl.of_ℕ 8)) dt)

  -- The figures that need two samples: bitrate, loss and dropped frames.
  abbrev pub interval :
      Option (Sample fl.Float)
      → Sample fl.Float
      → Option fl.Float × Option fl.Float × Option fl.Float
  interval none cur = (none, none, none)
  interval (some prev) cur =
      let dt = fl.div (fl.of_ℕ (cur.at_millis - prev.at_millis)) (fl.of_ℕ 1000) in
      if ltb prev.at_millis cur.at_millis
      then (
        rate_of dt (delta_non_neg prev.bytes_received cur.bytes_received)
            (delta_non_neg prev.bytes_sent cur.bytes_sent),
        share (delta_non_neg prev.packets_lost cur.packets_lost)
            (delta_non_neg prev.packets_received cur.packets_received),
        share (delta_non_neg prev.frames_dropped cur.frames_dropped)
            (delta_non_neg prev.frames_decoded cur.frames_decoded),
      )
      else (none, none, none)

  abbrev pub enabled_or : Option Bool → Bool
  enabled_or none = true
  enabled_or (some b) = b

  unfoldable pub derive : Option (Sample fl.Float) → Sample fl.Float → Derived fl.Float
  derive prev cur =
      let (bitrate, loss, drops) = interval prev cur in
      record {
        has_data =
            is_some loss
            || is_some bitrate
            || is_some cur.jitter_ms
            || is_some cur.rtt_ms
            || is_some cur.fps
            || not (cur.conn_state =? "");
        enabled = enabled_or cur.enabled;
        conn_state = cur.conn_state;
        ice_state = cur.ice_state;
        loss_pct = loss;
        bitrate_bps = bitrate;
        jitter_ms = cur.jitter_ms;
        rtt_ms = cur.rtt_ms;
        fps = cur.fps;
        frame_drop_pct = drops;
        width = cur.width;
        height = cur.height;
      }

pub data EventType : Type 0 where
  degraded recovered changed : EventType

unfoldable pub event_type : Status → Status → EventType
event_type old new =
    if rank old == 0
    then changed
    else if ltb (rank old) (rank new)
    then degraded
    else if is new good
    then recovered
    else changed

-- `Event`; the direction, kind and track are those of the stream.
pub record Event : Type 0 where
  pub type : EventType
  pub old : Status
  pub status : Status
  pub reason : Option Problem
  pub at : Time

abbrev pub first_problem : List Problem → Option Problem
first_problem [] = none
first_problem (p ∷ ps) = some p

unfoldable pub make_event : Status → Status → Analysis → Time → Event
unfolding event_type
make_event old new a at = record {
  type = event_type old new;
  old = old;
  status = new;
  reason = first_problem a.problems;
  at = at;
}

pub record StreamState (F : Type 0) : Type 0 where
  pub prev : Option (Sample F)
  pub win : Window F
  pub stab : Stabilizer
  pub last : Analysis
  pub history : List (Time × Status)
  pub updated : Time

module _ (fl : Floats) where
  unfoldable pub new_stream : Config fl.Float → StreamState fl.Float
  unfolding new_window new_stabilizer
  new_stream cfg = record {
    prev = none;
    win = new_window cfg.window_samples;
    stab = new_stabilizer cfg.degrade_samples cfg.recover_samples;
    last = record { status = unknown; score = 0; problems = [] };
    history = [];
    updated = 0;
  }

  abbrev pub cut_history : ℕ → List (Time × Status) → List (Time × Status)
  cut_history size h = if ltb size (length h) then drop (length h - size) h else h

  -- What `Ingest` does with a verdict.
  unfoldable pub apply_verdict :
      Time → Config fl.Float → Analysis → StreamState fl.Float → List Event × StreamState fl.Float
  apply_verdict now cfg verdict st =
      let ((stable, moved), stab) = observe verdict.status st.stab in
      let st' = record st { stab = stab; last = record verdict { status = stable } } in
      if not moved then ([], st') else (
        make_event st.stab.stable stable verdict now ∷ [],
        record st' { history = cut_history cfg.history_size (st.history ++ ((now, stable) ∷ [])) },
      )

  -- `Ingest`, for the state of the sample's stream.
  unfoldable pub ingest_stream :
      Time
      → Config fl.Float
      → Kind
      → Sample fl.Float
      → StreamState fl.Float
      → List Event × StreamState fl.Float
  ingest_stream now cfg kind s st =
      let d = derive fl st.prev s in
      let seen = record st { prev = some s; updated = now } in
      if not d.has_data && d.enabled
      then ([], seen)
      else (let win = push d seen.win in
          apply_verdict now cfg (analyze fl kind (mean_with fl d win.buf) cfg)
            (record seen { win = win }))

-- A stream of a snapshot: its kind, and its last verdict.
abbrev pub Leg : Type 0
Leg = Kind × Status

-- The loop of `overall`: the verdict of connection and audio, and that of video.
unfoldable pub combine : List Leg → Status × Status → Status × Status
combine [] b = b
combine ((audio, s) ∷ legs) (base, vid) = combine legs (worst base s, vid)
combine ((video, s) ∷ legs) (base, vid) = combine legs (base, worst vid s)
combine ((connection, s) ∷ legs) (base, vid) = combine legs (base, vid)

-- `legs` is the outbound streams and then the inbound ones.
unfoldable pub overall : Status → List Leg → Status
overall conn legs =
    let (base, vid) = combine legs (conn, unknown) in
    if is vid poor then worst base warning else worst base vid
