-- ===== src/Quality/Engine/Events.antt =====
-- The events of a stream tell the changes of its stable status.
use pulse_rtc.Prelude.{length-drop}
use pulse_rtc.Prelude.{
  ℕ, ◌-◌, ◌≤◌, ◌<◌, ◌≡◌, ◌≢◌, ◌↔◌, ◌⊎◌, inl, inr, refl, sym, ◌∙◌, true, false, ◌&&◌, not, some,
  List, [], ◌∷◌, arith, Bool-cases, length, string_eq,
}
use pulse_rtc.Prelude.Float.{Floats}
use pulse_rtc.Cluster.Node.{Time}
use pulse_rtc.Quality.Status.{Status, unknown, good, warning, poor, rank, is, observe}
use pulse_rtc.Quality.Window.{Kind, push, mean_with}
use pulse_rtc.Quality.Analyzer.{Analysis, Config, analyze}
use pulse_rtc.Quality.Engine.{
  Sample, derive, degraded, recovered, event_type, Event, make_event, StreamState, cut_history,
  apply_verdict, ingest_stream,
}

-- An event is called `degraded` exactly if both statuses are known and the new one is worse; it is
-- called `recovered` exactly if the old one is known and not better than good, and the new one is
-- good.
pub event_type_lem :
    (old new : Status)
    → ((event_type old new ≡ degraded) ↔ ((old ≢ unknown) × (rank old < rank new)))
      × ((event_type old new ≡ recovered) ↔ ((old ≢ unknown) × (new ≡ good)))
unfolding event_type
event_type_lem unknown new = ground arith
event_type_lem good unknown = ground arith
event_type_lem good good = ground arith
event_type_lem good warning = ground arith
event_type_lem good poor = ground arith
event_type_lem warning unknown = ground arith
event_type_lem warning good = ground arith
event_type_lem warning warning = ground arith
event_type_lem warning poor = ground arith
event_type_lem poor unknown = ground arith
event_type_lem poor good = ground arith
event_type_lem poor warning = ground arith
event_type_lem poor poor = ground arith

is_iff_same : (a b : Status) → is a b ≡ false → a ≢ b
is_iff_same a b h = λ e. let same : is b b ≡ false = rw e at h in ground arith

-- An event that tells of a change of the stable status, from one to another.
abbrev pub Tells : Status → Status → Event → Type 0
Tells old new e = (e.old ≡ old) × (e.status ≡ new) × (old ≢ new)

-- The last verdict and the history agree with the stable status.
pub record Agrees {F : Type 0} (size : ℕ) (st : StreamState F) : Type 0 where
  pub shown : st.last.status ≡ st.stab.stable
  pub bounded : length st.history ≤ size

-- What a step of a stream does: it says nothing and the stable status stays, or it tells of a
-- change.
abbrev pub Reports : {F : Type 0} → StreamState F → List Event × StreamState F → Type 0
Reports st ([], st') = st'.stab.stable ≡ st.stab.stable
Reports st (e ∷ [], st') = Tells st.stab.stable st'.stab.stable e
Reports st (e ∷ e' ∷ es, st') = ⊥

observe_cases :
    {F : Type 0} (raw : Status) (st : StreamState F)
    → (((observe raw st.stab).0.1 ≡ false)
        × ((observe raw st.stab).1.stable ≡ st.stab.stable)
        × ((observe raw st.stab).0.0 ≡ st.stab.stable))
      ⊎ (((observe raw st.stab).0.1 ≡ true)
          × ((observe raw st.stab).1.stable ≡ raw)
          × ((observe raw st.stab).0.0 ≡ raw)
          × (is raw st.stab.stable ≡ false))
unfolding observe
observe_cases raw st = ground arith

module _ (fl : Floats) where
  cut_history_le : (size : ℕ) (h : List (Time × Status)) → length (cut_history fl size h) ≤ size
  cut_history_le size h = ground (arith, length-drop (length h - size) h)

  apply_verdict_lem :
      (now : Time) (cfg : Config fl.Float) (verdict : Analysis) (st : StreamState fl.Float)
      → Agrees cfg.history_size st
      → Agrees cfg.history_size (apply_verdict fl now cfg verdict st).1
        × Reports st (apply_verdict fl now cfg verdict st)
  unfolding apply_verdict make_event
  apply_verdict_lem now cfg verdict st h = elim (observe_cases verdict.status st) [
    | inl (quiet, stays, shown) ↦
        rw (quiet, apply_verdict) (record { shown = shown ∙ sym stays; bounded = h.bounded }, stays)
    | inr (moved, now_raw, shown, other) ↦
        rw (moved, apply_verdict)
          (
            record { shown = shown ∙ sym now_raw; bounded = cut_history_le cfg.history_size _ },
            (
              refl,
              shown ∙ sym now_raw,
              λ e. is_iff_same verdict.status st.stab.stable other (sym (e ∙ now_raw)),
            ),
          )
  ]

-- In a stream whose last verdict is its stable status and whose history has at most the configured
-- length, a sample keeps both so, and returns no event with the stable status unchanged, or one
-- event that tells of the change of the stable status from the old one to a different new one.
pub ingest_stream_lem :
    (fl : Floats) (now : Time) (cfg : Config fl.Float) (kind : Kind) (s : Sample fl.Float)
    (st : StreamState fl.Float)
    → Agrees cfg.history_size st
    → Agrees cfg.history_size (ingest_stream fl now cfg kind s st).1
      × Reports st (ingest_stream fl now cfg kind s st)
unfolding ingest_stream
ingest_stream_lem fl now cfg kind s st h =
    let d = derive fl st.prev s in
    elim (Bool-cases (not d.has_data && d.enabled)) [
      | inl skipped ↦
          rw (skipped, ingest_stream) (record { shown = h.shown; bounded = h.bounded }, refl)
      | inr used ↦
          let win = push d st.win in
          rw (used, ingest_stream)
            (apply_verdict_lem fl now cfg (analyze fl kind (mean_with fl d win.buf) cfg)
              (record st { prev = some s; updated = now; win = win })
              (record { shown = h.shown; bounded = h.bounded }))
    ]
