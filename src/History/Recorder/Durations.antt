-- ===== src/History/Recorder/Durations.antt =====
-- internal/history/recorder.go: how the time of a participant is shared out among the verdicts.
use pulse_rtc.Prelude.{
  ℕ, ◌+◌, ◌-◌, ◌≤◌, ◌≡◌, refl, ap, ◌∙◌, Bool, true, Option, none, some, List, [], ◌∷◌, String,
  arith, if◌then◌else◌, string_eq,
}
use pulse_rtc.History.Recorder.{
  Label, good, warning, poor, EventType, quality_degraded, quality_recovered, other_event,
  ParticipantSummary, rejoined, add_quality, accrue_since, accrue_quality, gone, with_status,
  count_event, quality_event,
}

abbrev pub total : ParticipantSummary → ℕ
total p = p.quality_good_dur + p.quality_warning_dur + p.quality_poor_dur

total-add_quality :
    (d : ℕ) (s : Label) (p : ParticipantSummary) → total (add_quality d s p) ≡ total p + d
total-add_quality d good p = omega arith
total-add_quality d warning p = omega arith
total-add_quality d poor p = omega arith

connected-add_quality :
    (d : ℕ) (s : Label) (p : ParticipantSummary) → (add_quality d s p).connected ≡ p.connected
connected-add_quality d good p = refl
connected-add_quality d warning p = refl
connected-add_quality d poor p = refl

accrue_lem :
    (now t : ℕ) (p : ParticipantSummary)
    → p.quality_since ≡ some t
    → (total (accrue_quality now p) ≡ total p + (now - t))
      × ((accrue_quality now p).quality_since ≡ some now)
      × ((accrue_quality now p).connected ≡ p.connected)
unfolding accrue_quality
accrue_lem now t p e =
    let step = ap (accrue_since now p) e in
    (
      ap total step ∙ total-add_quality (now - t) p.quality_status p,
      ap (λ (x : ParticipantSummary). x.quality_since) step,
      ap (λ (x : ParticipantSummary). x.connected) step
          ∙ connected-add_quality (now - t) p.quality_status p,
    )

-- What an event leaves alone.
abbrev Same : ParticipantSummary → ParticipantSummary → Type 0
Same p q = (total q ≡ total p) × (q.quality_since ≡ p.quality_since) × (q.connected ≡ p.connected)

count_event-Same :
    (ev : EventType) (reason : String) (p : ParticipantSummary) → Same p (count_event ev reason p)
count_event-Same quality_degraded reason p = (refl, refl, refl)
count_event-Same quality_recovered reason p = (refl, refl, refl)
count_event-Same other_event reason p = (refl, refl, refl)

with_status-Same : (s : Option Label) (p : ParticipantSummary) → Same p (with_status s p)
with_status-Same none p = (refl, refl, refl)
with_status-Same (some s) p = (refl, refl, refl)

quality_event_lem :
    (now t : ℕ) (ev : EventType) (reason : String) (s : Option Label) (p : ParticipantSummary)
    → p.quality_since ≡ some t
    → p.connected ≡ true
    → (total (quality_event now ev reason s p) ≡ total p + (now - t))
      × ((quality_event now ev reason s p).quality_since ≡ some now)
      × ((quality_event now ev reason s p).connected ≡ true)
unfolding quality_event
quality_event_lem now t ev reason s p e c =
    let a = accrue_lem now t p e in
    let q = accrue_quality now p in
    let w = with_status-Same s q in
    let k = count_event-Same ev reason (with_status s q) in
    let step =
      ap
        (λ (b : Bool).
          count_event ev reason (with_status s (if b then accrue_quality now p else p)))
        c in
    (
      ap total step ∙ k.0 ∙ w.0 ∙ a.0,
      ap (λ (x : ParticipantSummary). x.quality_since) step ∙ k.1 ∙ w.1 ∙ a.1,
      ap (λ (x : ParticipantSummary). x.connected) step ∙ k.2 ∙ w.2 ∙ a.2 ∙ c,
    )

-- A quality event with the time at which it is recorded.
pub record Recorded : Type 0 where
  pub at : ℕ
  pub ev : EventType
  pub reason : String
  pub status : Option Label

unfoldable pub events : List Recorded → ParticipantSummary → ParticipantSummary
events [] p = p
events (e ∷ es) p = events es (quality_event e.at e.ev e.reason e.status p)

-- The times do not go back, from `t` to `end`.
abbrev pub InOrder : ℕ → ℕ → List Recorded → Type 0
InOrder t end [] = t ≤ end
InOrder t end (e ∷ es) = (t ≤ e.at) × InOrder e.at end es

InOrder-le : (t end : ℕ) (es : List Recorded) → InOrder t end es → t ≤ end
InOrder-le t end [] h = h
InOrder-le t end (e ∷ es) h = omega (arith, h.0, InOrder-le e.at end es h.1)

-- Where a connected participant's verdict is timed from `t`, and it leaves at `end` after any
-- quality events in between, the time from `t` to `end` is shared out among the three durations,
-- with nothing lost and nothing counted twice.
pub total-gone :
    (t end : ℕ) (es : List Recorded) (p : ParticipantSummary)
    → p.quality_since ≡ some t
    → p.connected ≡ true
    → InOrder t end es
    → total (gone end (events es p)) ≡ total p + (end - t)
unfolding events
total-gone t end [] p e c h = (accrue_lem end t p e).0
total-gone t end (d ∷ es) p e c h =
    let q = quality_event_lem d.at t d.ev d.reason d.status p e c in
    let rest = total-gone d.at end es (quality_event d.at d.ev d.reason d.status p) q.1 q.2 h.1 in
    omega (arith, rest, q.0, h.0, InOrder-le d.at end es h.1)

-- A participant that joins once more while it is connected loses the time since its verdict was
-- last timed: after it leaves at `end` only the time from the second join on has been added.
pub total-rejoined :
    (now end : ℕ) (name : String) (reconnect : Bool) (es : List Recorded) (p : ParticipantSummary)
    → InOrder now end es
    → total (gone end (events es (rejoined now name reconnect p))) ≡ total p + (end - now)
total-rejoined now end name reconnect es p h =
    total-gone now end es (rejoined now name reconnect p) refl refl h
