-- ===== src/History/Recorder/Presence.antt =====
-- internal/history/recorder.go: the participants that are connected, and their peak.
use pulse_rtc.Prelude.{
  ℕ, ◌+◌, ◌-◌, ◌≤◌, ◌≡◌, inl, inr, refl, ◌∙◌, Bool, true, false, ◌||◌, Option, none, some, List, [],
  ◌∷◌, String, arith, if◌then◌else◌, Bool-cases, ◌=?◌, string_eq,
}
use pulse_rtc.Prelude.Map.{Map, lookup, insert}
use pulse_rtc.Prelude.Map.{Values, insert-Values, delete-Values, lookup-Values}
use pulse_rtc.History.Recorder.{
  Label, EventType, quality_degraded, quality_recovered, other_event, ParticipantSummary,
  RoomSummary, Recorder, new_recorder, new_room, open_if, ensure_room, new_participant, rejoined,
  put, join_room, joined_found, participant_joined, add_quality, accrue_since, accrue_quality, gone,
  leave_room, left_found, participant_left, with_status, count_event, quality_event, event_in,
  event_found, record_quality_event, close_found, room_closed, good, warning, poor,
}

abbrev pub here : ParticipantSummary → ℕ
here p = if p.connected then 1 else 0

abbrev pub connected_count : Map String ParticipantSummary → ℕ
connected_count [] = 0
connected_count ((id, p) ∷ ps) = here p + connected_count ps

abbrev pub was_here : Option ParticipantSummary → ℕ
was_here none = 0
was_here (some p) = here p

-- The counter is the number of those that are connected, and the peak is no less.
abbrev pub Counted : RoomSummary → Type 0
Counted rs =
    (rs.active_count ≡ connected_count rs.participants) × (rs.active_count ≤ rs.participants_peak)

connected_count-insert :
    (id : String) (p : ParticipantSummary) (ps : Map String ParticipantSummary)
    → connected_count (insert id p ps) + was_here (lookup id ps) ≡ connected_count ps + here p
unfolding insert lookup
connected_count-insert id p [] = omega arith
connected_count-insert id p ((j, q) ∷ ps) = elim (Bool-cases (j =? id)) [
  | inl e ↦ rw e (omega arith)
  | inr e ↦ rw e (omega (arith, connected_count-insert id p ps))
]

join_room-Counted :
    (now : ℕ) (id name : String) (reconnect : Bool) (rs : RoomSummary)
    (o : Option ParticipantSummary)
    → lookup id rs.participants ≡ o
    → Counted rs
    → Counted (join_room now id name reconnect rs o).0
unfolding join_room
join_room-Counted now id name reconnect rs none e h =
    let n = connected_count-insert id (new_participant now id name) rs.participants in
    ground (arith, n, e, h)
join_room-Counted now id name reconnect rs (some p) e h =
    let n = connected_count-insert id (rejoined now name reconnect p) rs.participants in
    ground (arith, n, e, h)

accrue_since-connected :
    (now : ℕ) (p : ParticipantSummary) (o : Option ℕ)
    → (accrue_since now p o).connected ≡ p.connected
accrue_since-connected now p none = refl
accrue_since-connected now p (some t) = add_quality-connected p.quality_status
  where
    add_quality-connected : (s : Label) → (add_quality (now - t) s p).connected ≡ p.connected
    add_quality-connected good = refl
    add_quality-connected warning = refl
    add_quality-connected poor = refl

leave_room-Counted :
    (now : ℕ) (id : String) (rs : RoomSummary) (o : Option ParticipantSummary)
    → lookup id rs.participants ≡ o
    → Counted rs
    → Counted (leave_room now id rs o)
unfolding leave_room
leave_room-Counted now id rs none e h = h
leave_room-Counted now id rs (some p) e h =
    let n = connected_count-insert id (gone now p) rs.participants in ground (arith, n, e, h)

open_if-Counted :
    (rs : RoomSummary) (r : Recorder) (o : Option RoomSummary)
    → Counted rs
    → Values Counted r.rooms
    → Values Counted (open_if rs r o).rooms
open_if-Counted rs r none c h = insert-Values Counted rs.room_id rs r.rooms c h
open_if-Counted rs r (some old) c h = h

joined_found-Counted :
    (now : ℕ) (room_id id name : String) (reconnect : Bool) (r : Recorder) (o : Option RoomSummary)
    → lookup room_id r.rooms ≡ o
    → Values Counted r.rooms
    → Values Counted (joined_found now room_id id name reconnect r o).rooms
unfolding joined_found
joined_found-Counted now room_id id name reconnect r none e h = h
joined_found-Counted now room_id id name reconnect r (some rs) e h =
    insert-Values Counted room_id (join_room now id name reconnect rs (lookup id rs.participants)).0
      r.rooms
      (join_room-Counted now id name reconnect rs (lookup id rs.participants) refl
        (lookup-Values Counted room_id rs r.rooms e h))
      h

left_found-Counted :
    (now : ℕ) (room_id id : String) (r : Recorder) (o : Option RoomSummary)
    → lookup room_id r.rooms ≡ o
    → Values Counted r.rooms
    → Values Counted (left_found now room_id id r o).rooms
unfolding left_found
left_found-Counted now room_id id r none e h = h
left_found-Counted now room_id id r (some rs) e h =
    insert-Values Counted room_id (leave_room now id rs (lookup id rs.participants)) r.rooms
      (leave_room-Counted now id rs (lookup id rs.participants) refl
        (lookup-Values Counted room_id rs r.rooms e h))
      h

count_event-connected :
    (ev : EventType) (reason : String) (p : ParticipantSummary)
    → (count_event ev reason p).connected ≡ p.connected
count_event-connected quality_degraded reason p = refl
count_event-connected quality_recovered reason p = refl
count_event-connected other_event reason p = refl

with_status-connected :
    (s : Option Label) (p : ParticipantSummary) → (with_status s p).connected ≡ p.connected
with_status-connected none p = refl
with_status-connected (some s) p = refl

quality_event-connected :
    (now : ℕ) (ev : EventType) (reason : String) (s : Option Label) (p : ParticipantSummary)
    → (quality_event now ev reason s p).connected ≡ p.connected
unfolding quality_event accrue_quality
quality_event-connected now ev reason s p =
    let q : ParticipantSummary = if p.connected then accrue_quality now p else p in
    let a : q.connected ≡ p.connected = accrued p.connected in
    count_event-connected ev reason (with_status s q) ∙ with_status-connected s q ∙ a
  where
    accrued : (b : Bool) → (if b then accrue_quality now p else p).connected ≡ p.connected
    accrued true = accrue_since-connected now p p.quality_since
    accrued false = refl

event_in-Counted :
    (now : ℕ) (room_id id : String) (ev : EventType) (reason : String) (s : Option Label)
    (r : Recorder) (rs : RoomSummary) (o : Option ParticipantSummary)
    → lookup id rs.participants ≡ o
    → Counted rs
    → Values Counted r.rooms
    → Values Counted (event_in now room_id id ev reason s r rs o).rooms
unfolding event_in
event_in-Counted now room_id id ev reason s r rs none e c h = h
event_in-Counted now room_id id ev reason s r rs (some p) e c h =
    let q = quality_event now ev reason s p in
    let n = connected_count-insert id q rs.participants in
    insert-Values Counted room_id (put id q rs) r.rooms
      (ground (arith, n, e, c, quality_event-connected now ev reason s p)) h

event_found-Counted :
    (now : ℕ) (room_id id : String) (ev : EventType) (reason : String) (s : Option Label)
    (r : Recorder) (o : Option RoomSummary)
    → lookup room_id r.rooms ≡ o
    → Values Counted r.rooms
    → Values Counted (event_found now room_id id ev reason s r o).rooms
unfolding event_found
event_found-Counted now room_id id ev reason s r none e h = h
event_found-Counted now room_id id ev reason s r (some rs) e h =
    event_in-Counted now room_id id ev reason s r rs (lookup id rs.participants) refl
      (lookup-Values Counted room_id rs r.rooms e h) h

close_found-Counted :
    (end started failed : ℕ) (room_id : String) (r : Recorder) (o : Option RoomSummary)
    → Values Counted r.rooms
    → Values Counted (close_found end started failed room_id r o).0.rooms
unfolding close_found
close_found-Counted end started failed room_id r none h = h
close_found-Counted end started failed room_id r (some rs) h =
    delete-Values Counted room_id r.rooms h

pub data Op : Type 0 where
  ensure_op : (now started failed : ℕ) → String → Op
  join_op : (now : ℕ) → (room_id id name : String) → (reconnect : Bool) → Op
  leave_op : (now : ℕ) → (room_id id : String) → Op
  event_op : (now : ℕ) → (room_id id : String) → EventType → String → Option Label → Op
  close_op : (now started failed : ℕ) → String → Op

unfoldable pub step : Op → Recorder → Recorder
step (ensure_op now started failed room_id) r = ensure_room now started failed room_id r
step (join_op now room_id id name reconnect) r = participant_joined now room_id id name reconnect r
step (leave_op now room_id id) r = participant_left now room_id id r
step (event_op now room_id id ev reason s) r = record_quality_event now room_id id ev reason s r
step (close_op now started failed room_id) r = (room_closed now started failed room_id r).0

unfoldable pub run : List Op → Recorder → Recorder
run [] r = r
run (o ∷ os) r = run os (step o r)

if-Counted :
    (b : Bool) (x y : Recorder)
    → Values Counted x.rooms
    → Values Counted y.rooms
    → Values Counted (if b then x else y).rooms
if-Counted true x y hx hy = hx
if-Counted false x y hx hy = hy

step-Counted : (o : Op) (r : Recorder) → Values Counted r.rooms → Values Counted (step o r).rooms
unfolding step ensure_room participant_joined participant_left record_quality_event room_closed
step-Counted (ensure_op now started failed room_id) r h = if-Counted (room_id =? "") r _ h (
    open_if-Counted (new_room now started failed room_id) r (lookup room_id r.rooms)
      (refl, omega arith) h)
step-Counted (join_op now room_id id name reconnect) r h =
    if-Counted (room_id =? "" || id =? "") r _ h
      (joined_found-Counted now room_id id name reconnect r (lookup room_id r.rooms) refl h)
step-Counted (leave_op now room_id id) r h =
    if-Counted (room_id =? "" || id =? "") r _ h
      (left_found-Counted now room_id id r (lookup room_id r.rooms) refl h)
step-Counted (event_op now room_id id ev reason s) r h =
    if-Counted (room_id =? "" || id =? "") r _ h
      (event_found-Counted now room_id id ev reason s r (lookup room_id r.rooms) refl h)
step-Counted (close_op now started failed room_id) r h =
    let kept = close_found-Counted now started failed room_id r (lookup room_id r.rooms) h in
    ground (arith, kept, h)

run-Counted :
    (os : List Op) (r : Recorder) → Values Counted r.rooms → Values Counted (run os r).rooms
unfolding run
run-Counted [] r h = h
run-Counted (o ∷ os) r h = run-Counted os (step o r) (step-Counted o r h)

-- After any sequence of joins, leaves, quality events, openings and closings, in whatever order and
-- with whatever repetitions, the counter of every open room is the number of its participants that
-- are connected, and its recorded peak is no less.
pub run-new-Counted : (os : List Op) → Values Counted (run os new_recorder).rooms
run-new-Counted os = run-Counted os new_recorder tt
