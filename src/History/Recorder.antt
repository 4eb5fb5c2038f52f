-- ===== src/History/Recorder.antt =====
-- internal/history/recorder.go and summary.go: the open summaries of rooms. Times are nanoseconds,
-- the zero time is `none`; the negotiation probe's answer and the normalised status are arguments.
-- The averages of RTT and jitter, and the log lines, are left out.
pub mod Presence
pub mod Durations
use pulse_rtc.Prelude.{
  ℕ, zero, suc, ◌+◌, ◌-◌, ◌*◌, ◌≤◌, ◌<◌, ◌≡◌, ◌≢◌, ◌↔◌, ◌⊎◌, inl, inr, refl, sym, ap, ◌∙◌, Bool,
  true, false, ◌&&◌, ◌||◌, not, Option, none, some, List, [], ◌∷◌, ◌++◌, map, String, arith, ltb,
  leb, ◌==◌, if◌then◌else◌, Bool-cases, Option-cases, length, length-append, take, drop, Eq, ◌=?◌,
  string_eq, All, All-append, is_some,
}
use pulse_rtc.Prelude.Map.{
  Map, lookup, insert, delete, lookup-insert, lookup-delete, Distinct, insert-Distinct,
  delete-Distinct, beq_self, lookup-insert_self, lookup-delete_self, map_laws, length-delete-le,
}

pub data Label : Type 0 where
  good warning poor : Label

pub data EventType : Type 0 where
  quality_degraded quality_recovered other_event : EventType

pub record ParticipantSummary : Type 0 where
  pub participant_id : String
  pub name : String
  pub first_joined_at : ℕ
  pub last_left_at : Option ℕ
  pub reconnects : ℕ
  pub quality_good_dur : ℕ
  pub quality_warning_dur : ℕ
  pub quality_poor_dur : ℕ
  pub degradation_count : ℕ
  pub degradations : Map String ℕ
  pub recoveries : ℕ
  pub last_status : Label
  pub connected : Bool
  pub quality_status : Label
  pub quality_since : Option ℕ

pub record RoomSummary : Type 0 where
  pub room_id : String
  pub started_at : ℕ
  pub ended_at : Option ℕ
  pub participants_peak : ℕ
  pub participants : Map String ParticipantSummary
  pub reconnects : ℕ
  pub negotiations_total : ℕ
  pub negotiation_failures : ℕ
  pub neg_base_start : ℕ
  pub neg_base_fail : ℕ
  pub active_count : ℕ

pub record Counters : Type 0 where
  pub summaries : ℕ
  pub reconnects : ℕ
  pub quality_degraded : ℕ
  pub quality_recovered : ℕ

pub record Recorder : Type 0 where
  pub rooms : Map String RoomSummary
  pub metrics : Counters

abbrev pub new_recorder : Recorder
new_recorder = record {
  rooms = [];
  metrics = record { summaries = 0; reconnects = 0; quality_degraded = 0; quality_recovered = 0 };
}

abbrev pub new_room : ℕ → ℕ → ℕ → String → RoomSummary
new_room now started failed room_id = record {
  room_id = room_id;
  started_at = now;
  ended_at = none;
  participants_peak = 0;
  participants = [];
  reconnects = 0;
  negotiations_total = 0;
  negotiation_failures = 0;
  neg_base_start = started;
  neg_base_fail = failed;
  active_count = 0;
}

abbrev pub open_if : RoomSummary → Recorder → Option RoomSummary → Recorder
open_if rs r none = record r { rooms = insert rs.room_id rs r.rooms }
open_if rs r (some old) = r

unfoldable pub ensure_room : ℕ → ℕ → ℕ → String → Recorder → Recorder
ensure_room now started failed room_id r =
    if room_id =? ""
    then r
    else open_if (new_room now started failed room_id) r (lookup room_id r.rooms)

abbrev pub new_participant : ℕ → String → String → ParticipantSummary
new_participant now id name = record {
  participant_id = id;
  name = name;
  first_joined_at = now;
  last_left_at = none;
  reconnects = 0;
  quality_good_dur = 0;
  quality_warning_dur = 0;
  quality_poor_dur = 0;
  degradation_count = 0;
  degradations = [];
  recoveries = 0;
  last_status = good;
  connected = true;
  quality_status = good;
  quality_since = some now;
}

abbrev pub came_back : Bool → ParticipantSummary → Bool
came_back reconnect p = reconnect || not p.connected

abbrev pub rejoined : ℕ → String → Bool → ParticipantSummary → ParticipantSummary
rejoined now name reconnect p = record p {
  name = if not (name =? "") && p.name =? "" then name else p.name;
  reconnects = if came_back reconnect p then suc p.reconnects else p.reconnects;
  last_left_at = none;
  quality_since = some now;
  connected = true;
}

-- `activeCount++` and the peak.
abbrev pub one_more : RoomSummary → RoomSummary
one_more rs = record rs {
  active_count = suc rs.active_count;
  participants_peak =
      if ltb rs.participants_peak (suc rs.active_count)
      then suc rs.active_count
      else rs.participants_peak;
}

abbrev pub put : String → ParticipantSummary → RoomSummary → RoomSummary
put id p rs = record rs { participants = insert id p rs.participants }

-- The summary, and whether a reconnect was counted.
unfoldable pub join_room :
    ℕ → String → String → Bool → RoomSummary → Option ParticipantSummary → RoomSummary × Bool
join_room now id name reconnect rs none =
    (one_more (put id (new_participant now id name) rs), false)
join_room now id name reconnect rs (some p) =
    let joined = put id (rejoined now name reconnect p) rs in
    let counted =
      if came_back reconnect p then record joined { reconnects = suc rs.reconnects } else joined in
    (if p.connected then counted else one_more counted, came_back reconnect p)

abbrev pub count_reconnect : Bool → Counters → Counters
count_reconnect b c = if b then record c { reconnects = suc c.reconnects } else c

abbrev pub store : String → RoomSummary × Bool → Recorder → Recorder
store room_id s r = record {
  rooms = insert room_id s.0 r.rooms;
  metrics = count_reconnect s.1 r.metrics;
}

unfoldable pub joined_found :
    ℕ → String → String → String → Bool → Recorder → Option RoomSummary → Recorder
joined_found now room_id id name reconnect r none = r
joined_found now room_id id name reconnect r (some rs) =
    store room_id (join_room now id name reconnect rs (lookup id rs.participants)) r

unfoldable pub participant_joined : ℕ → String → String → String → Bool → Recorder → Recorder
participant_joined now room_id id name reconnect r =
    if room_id =? "" || id =? ""
    then r
    else joined_found now room_id id name reconnect r (lookup room_id r.rooms)

abbrev pub add_quality : ℕ → Label → ParticipantSummary → ParticipantSummary
add_quality d good p = record p { quality_good_dur = p.quality_good_dur + d }
add_quality d warning p = record p { quality_warning_dur = p.quality_warning_dur + d }
add_quality d poor p = record p { quality_poor_dur = p.quality_poor_dur + d }

abbrev pub accrue_since : ℕ → ParticipantSummary → Option ℕ → ParticipantSummary
accrue_since now p none = record p { quality_since = some now }
accrue_since now p (some t) = record (add_quality (now - t) p.quality_status p) {
  quality_since = some now;
}

unfoldable pub accrue_quality : ℕ → ParticipantSummary → ParticipantSummary
accrue_quality now p = accrue_since now p p.quality_since

abbrev pub gone : ℕ → ParticipantSummary → ParticipantSummary
gone now p = record (accrue_quality now p) { connected = false; last_left_at = some now }

unfoldable pub leave_room : ℕ → String → RoomSummary → Option ParticipantSummary → RoomSummary
leave_room now id rs none = rs
leave_room now id rs (some p) =
    if not p.connected
    then rs
    else record (put id (gone now p) rs) { active_count = rs.active_count - 1 }

unfoldable pub left_found : ℕ → String → String → Recorder → Option RoomSummary → Recorder
left_found now room_id id r none = r
left_found now room_id id r (some rs) = record r {
  rooms = insert room_id (leave_room now id rs (lookup id rs.participants)) r.rooms;
}

unfoldable pub participant_left : ℕ → String → String → Recorder → Recorder
participant_left now room_id id r =
    if room_id =? "" || id =? "" then r else left_found now room_id id r (lookup room_id r.rooms)

abbrev pub with_status : Option Label → ParticipantSummary → ParticipantSummary
with_status none p = p
with_status (some s) p = record p { quality_status = s; last_status = s }

abbrev pub count_of : Option ℕ → ℕ
count_of none = 0
count_of (some n) = n

abbrev pub count_event : EventType → String → ParticipantSummary → ParticipantSummary
count_event quality_degraded reason p =
    let why = if reason =? "" then "UNKNOWN" else reason in
    record p {
      degradation_count = suc p.degradation_count;
      degradations = insert why (suc (count_of (lookup why p.degradations))) p.degradations;
    }
count_event quality_recovered reason p = record p { recoveries = suc p.recoveries }
count_event other_event reason p = p

abbrev pub count_metric : EventType → Counters → Counters
count_metric quality_degraded c = record c { quality_degraded = suc c.quality_degraded }
count_metric quality_recovered c = record c { quality_recovered = suc c.quality_recovered }
count_metric other_event c = c

unfoldable pub quality_event :
    ℕ → EventType → String → Option Label → ParticipantSummary → ParticipantSummary
quality_event now ev reason status p =
    count_event ev reason (with_status status (if p.connected then accrue_quality now p else p))

unfoldable pub event_in :
    ℕ
    → String
    → String
    → EventType
    → String
    → Option Label
    → Recorder
    → RoomSummary
    → Option ParticipantSummary
    → Recorder
event_in now room_id id ev reason status r rs none = r
event_in now room_id id ev reason status r rs (some p) = record {
  rooms = insert room_id (put id (quality_event now ev reason status p) rs) r.rooms;
  metrics = count_metric ev r.metrics;
}

unfoldable pub event_found :
    ℕ
    → String
    → String
    → EventType
    → String
    → Option Label
    → Recorder
    → Option RoomSummary
    → Recorder
event_found now room_id id ev reason status r none = r
event_found now room_id id ev reason status r (some rs) =
    event_in now room_id id ev reason status r rs (lookup id rs.participants)

unfoldable pub record_quality_event :
    ℕ → String → String → EventType → String → Option Label → Recorder → Recorder
record_quality_event now room_id id ev reason status r =
    if room_id =? "" || id =? ""
    then r
    else event_found now room_id id ev reason status r (lookup room_id r.rooms)

abbrev pub left_at : ℕ → Option ℕ → Option ℕ
left_at end none = some end
left_at end (some t) = some t

abbrev pub finalize : ℕ → ParticipantSummary → ParticipantSummary
finalize end p =
    let q = if p.connected then record (accrue_quality end p) { connected = false } else p in
    record q { last_left_at = left_at end q.last_left_at }

unfoldable pub finalize_all : ℕ → Map String ParticipantSummary → Map String ParticipantSummary
finalize_all end [] = []
finalize_all end ((id, p) ∷ ps) = (id, finalize end p) ∷ finalize_all end ps

-- The differences of the probe's answers, 0 where they are negative.
abbrev pub finalize_room : ℕ → ℕ → ℕ → RoomSummary → RoomSummary
finalize_room end started failed rs = record rs {
  ended_at = some end;
  negotiations_total = started - rs.neg_base_start;
  negotiation_failures = failed - rs.neg_base_fail;
  participants = finalize_all end rs.participants;
}

-- The recorder, and the summary that is emitted.
unfoldable pub close_found :
    ℕ → ℕ → ℕ → String → Recorder → Option RoomSummary → Recorder × Option RoomSummary
close_found end started failed room_id r none = (r, none)
close_found end started failed room_id r (some rs) = (
  record {
    rooms = delete room_id r.rooms;
    metrics = record r.metrics { summaries = suc r.metrics.summaries };
  },
  some (finalize_room end started failed rs),
)

unfoldable pub room_closed : ℕ → ℕ → ℕ → String → Recorder → Recorder × Option RoomSummary
room_closed end started failed room_id r =
    if room_id =? ""
    then (r, none)
    else close_found end started failed room_id r (lookup room_id r.rooms)
