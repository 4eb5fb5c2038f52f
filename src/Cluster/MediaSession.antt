-- ===== src/Cluster/MediaSession.antt =====
-- internal/cluster/media_session.go and media_remotetrack.go: what a media session holds for its
-- peers, and its end. A detach function is a number, and so is the handle of a mirrored
-- publication; a call of either is an event. A step is what runs between two points at which the
-- lock is free, with the calls that follow it.
pub mod Accounting
pub mod Racing
mod Tests
use pulse_rtc.Prelude.{
  ℕ, zero, suc, ◌+◌, ◌-◌, ◌*◌, ◌≤◌, ◌<◌, ◌≡◌, ◌≢◌, ◌↔◌, ◌⊎◌, inl, inr, refl, sym, ap, ◌∙◌, Bool,
  true, false, ◌&&◌, ◌||◌, not, Option, none, some, List, [], ◌∷◌, ◌++◌, map, String, arith, ltb,
  leb, ◌==◌, if◌then◌else◌, Bool-cases, Option-cases, length, length-append, take, drop, Eq, ◌=?◌,
  string_eq, All, All-append, is_some,
}
use pulse_rtc.Prelude.Map.{
  Map, lookup, insert, delete, lookup-insert, lookup-delete, Distinct, insert-Distinct,
  delete-Distinct, beq_self, lookup-insert_self, lookup-delete_self, map_laws, length-delete-le,
}

pub data SessionState : Type 0 where
  creating active closed : SessionState

pub data TrackState : Type 0 where
  track_creating track_active track_muted track_ended : TrackState

abbrev pub is_ended : TrackState → Bool
is_ended track_creating = false
is_ended track_active = false
is_ended track_muted = false
is_ended track_ended = true

-- `handle` is none where the source has nil.
pub record RemoteTrack : Type 0 where
  pub publication_id : String
  pub state : TrackState
  pub handle : Option ℕ

pub data Event : Type 0 where
  detach : ℕ → Event
  handle_closed : ℕ → Event
  conn_closed : Event
  on_close : Event
  handle_rtp : ℕ → List ℕ → Event
  handle_rtcp : ℕ → List ℕ → Event

abbrev pub closing : Option ℕ → List Event
closing none = []
closing (some h) = handle_closed h ∷ []

-- `end`.
unfoldable pub end_track : RemoteTrack → RemoteTrack × List Event
end_track rt =
    if is_ended rt.state
    then (rt, [])
    else (record rt { state = track_ended; handle = none }, closing rt.handle)

abbrev pub rtp_to : Option ℕ → List ℕ → List Event
rtp_to none pkt = []
rtp_to (some h) pkt = handle_rtp h pkt ∷ []

abbrev pub rtcp_to : Option ℕ → List ℕ → List Event
rtcp_to none pkt = []
rtcp_to (some h) pkt = handle_rtcp h pkt ∷ []

unfoldable pub write_rtp : List ℕ → RemoteTrack → List Event
write_rtp pkt rt = if is_ended rt.state then [] else rtp_to rt.handle pkt

unfoldable pub write_rtcp : List ℕ → RemoteTrack → List Event
write_rtcp pkt rt = rtcp_to rt.handle pkt

pub record MediaSession : Type 0 where
  pub state : SessionState
  pub forwarders : Map String ℕ
  pub tracks : Map String RemoteTrack
  -- The calls of `addForwarder` that have called the earlier detach function and have not yet
  -- stored their own.
  pub adding : List (String × ℕ)
  -- `closeOnce` has run.
  pub close_done : Bool

abbrev pub new_media_session : MediaSession
new_media_session = record {
  state = creating;
  forwarders = [];
  tracks = [];
  adding = [];
  close_done = false;
}

abbrev pub set_state : SessionState → MediaSession → MediaSession
set_state st s = record s { state = st }

abbrev pub detaching : Option ℕ → List Event
detaching none = []
detaching (some d) = detach d ∷ []

-- `addForwarder` up to where it takes the lock again, or all of it where nothing is replaced.
abbrev pub add_over : String → ℕ → MediaSession → Option ℕ → MediaSession × List Event
add_over pub_id d s none = (record s { forwarders = insert pub_id d s.forwarders }, [])
add_over pub_id d s (some old) =
    (record s { adding = s.adding ++ ((pub_id, d) ∷ []) }, detach old ∷ [])

unfoldable pub add_forwarder : String → ℕ → MediaSession → MediaSession × List Event
add_forwarder pub_id d s = add_over pub_id d s (lookup pub_id s.forwarders)

-- The rest of it, by one of the calls that wait for the lock.
abbrev pub keep_first :
    String × ℕ
    → Option ((String × ℕ) × List (String × ℕ))
    → Option ((String × ℕ) × List (String × ℕ))
keep_first x none = none
keep_first x (some (y, ys)) = some (y, x ∷ ys)

unfoldable pub pick : ℕ → List (String × ℕ) → Option ((String × ℕ) × List (String × ℕ))
pick n [] = none
pick zero (x ∷ xs) = some (x, xs)
pick (suc n) (x ∷ xs) = keep_first x (pick n xs)

abbrev pub store_picked : MediaSession → Option ((String × ℕ) × List (String × ℕ)) → MediaSession
store_picked s none = s
store_picked s (some ((pub_id, d), rest)) = record s {
  forwarders = insert pub_id d s.forwarders;
  adding = rest;
}

unfoldable pub store_forwarder : ℕ → MediaSession → MediaSession
store_forwarder n s = store_picked s (pick n s.adding)

unfoldable pub remove_forwarder : String → MediaSession → MediaSession × List Event
remove_forwarder pub_id s =
    (record s { forwarders = delete pub_id s.forwarders }, detaching (lookup pub_id s.forwarders))

unfoldable pub add_track : RemoteTrack → MediaSession → MediaSession
add_track rt s = record s { tracks = insert rt.publication_id rt s.tracks }

abbrev pub ending : Option RemoteTrack → List Event
ending none = []
ending (some rt) = (end_track rt).1

unfoldable pub remove_track : String → MediaSession → MediaSession × List Event
remove_track pub_id s =
    (record s { tracks = delete pub_id s.tracks }, ending (lookup pub_id s.tracks))

unfoldable pub detach_all : Map String ℕ → List Event
detach_all [] = []
detach_all ((k, d) ∷ m) = detach d ∷ detach_all m

unfoldable pub end_all : Map String RemoteTrack → List Event
end_all [] = []
end_all ((k, rt) ∷ m) = (end_track rt).1 ++ end_all m

unfoldable pub close : MediaSession → MediaSession × List Event
close s = if s.close_done then (s, []) else (
  record s { state = closed; forwarders = []; tracks = []; close_done = true },
  detach_all s.forwarders ++ (end_all s.tracks ++ (conn_closed ∷ (on_close ∷ []))),
)

pub data Op : Type 0 where
  add_forwarder_op : String → ℕ → Op
  store_forwarder_op : ℕ → Op
  remove_forwarder_op : String → Op
  add_track_op : RemoteTrack → Op
  remove_track_op : String → Op
  close_op : Op

unfoldable pub step : Op → MediaSession → MediaSession × List Event
step (add_forwarder_op k d) s = add_forwarder k d s
step (store_forwarder_op n) s = (store_forwarder n s, [])
step (remove_forwarder_op k) s = remove_forwarder k s
step (add_track_op rt) s = (add_track rt s, [])
step (remove_track_op k) s = remove_track k s
step close_op s = close s

-- The session, and all that was called, in order.
unfoldable pub run : List Op → MediaSession → MediaSession × List Event
run [] s = (s, [])
run (o ∷ os) s = let r = step o s in let t = run os r.0 in (t.0, r.1 ++ t.1)
