-- ===== src/Signaling/Session.antt =====
-- internal/signaling/session.go: the registry of logical sessions. A session object is reachable
-- from one entry of `by_phys` alone, so the entry holds its fields. Times are numbers; the zero
-- time is `none`. The id of a fresh session, which the source draws from the library of UUIDs, is
-- an argument. A registry belongs to one node: the source passes that node's id to every `Open`.
pub mod Generations
pub mod Fencing
pub mod Recovery
use Prim.Native.String.{◌++◌ as str_append}
use mathlib.Core.Option
use pulse_rtc.Prelude.{
  ℕ, zero, suc, ◌+◌, ◌-◌, ◌*◌, ◌≤◌, ◌<◌, ◌≡◌, ◌≢◌, ◌↔◌, ◌⊎◌, inl, inr, refl, sym, ap, ◌∙◌, Bool,
  true, false, ◌&&◌, ◌||◌, not, Option, none, some, List, [], ◌∷◌, ◌++◌, map, String, arith, ltb,
  leb, ◌==◌, if◌then◌else◌, Bool-cases, Option-cases, length, length-append, take, drop, Eq, ◌=?◌,
  string_eq, All, All-append, is_some,
}
use pulse_rtc.Prelude.Map.{
  Map, lookup, insert, delete, lookup-insert, lookup-delete, Distinct, insert-Distinct,
  delete-Distinct, beq_self, lookup-insert_self, lookup-delete_self, map_laws, length-delete-le,
}

pub data SessionState : Type 0 where
  connecting connected recovering reconnected closed : SessionState

abbrev pub is_connected : SessionState → Bool
is_connected connecting = false
is_connected connected = true
is_connected recovering = false
is_connected reconnected = false
is_connected closed = false

abbrev pub is_recovering : SessionState → Bool
is_recovering connecting = false
is_recovering connected = false
is_recovering recovering = true
is_recovering reconnected = false
is_recovering closed = false

abbrev pub is_closed : SessionState → Bool
is_closed connecting = false
is_closed connected = false
is_closed recovering = false
is_closed reconnected = false
is_closed closed = true

pub record TrackIntent : Type 0 where
  pub track_id : String
  pub kind : String
  pub muted : Bool

pub record SubIntent : Type 0 where
  pub publication_id : String
  pub enabled : Bool

pub record Session : Type 0 where
  pub session_id : String
  pub logical_id : String
  pub participant_id : String
  pub room_id : String
  pub node_id : String
  pub generation : ℕ
  pub state : SessionState
  pub created_at : ℕ
  pub recovery_started_at : Option ℕ
  pub reconnected_at : Option ℕ
  pub publish : Map String TrackIntent
  pub subscribe : Map String SubIntent

pub record ResumeInfo : Type 0 where
  pub session_id : String
  pub generation : ℕ

pub record SessionRegistry : Type 0 where
  pub by_phys : Map String Session
  pub primary : Map String String

abbrev pub new_session_registry : SessionRegistry
new_session_registry = record { by_phys = []; primary = [] }

-- `OpenResult`, and the stale claim; `kick` is none where the source has the empty string.
pub record OpenResult : Type 0 where
  pub session : Session
  pub kick : Option String
  pub reconnected : Bool
  pub recovery_dur : ℕ

pub data Opened : Type 0 where
  opened : OpenResult → Opened
  stale_session : Opened

abbrev pub session_key : String → String → String
session_key logical_id room_id = str_append logical_id (str_append "\0" room_id)

abbrev pub phys_session : SessionRegistry → Option String → Option (String × Session)
phys_session r none = none
phys_session r (some phys) = Option.map (λ s. (phys, s)) (lookup phys r.by_phys)

-- The physical id and the session that `primary` has under a key.
unfoldable pub primary_of : String → SessionRegistry → Option (String × Session)
primary_of key r = phys_session r (lookup key r.primary)

-- `Get`.
unfoldable pub get : String → String → SessionRegistry → Option Session
get logical_id room_id r = Option.map (λ p. p.1) (primary_of (session_key logical_id room_id) r)

abbrev pub generation_ok : ResumeInfo → Session → Bool
generation_ok info prev = not (not (info.generation == 0) && ltb info.generation prev.generation)

abbrev elapsed : ℕ → Option ℕ → ℕ
elapsed now none = 0
elapsed now (some t) = now - t

abbrev pub rebound : ℕ → String → String → Session → Session
rebound now phys node_id prev = record prev {
  generation = suc prev.generation;
  participant_id = phys;
  node_id = node_id;
  state = connected;
  reconnected_at = some now;
  recovery_started_at = none;
}

-- A resume of the session that `primary` names, if there is one.
unfoldable pub resume :
    ℕ
    → String
    → String
    → String
    → ResumeInfo
    → SessionRegistry
    → Option (String × Session)
    → SessionRegistry × Opened
resume now key phys node_id info r none = (r, stale_session)
resume now key phys node_id info r (some (prev_phys, prev)) =
    if not (prev.session_id =? info.session_id)
    then (r, stale_session)
    else if not (generation_ok info prev)
    then (r, stale_session)
    else let next = rebound now phys node_id prev in
      (
        record {
          by_phys = insert phys next (delete prev_phys r.by_phys);
          primary = insert key phys r.primary;
        },
        opened (record {
          session = next;
          kick =
              if is_connected prev.state && not (prev_phys =? phys) then some prev_phys else none;
          reconnected = true;
          recovery_dur = elapsed now prev.recovery_started_at;
        }),
      )

abbrev pub fresh_session : ℕ → String → String → String → String → String → Session
fresh_session now session_id logical_id room_id phys node_id = record {
  session_id = session_id;
  logical_id = logical_id;
  participant_id = phys;
  room_id = room_id;
  node_id = node_id;
  generation = 1;
  state = connected;
  created_at = now;
  recovery_started_at = none;
  reconnected_at = none;
  publish = [];
  subscribe = [];
}

unfoldable pub open_session :
    ℕ
    → String
    → String
    → String
    → String
    → String
    → Option ResumeInfo
    → SessionRegistry
    → SessionRegistry × Opened
open_session now session_id logical_id room_id phys node_id (some info) r =
    let key = session_key logical_id room_id in
    resume now key phys node_id info r (primary_of key r)
open_session now session_id logical_id room_id phys node_id none r =
    let s = fresh_session now session_id logical_id room_id phys node_id in
    (
      record {
        by_phys = insert phys s r.by_phys;
        primary = insert (session_key logical_id room_id) phys r.primary;
      },
      opened (record { session = s; kick = none; reconnected = false; recovery_dur = 0 }),
    )

unfoldable pub mark_found : ℕ → String → SessionRegistry → Option Session → SessionRegistry × Bool
mark_found now phys r none = (r, false)
mark_found now phys r (some cur) = if is_closed cur.state then (r, false) else (
  record r {
    by_phys =
        insert phys (record cur { state = recovering; recovery_started_at = some now }) r.by_phys;
  },
  true,
)

unfoldable pub mark_recovering : ℕ → String → SessionRegistry → SessionRegistry × Bool
mark_recovering now phys r = mark_found now phys r (lookup phys r.by_phys)

abbrev pub names : String → Option String → Bool
names phys none = false
names phys (some p) = p =? phys

-- `delete(r.primary, key)` where it is `phys`.
abbrev pub unlink : String → String → Map String String → Map String String
unlink key phys m = if names phys (lookup key m) then delete key m else m

unfoldable pub close_found : String → String → SessionRegistry → Option Session → SessionRegistry
close_found key phys r none = r
close_found key phys r (some cur) = record {
  by_phys = delete phys r.by_phys;
  primary = unlink key phys r.primary;
}

unfoldable pub close : String → String → String → SessionRegistry → SessionRegistry
close logical_id room_id phys r =
    close_found (session_key logical_id room_id) phys r (lookup phys r.by_phys)

-- `s.RecoveryStartedAt.Before(now - timeout)`, as a sum.
abbrev pub expired : ℕ → ℕ → Session → Bool
expired timeout now s =
    is_recovering s.state
    && elim s.recovery_started_at [ none ↦ true | some t ↦ ltb (t + timeout) now ]

-- The loop over the sessions; `deleted` counts.
unfoldable pub sweep_sessions :
    ℕ
    → ℕ
    → Map String Session
    → Map String String
    → ℕ
    → Map String Session × (Map String String × ℕ)
sweep_sessions timeout now [] primary n = ([], (primary, n))
sweep_sessions timeout now ((phys, s) ∷ m) primary n =
    let gone = expired timeout now s in
    let r =
      sweep_sessions timeout now m
        (if gone then unlink (session_key s.logical_id s.room_id) phys primary else primary)
        (if gone then suc n else n) in
    (if gone then r.0 else (phys, s) ∷ r.0, r.1)

unfoldable pub sweep_expired : ℕ → ℕ → SessionRegistry → SessionRegistry × ℕ
sweep_expired timeout now r =
    if timeout == 0
    then (r, 0)
    else let s = sweep_sessions timeout now r.by_phys r.primary 0 in
      (record { by_phys = s.0; primary = s.1.0 }, s.1.1)

-- `withSession`.
unfoldable pub with_found :
    (Session → Session) → SessionRegistry → Option (String × Session) → SessionRegistry
with_found f r none = r
with_found f r (some (phys, s)) = record r { by_phys = insert phys (f s) r.by_phys }

abbrev pub add_publish : TrackIntent → Session → Session
add_publish ti s =
    if ti.track_id =? "" then s else record s { publish = insert ti.track_id ti s.publish }

abbrev pub remove_publish : String → Session → Session
remove_publish track_id s = record s { publish = delete track_id s.publish }

abbrev pub change_sub : SubIntent → Session → Session
change_sub si s =
    if si.publication_id =? ""
    then s
    else if si.enabled
    then record s { subscribe = insert si.publication_id si s.subscribe }
    else record s { subscribe = delete si.publication_id s.subscribe }

unfoldable pub with_session :
    String → String → (Session → Session) → SessionRegistry → SessionRegistry
with_session logical_id room_id f r = with_found f r (primary_of (session_key logical_id room_id) r)

unfoldable pub update_publish_intent :
    String → String → TrackIntent → SessionRegistry → SessionRegistry
update_publish_intent logical_id room_id ti r = with_session logical_id room_id (add_publish ti) r

unfoldable pub remove_publish_intent : String → String → String → SessionRegistry → SessionRegistry
remove_publish_intent logical_id room_id track_id r =
    with_session logical_id room_id (remove_publish track_id) r

unfoldable pub update_sub_intent : String → String → SubIntent → SessionRegistry → SessionRegistry
update_sub_intent logical_id room_id si r = with_session logical_id room_id (change_sub si) r

-- `RoomStats` with the room's id, and `Count` with none.
abbrev pub in_scope : Option String → Session → Bool
in_scope none s = true
in_scope (some room_id) s = s.room_id =? room_id

unfoldable pub session_stats : Option String → Map String Session → ℕ × ℕ
session_stats scope [] = (0, 0)
session_stats scope ((phys, s) ∷ m) =
    let r = session_stats scope m in
    if in_scope scope s then (suc r.0, if is_recovering s.state then suc r.1 else r.1) else r

unfoldable pub room_stats : String → SessionRegistry → ℕ × ℕ
room_stats room_id r = session_stats (some room_id) r.by_phys

unfoldable pub count : SessionRegistry → ℕ × ℕ
count r = session_stats none r.by_phys

-- `handleSessionResume`, on a server with recovery; `joined` is the client's room and its identity.
pub data ResumeReply : Type 0 where
  recovery_disabled not_joined no_session stale : ResumeReply
  resumed : (session_id : String) → ResumeReply

abbrev pub resume_reply : Option ResumeInfo → Option Session → ResumeReply
resume_reply info none = no_session
resume_reply none (some s) = resumed s.session_id
resume_reply (some info) (some s) = if generation_ok info s then resumed s.session_id else stale

unfoldable pub handle_session_resume :
    Bool → String → String → Option ResumeInfo → SessionRegistry → ResumeReply
handle_session_resume enabled subject room_id info r =
    if not enabled
    then recovery_disabled
    else if room_id =? ""
    then not_joined
    else resume_reply info (get subject room_id r)
