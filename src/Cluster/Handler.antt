-- ===== src/Cluster/Handler.antt =====
-- internal/cluster/noderpc_message.go, noderpc_handler.go: a message that comes from another node.
pub mod Acceptance
pub mod Delivery
mod Tests
use Prim.Native.String.{len}
use text.Mathlib.Text.{starts_with}
use pulse_rtc.Prelude.{
  ℕ, zero, suc, ◌+◌, ◌-◌, ◌*◌, ◌≤◌, ◌<◌, ◌≡◌, ◌≢◌, ◌↔◌, ◌⊎◌, inl, inr, refl, sym, ap, ◌∙◌, Bool,
  true, false, ◌&&◌, ◌||◌, not, Option, none, some, List, [], ◌∷◌, ◌++◌, map, String, arith, ltb,
  leb, ◌==◌, if◌then◌else◌, Bool-cases, Option-cases, length, length-append, take, drop, Eq, ◌=?◌,
  string_eq, All, All-append, is_some,
}
use pulse_rtc.Prelude.Map.{
  Map, lookup, insert, delete, lookup-insert, lookup-delete, Distinct, insert-Distinct,
  delete-Distinct, beq_self, lookup-insert_self, lookup-delete_self, map_laws, length-delete-le,
}
use pulse_rtc.Prelude.Text.{is_blank}
use pulse_rtc.Cluster.Node.{
  Time, seconds, Code, Error, error, cluster_message_invalid, cluster_message_too_large,
  cluster_message_expired, cluster_target_mismatch, participant_not_found, media_node_unavailable,
}
use pulse_rtc.Cluster.Dedup.{DedupCache, mark_seen}

-- `timestamp` is in milliseconds of Unix time; a negative one is represented by 0, which is refused
-- alike.
pub record ClusterMessage : Type 0 where
  pub type : String
  pub request_id : String
  pub source_node_id : String
  pub target_node_id : String
  pub timestamp : ℕ
  pub room_id : String
  pub participant_id : String
  pub payload : String

-- The types that are handled, with the media types that media_message.go adds.
abbrev pub known_message_types : List String
known_message_types =
    "participant.message" ∷ "participant.disconnect" ∷ "participant.control" ∷ "room.event"
    ∷ "media.session.open" ∷ "media.session.accept" ∷ "media.session.reject" ∷ "media.session.close"
    ∷ "media.subscribe" ∷ "media.subscribe.ack" ∷ "media.unsubscribe" ∷ "media.track.ended" ∷ []

pub contains : String → List String → Bool
contains s [] = false
contains s (t ∷ ts) = (t =? s) || contains s ts

-- The Unix epoch as a time, and `time.UnixMilli`.
abbrev pub unix_milli : ℕ → Time
unix_milli ms = seconds 62_135_596_800 + ms * 1_000_000

-- Both sides of the window of accepted timestamps; 0 for `max_age` is no window.
abbrev pub outside : Time → ℕ → Time → Bool
outside now max_age ts =
    not (max_age == 0) && (ltb (ts + max_age) now || ltb (now + max_age + seconds 30) ts)

unfoldable pub validate : Time → ℕ → ℕ → ClusterMessage → Option Error
unfolding contains
validate now max_age max_size m =
    if is_blank m.type || not (contains m.type known_message_types)
    then some (error cluster_message_invalid)
    else if is_blank m.request_id
    then some (error cluster_message_invalid)
    else if is_blank m.source_node_id
    then some (error cluster_message_invalid)
    else if is_blank m.target_node_id
    then some (error cluster_message_invalid)
    else if not (max_size == 0) && ltb max_size (len m.payload)
    then some (error cluster_message_too_large)
    else if m.timestamp == 0
    then some (error cluster_message_invalid)
    else if outside now max_age (unix_milli m.timestamp)
    then some (error cluster_message_expired)
    else none

-- `LocalDelivery`, an interface of the signaling layer: what its two methods answer.
pub record LocalDelivery : Type 0 where
  pub deliver_to_participant : ClusterMessage → Option Error
  pub deliver_room_event : ClusterMessage → Option Error

-- What does not change in a handler: `media` and `delivery` are `none` where the source has nil.
pub record HandlerConfig : Type 0 where
  pub self : String
  pub max_age : ℕ
  pub max_size : ℕ
  pub delivery : Option LocalDelivery
  pub media : Option (ClusterMessage → Option Error)

-- The calls that leave the handler.
pub data Call : Type 0 where
  to_participant to_room to_media : ClusterMessage → Call

abbrev pub is_participant_type : String → Bool
is_participant_type t =
    (t =? "participant.message") || (t =? "participant.control") || (t =? "participant.disconnect")

unfoldable pub to_local : Option LocalDelivery → ClusterMessage → Option Error × List Call
to_local none m = (some (error participant_not_found), [])
to_local (some d) m =
    if is_participant_type m.type
    then (d.deliver_to_participant m, to_participant m ∷ [])
    else if m.type =? "room.event"
    then (d.deliver_room_event m, to_room m ∷ [])
    else (some (error cluster_message_invalid), [])

unfoldable pub to_media_bridge :
    Option (ClusterMessage → Option Error) → ClusterMessage → Option Error × List Call
to_media_bridge none m = (some (error media_node_unavailable), [])
to_media_bridge (some media) m = (media m, to_media m ∷ [])

-- The answer, the calls that were made for it, and the cache.
unfoldable pub handle :
    Time → HandlerConfig → ClusterMessage → DedupCache → (Option Error × List Call) × DedupCache
handle now h m d = elim (validate now h.max_age h.max_size m) [
  | some e ↦ ((some e, []), d)
  | none ↦
      if not (m.target_node_id =? h.self)
      then (
        (
          some
              (record { code = cluster_target_mismatch; node_id = m.target_node_id; room_id = "" }),
          [],
        ),
        d,
      )
      else (let (seen, d') = mark_seen now m.request_id d in
          if seen
          then ((none, []), d')
          else if starts_with m.type "media."
          then (to_media_bridge h.media m, d')
          else (to_local h.delivery m, d'))
]
