-- ===== src/Cluster/Participants.antt =====
-- internal/cluster/routing_participant_locator.go: which node holds the session of a participant.
pub mod Counting
mod Tests
use pulse_rtc.Prelude.{
  ℕ, zero, suc, ◌+◌, ◌-◌, ◌*◌, ◌≤◌, ◌<◌, ◌≡◌, ◌≢◌, ◌↔◌, ◌⊎◌, inl, inr, refl, sym, ap, ◌∙◌, Bool,
  true, false, ◌&&◌, ◌||◌, not, Option, none, some, List, [], ◌∷◌, ◌++◌, map, String, arith, ltb,
  leb, ◌==◌, if◌then◌else◌, Bool-cases, Option-cases, length, length-append, take, drop, Eq, ◌=?◌,
  string_eq, All, All-append, is_some,
}
use pulse_rtc.Prelude.Map.{
  Map, lookup, insert, delete, lookup-insert, lookup-delete, Distinct, insert-Distinct,
  delete-Distinct, beq_self, lookup-insert_self, lookup-delete_self, map_laws, length-delete-le,
}

pub record ParticipantLocation : Type 0 where
  pub participant_id : String
  pub room_id : String
  pub node_id : String

-- The map `byID`.
abbrev pub ParticipantLocator : Type 0
ParticipantLocator = Map String ParticipantLocation

unfoldable pub register : ParticipantLocation → ParticipantLocator → ParticipantLocator
register loc p = insert loc.participant_id loc p

unfoldable pub remove : String → ParticipantLocator → ParticipantLocator
remove id p = delete id p

unfoldable pub lookup_participant : String → ParticipantLocator → Option ParticipantLocation
lookup_participant id p = lookup id p

unfoldable pub in_room : String → ParticipantLocator → List ParticipantLocation
in_room room [] = []
in_room room ((id, loc) ∷ p) =
    let rest = in_room room p in if loc.room_id =? room then loc ∷ rest else rest

unfoldable pub count_by_node : String → ParticipantLocator → ℕ
count_by_node node [] = 0
count_by_node node ((id, loc) ∷ p) =
    let rest = count_by_node node p in if loc.node_id =? node then rest + 1 else rest
