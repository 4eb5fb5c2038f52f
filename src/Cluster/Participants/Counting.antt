-- ===== src/Cluster/Participants/Counting.antt =====
-- The locations after registrations and removals.
use pulse_rtc.Prelude.{
  ℕ, ◌+◌, ◌≡◌, refl, Option, none, some, [], ◌∷◌, String, arith, if◌then◌else◌, ◌=?◌, string_eq,
}
use pulse_rtc.Prelude.Map.{lookup, insert, delete, Distinct, lookup-insert_self, lookup-delete_self}
use pulse_rtc.Cluster.Participants.{
  ParticipantLocation, ParticipantLocator, register, remove, lookup_participant, count_by_node,
}

-- 1 for a location on the node.
abbrev pub on_node : String → Option ParticipantLocation → ℕ
on_node node none = 0
on_node node (some loc) = if loc.node_id =? node then 1 else 0

count-insert :
    (node : String) (loc : ParticipantLocation) (p : ParticipantLocator)
    → count_by_node node (insert loc.participant_id loc p)
        + on_node node (lookup loc.participant_id p)
      ≡ count_by_node node p + on_node node (some loc)
unfolding count_by_node insert lookup
count-insert node loc [] = ground arith
count-insert node loc ((k, w) ∷ p) = ground (arith, count-insert node loc p)

count-absent :
    (node id : String) (p : ParticipantLocator)
    → lookup id p ≡ none
    → count_by_node node (delete id p) ≡ count_by_node node p
unfolding count_by_node delete lookup
count-absent node id [] h = refl
count-absent node id ((k, w) ∷ p) h = ground (arith, count-absent node id p)

count-delete :
    (node id : String) (p : ParticipantLocator)
    → Distinct p
    → count_by_node node (delete id p) + on_node node (lookup id p) ≡ count_by_node node p
unfolding count_by_node delete lookup
count-delete node id [] d = omega arith
count-delete node id ((k, w) ∷ p) d =
    ground (arith, string_eq.beq_iff k id, count-delete node id p d.1, count-absent node id p)

-- A registration moves a participant: the count of every node rises by one if the new location is
-- on it and falls by one if the old one, if there was one, was; a removal of a participant that
-- stands at most once takes its old location from the counts; afterwards the participant is found
-- at its new location, or nowhere.
pub count_by_node_lem :
    (node id : String) (loc : ParticipantLocation) (p : ParticipantLocator)
    → Distinct p
    → (count_by_node node (register loc p) + on_node node (lookup_participant loc.participant_id p)
        ≡ count_by_node node p + on_node node (some loc))
      × (count_by_node node (remove id p) + on_node node (lookup_participant id p)
          ≡ count_by_node node p)
      × (lookup_participant loc.participant_id (register loc p) ≡ some loc)
      × (lookup_participant id (remove id p) ≡ none)
unfolding register remove lookup_participant
count_by_node_lem node id loc p d = (
  count-insert node loc p,
  count-delete node id p d,
  lookup-insert_self loc.participant_id loc p,
  lookup-delete_self id p,
)
