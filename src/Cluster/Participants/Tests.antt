-- ===== src/Cluster/Participants/Tests.antt =====
-- The theorem about participant locations at a concrete input.
use pulse_rtc.Prelude.{[], ◌∷◌, String, string_eq}
use pulse_rtc.Cluster.Participants.{ParticipantLocation, ParticipantLocator}

abbrev at : String → String → ParticipantLocation
at id node = record { participant_id = id; room_id = "r"; node_id = node }

abbrev here : ParticipantLocator
here = ("p", at "p" "n") ∷ ("q", at "q" "m") ∷ []
