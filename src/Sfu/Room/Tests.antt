-- ===== src/Sfu/Room/Tests.antt =====
-- internal/sfu/core_room.go: runs on concrete rooms.
use pulse_rtc.Prelude.{
  ℕ, ◌≡◌, refl, Bool, true, false, none, some, List, [], ◌∷◌, String, arith, length, string_eq,
}
use pulse_rtc.Prelude.Map.{lookup, insert}
use pulse_rtc.Sfu.Room.{
  Pub, Member, SfuRoom, new_room, new_member, join, on_track, publish_as, on_publication_added,
  announce, maybe_auto_subscribe, subscribe_to, on_publication_removed,
}
use pulse_rtc.Sfu.Room.Authorization.{Op, join_op, track_op, run, step, AllAllowed, run-new-Allowed}
use pulse_rtc.Sfu.Room.Retirement.{on_publication_removed_lem}

abbrev any_track : String → String → Bool
any_track a b = true

abbrev ops : List Op
ops =
    join_op "ann" true true
    ∷ (join_op "bob" false true
        ∷ (join_op "cat" true false ∷ (track_op "ann" "p1" ∷ (track_op "bob" "p2" ∷ []))))

subscribers : List (String × Member) → List (String × ℕ)
subscribers [] = []
subscribers ((k, m) ∷ ms) = (k, length m.subscriptions) ∷ subscribers ms

who_receives :
    subscribers (run any_track ops new_room).participants
    ≡ ("ann", 0) ∷ (("bob", 1) ∷ (("cat", 0) ∷ []))
unfolding subscribers run step join on_track publish_as on_publication_added announce
    maybe_auto_subscribe subscribe_to lookup insert
who_receives = refl

run-new-Allowed_example : AllAllowed (run any_track ops new_room)
run-new-Allowed_example = run-new-Allowed any_track ops

abbrev p1 : Pub
p1 = record { id = "p1"; participant_id = "ann" }

abbrev p2 : Pub
p2 = record { id = "p2"; participant_id = "cat" }

abbrev bob : Member
bob = record (new_member "bob" true true) { subscriptions = ("p1", p1) ∷ (("p2", p2) ∷ []) }

abbrev room : SfuRoom
room = record {
  participants = ("ann", new_member "ann" true true) ∷ (("bob", bob) ∷ []);
  remote_pubs = [];
}

on_publication_removed_lem_example :
    (n : Member) × (lookup "bob" (on_publication_removed p1 room).0.participants ≡ some n)
    × (lookup "p1" n.subscriptions ≡ none)
    × (lookup "p2" n.subscriptions ≡ some p2)
unfolding lookup
on_publication_removed_lem_example =
    on_publication_removed_lem p1 room "bob" "p2" bob refl
      (ground (arith, string_eq.beq_iff "bob" "ann")) (ground (arith, string_eq.beq_iff "p2" "p1"))
