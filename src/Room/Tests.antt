-- ===== src/Room/Tests.antt =====
-- internal/room: runs on concrete rooms.
use pulse_rtc.Prelude.{◌<◌, ℕ, ◌≡◌, refl, none, some, [], ◌∷◌, string_eq}
use pulse_rtc.Prelude.Map.{lookup, insert, delete}
use pulse_rtc.Room.Manager.{
  Room, Manager, new_manager, add_at, remove_participant, get_or_create, create_if, add_found, add,
  new_room,
}
use pulse_rtc.Room.Manager.Membership.{managed, left_over, managed-remove_participant}
use pulse_rtc.Room.Manager.Joining.{Holds, add_at-remove_participant}

abbrev lobby : Room ℕ
lobby = record { id = "lobby"; participants = ("ann", 1) ∷ (("bob", 2) ∷ []) }

abbrev two : Manager ℕ
two = record { objects = lobby ∷ []; rooms = ("lobby", 0) ∷ [] }

abbrev one : Manager ℕ
one = record {
  objects = record { id = "lobby"; participants = ("ann", 1) ∷ [] } ∷ [];
  rooms = ("lobby", 0) ∷ [];
}

joined :
    managed "r" (
      add_at "ann" 7
        (get_or_create {V = ℕ} "r" new_manager).1
        (get_or_create {V = ℕ} "r" new_manager).0)
    ≡ some (record { id = "r"; participants = ("ann", 7) ∷ [] })
unfolding get_or_create create_if add_at add_found add lookup insert
joined = refl

managed-remove_participant_example :
    managed "lobby" (remove_participant "lobby" "bob" two) ≡ left_over "bob" lobby
unfolding lookup
managed-remove_participant_example = managed-remove_participant "lobby" "bob" two lobby refl

add_at-remove_participant_example :
    let ref = (get_or_create "lobby" one).1 in
    let u = add_at "eve" 9 ref (remove_participant "lobby" "ann" (get_or_create "lobby" one).0) in
    Holds "eve" 9 ref u
    × (managed "lobby" u ≡ none)
    × (ref < (get_or_create "lobby" u).1)
    × (managed "lobby" (get_or_create "lobby" u).0 ≡ some (new_room "lobby"))
unfolding lookup delete
add_at-remove_participant_example =
    add_at-remove_participant "lobby" "eve" "ann" 9 one
      (record { id = "lobby"; participants = ("ann", 1) ∷ [] }) refl refl
