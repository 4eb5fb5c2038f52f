-- ===== src/Cluster/Rooms/Tests.antt =====
-- Runs of the room locator, and the theorems about it at concrete inputs.
use pulse_rtc.Prelude.{◌+◌, ◌≡◌, refl, none, some, List, [], ◌∷◌, map, string_eq}
use pulse_rtc.Prelude.Map.{lookup}
use pulse_rtc.Cluster.Rooms.{RoomLocator, new_room_locator, ownership, recover_ok}
use pulse_rtc.Cluster.Rooms.View.{Op, claims, recovers, run, changes, new-IsValid, ownership-run}
use pulse_rtc.Cluster.Rooms.Race.{recover_all, answer_after, recover_all_lem}

abbrev empty : RoomLocator
empty = new_room_locator (some 0) none

abbrev history : List Op
history = claims "r" "a" ∷ recovers "r" "a" "b" ∷ claims "q" "c" ∷ recovers "r" "a" "c" ∷ []

history_owner : ownership "r" (run empty history) ≡ some ("b", 1)
history_owner =
    unfold new_room_locator in
    unfold ownership in unfold lookup in ownership-run empty history "r" (new-IsValid (some 0) none)

ownership-run_example :
    ownership "r" (run empty history) ≡ changes "r" history (ownership "r" empty)
ownership-run_example = ownership-run empty history "r" (new-IsValid (some 0) none)

abbrev owned : RoomLocator
owned = record {
  owners = ("r", "a") ∷ [];
  gens = ("r", 4) ∷ [];
  on_claim = none;
  on_conflict = some 0;
}

a_owns : ownership "r" owned ≡ some ("a", 4)
unfolding ownership lookup
a_owns = refl

recover_all_lem_example :
    ((recover_all "r" "a" ("b" ∷ "c" ∷ "b" ∷ []) owned).0
      ≡ recover_ok ∷ map (answer_after "b") ("c" ∷ "b" ∷ []))
    × (ownership "r" (recover_all "r" "a" ("b" ∷ "c" ∷ "b" ∷ []) owned).1 ≡ some ("b", 4 + 1))
recover_all_lem_example =
    recover_all_lem "r" "a" "b" 4 ("c" ∷ "b" ∷ []) owned a_owns
      (λ e. let wrong = (string_eq.beq_iff "b" "a").1 e in cc)
