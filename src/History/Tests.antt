-- ===== src/History/Tests.antt =====
-- internal/history: runs on concrete calls.
use pulse_rtc.Prelude.{
  ℕ, ◌+◌, ◌≡◌, refl, true, false, some, List, [], ◌∷◌, String, arith, string_eq,
}
use pulse_rtc.Prelude.Map.{lookup, insert}
use pulse_rtc.Prelude.Map.{Values}
use pulse_rtc.History.Recorder.{
  good, poor, quality_degraded, quality_recovered, RoomSummary, new_recorder, new_participant, gone,
  ensure_room, participant_joined, joined_found, join_room, participant_left, left_found,
  leave_room,
}
use pulse_rtc.History.Recorder.Presence.{
  Op, ensure_op, join_op, leave_op, run, step, Counted, run-new-Counted,
}
use pulse_rtc.History.Recorder.Durations.{Recorded, events, total, total-gone}

abbrev ops : List Op
ops =
    ensure_op 0 1 0 "r"
    ∷ (join_op 1 "r" "ann" "Ann" false
        ∷ (join_op 2 "r" "bob" "Bob" false
            ∷ (join_op 3 "r" "ann" "" true ∷ (leave_op 4 "r" "bob" ∷ []))))

peak_of : List (String × RoomSummary) → List (ℕ × ℕ)
peak_of [] = []
peak_of ((k, rs) ∷ m) = (rs.active_count, rs.participants_peak) ∷ peak_of m

peaks : peak_of (run ops new_recorder).rooms ≡ (1, 2) ∷ []
unfolding run step ensure_room participant_joined joined_found join_room participant_left left_found
    leave_room lookup insert peak_of
peaks = refl

run-new-Counted_example : Values Counted (run ops new_recorder).rooms
run-new-Counted_example = run-new-Counted ops

abbrev drops : List Recorded
drops =
    record { at = 7; ev = quality_degraded; reason = "LOSS"; status = some poor }
    ∷ (record { at = 9; ev = quality_recovered; reason = ""; status = some good } ∷ [])

total-gone_example :
    total (gone 20 (events drops (new_participant 5 "ann" "Ann")))
    ≡ total (new_participant 5 "ann" "Ann") + 15
total-gone_example =
    total-gone 5 20 drops (new_participant 5 "ann" "Ann") refl refl
      (omega arith, (omega arith, omega arith))
