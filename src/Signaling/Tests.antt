-- ===== src/Signaling/Tests.antt =====
-- internal/signaling/session.go: runs on concrete sessions.
use pulse_rtc.Prelude.{ℕ, ◌≡◌, refl, true, none, some, [], ◌∷◌, String, arith, string_eq}
use pulse_rtc.Prelude.Map.{lookup, insert, delete}
use pulse_rtc.Signaling.Session.{
  Session, SessionRegistry, ResumeInfo, opened, stale_session, session_key, primary_of,
  fresh_session, open_session, mark_recovering, recovering, update_sub_intent, with_session,
  with_found, resumed, stale, handle_session_resume, get,
}
use pulse_rtc.Signaling.Session.Generations.{mark_op, run}
use pulse_rtc.Signaling.Session.Fencing.{run_fenced}
use pulse_rtc.Signaling.Session.Recovery.{restored, open_session-mark_recovering}

abbrev key : String
key = session_key "ann" "r1"

abbrev ann : Session
ann = record (fresh_session 0 "s1" "ann" "r1" "c1" "n1") { generation = 3 }

abbrev bob : Session
bob = record (fresh_session 0 "s2" "bob" "r1" "c2" "n1") {
  state = recovering;
  recovery_started_at = some 1;
}

abbrev registry : SessionRegistry
registry = record { by_phys = ("c1", ann) ∷ (("c2", bob) ∷ []); primary = (key, "c1") ∷ [] }

abbrev claim : ℕ → ResumeInfo
claim g = record { session_id = "s1"; generation = g }

subscriptions :
    (get "ann" "r1"
        (update_sub_intent "ann" "r1" (record { publication_id = "p9"; enabled = true }) registry)
      ≡ some (record ann {
        subscribe = ("p9", record { publication_id = "p9"; enabled = true }) ∷ [];
      }))
    × (handle_session_resume true "ann" "r1" (some (claim 2)) registry ≡ stale)
    × (handle_session_resume true "ann" "r1" (some (claim 3)) registry ≡ resumed "s1")
unfolding get primary_of update_sub_intent with_session with_found lookup insert
    handle_session_resume
subscriptions = (refl, refl, refl)

run_fenced_example :
    let u =
      run
        (mark_op 6 "c7" ∷ [])
        (open_session 5 "s9" "ann" "r1" "c7" "n2" (some (claim 3)) registry).0 in
    open_session 7 "s10" "ann" "r1" "c8" "n3" (some (claim 3)) u ≡ (u, stale_session)
unfolding primary_of lookup delete
run_fenced_example =
    run_fenced 5 "s9" "ann" "r1" "c7" "n2" (claim 3) registry "c1" ann (mark_op 6 "c7" ∷ []) 7 "s10"
      "ann" "r1" "c8" "n3" 3 refl refl (ground (arith, string_eq.beq_iff "s2" "s1"), tt) (tt, tt)
      (omega arith) (omega arith)

open_session-mark_recovering_example :
    let o =
      open_session 9 "s9" "ann" "r1" "c7" "n2"
        (some (claim 3))
        (mark_recovering 5 "c1" registry).0 in
    (o.1
      ≡ opened (record {
        session = restored 9 "c7" "n2" ann;
        kick = none;
        reconnected = true;
        recovery_dur = 4;
      }))
    × (primary_of key o.0 ≡ some ("c7", restored 9 "c7" "n2" ann))
unfolding primary_of lookup
open_session-mark_recovering_example =
    open_session-mark_recovering 5 9 "s9" "ann" "r1" "c7" "n2" (claim 3) registry "c1" ann refl refl
      refl
