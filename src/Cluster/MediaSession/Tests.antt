-- ===== src/Cluster/MediaSession/Tests.antt =====
-- internal/cluster/media_session.go: runs on concrete sessions.
use pulse_rtc.Prelude.{◌+◌, ◌≡◌, refl, some, List, [], ◌∷◌, string_eq, arith}
use pulse_rtc.Prelude.Map.{lookup, insert}
use pulse_rtc.Cluster.MediaSession.{
  MediaSession, detach, conn_closed, on_close, new_media_session, run, step, add_forwarder,
  store_forwarder, pick, close, detach_all, end_all,
}
use pulse_rtc.Cluster.MediaSession.Accounting.{
  held, called, Call, add_call, close_call, one_by_one, run-new-held,
}
use pulse_rtc.Cluster.MediaSession.Racing.{racing, run-racing_adds}

abbrev calls : List Call
calls = add_call "p1" 1 ∷ (add_call "p1" 2 ∷ (add_call "p2" 3 ∷ (close_call ∷ [])))

closing_run :
    (run (one_by_one calls) new_media_session).1
    ≡ detach 1 ∷ (detach 2 ∷ (detach 3 ∷ (conn_closed ∷ (on_close ∷ []))))
unfolding one_by_one run step add_forwarder store_forwarder pick close detach_all end_all lookup
    insert
closing_run = refl

run-new-held_example :
    held 2 (run (one_by_one calls) new_media_session).0.forwarders
      + called 2 (run (one_by_one calls) new_media_session).1
    ≡ 1
run-new-held_example = run-new-held 2 calls

abbrev forwarding : MediaSession
forwarding = record new_media_session { forwarders = ("p1", 1) ∷ [] }

run-racing_adds_example :
    let r = run (racing "p1" 2 3) forwarding in
    (r.1 ≡ detach 1 ∷ (detach 1 ∷ []))
    × (lookup "p1" r.0.forwarders ≡ some 3)
    × (held 2 r.0.forwarders ≡ held 2 forwarding.forwarders)
unfolding lookup
run-racing_adds_example =
    run-racing_adds forwarding "p1" 1 2 3 refl refl (λ e. absurd (omega arith))
      (λ e. absurd (omega arith))
