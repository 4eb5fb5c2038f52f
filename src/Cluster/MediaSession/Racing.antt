-- ===== src/Cluster/MediaSession/Racing.antt =====
-- internal/cluster/media_session.go: `addForwarder` against itself and against `Close`.
use pulse_rtc.Prelude.{
  ℕ, ◌≡◌, ◌≢◌, ap, ◌∙◌, Bool, true, none, some, List, [], ◌∷◌, ◌++◌, String, arith, if◌then◌else◌,
  string_eq,
}
use pulse_rtc.Prelude.Map.{lookup, insert, lookup-insert_self}
use pulse_rtc.Cluster.MediaSession.{
  closed, Event, detach, conn_closed, on_close, MediaSession, add_forwarder, add_over,
  store_forwarder, pick, detach_all, end_all, close, Op, add_forwarder_op, store_forwarder_op,
  close_op, step, run,
}
use pulse_rtc.Cluster.MediaSession.Accounting.{held, held-insert}

-- Two calls of `addForwarder` for one publication, the second before the first has stored.
abbrev pub racing : String → ℕ → ℕ → List Op
racing k d e =
    add_forwarder_op k d
    ∷ (add_forwarder_op k e ∷ (store_forwarder_op 0 ∷ (store_forwarder_op 0 ∷ [])))

run-racing :
    (s : MediaSession) (k : String) (old d e : ℕ)
    → lookup k s.forwarders ≡ some old
    → s.adding ≡ []
    → run (racing k d e) s ≡ (
      record s { forwarders = insert k e (insert k d s.forwarders); adding = [] },
      detach old ∷ (detach old ∷ []),
    )
unfolding run step add_forwarder store_forwarder pick
run-racing s k old d e h q =
    let stores : List Op = store_forwarder_op 0 ∷ (store_forwarder_op 0 ∷ []) in
    let then_ : List Event → List Op → MediaSession × List Event → MediaSession × List Event =
      λ es os r. let t = run os r.0 in (t.0, es ++ (r.1 ++ t.1)) in
    let first : MediaSession = record s { adding = s.adding ++ ((k, d) ∷ []) } in
    let second : List (String × ℕ) → MediaSession =
      λ a. record s { adding = (a ++ ((k, d) ∷ [])) ++ ((k, e) ∷ []) } in
    ap (λ o. then_ [] (add_forwarder_op k e ∷ stores) (add_over k d s o)) h
    ∙ ap (λ o. then_ (detach old ∷ []) stores (add_over k e first o)) h
    ∙ ap (λ a. then_ (detach old ∷ []) stores (second a, detach old ∷ [])) q

-- A publication of the session has a forwarder, and two calls of `addForwarder` give it another,
-- the second before the first has stored its function. The earlier function is called twice; the
-- second caller's is kept; and the first caller's, which is another than these, is neither called
-- nor kept, so nothing can detach it any more.
pub run-racing_adds :
    (s : MediaSession) (k : String) (old d e : ℕ)
    → lookup k s.forwarders ≡ some old
    → s.adding ≡ []
    → d ≢ old
    → d ≢ e
    → let r = run (racing k d e) s in
      (r.1 ≡ detach old ∷ (detach old ∷ []))
      × (lookup k r.0.forwarders ≡ some e)
      × (held d r.0.forwarders ≡ held d s.forwarders)
run-racing_adds s k old d e h q other apart =
    let m = insert k d s.forwarders in
    let eq = run-racing s k old d e h q in
    let in_m = lookup-insert_self k d s.forwarders in
    (
      ap (λ (r : MediaSession × List Event). r.1) eq,
      ap (λ (r : MediaSession × List Event). lookup k r.0.forwarders) eq ∙ lookup-insert_self k e m,
      ap (λ (r : MediaSession × List Event). held d r.0.forwarders) eq
          ∙ ground (arith, held-insert d d k s.forwarders, held-insert d e k m, h, in_m),
    )

close_again : (s : MediaSession) → s.close_done ≡ true → close s ≡ (s, [])
unfolding close
close_again s h =
    let kept : MediaSession × List Event = (s, []) in
    let ended : MediaSession × List Event = (
      record s { state = closed; forwarders = []; tracks = []; close_done = true },
      detach_all s.forwarders ++ (end_all s.tracks ++ (conn_closed ∷ (on_close ∷ []))),
    ) in
    ap (λ (b : Bool). if b then kept else ended) h

-- A forwarder that is attached after the session was closed is kept: closing again calls nothing.
pub run-late_forwarder :
    (s : MediaSession) (k : String) (d : ℕ)
    → s.close_done ≡ true
    → lookup k s.forwarders ≡ none
    → let r = run (add_forwarder_op k d ∷ (close_op ∷ [])) s in
      (lookup k r.0.forwarders ≡ some d) × (r.1 ≡ [])
unfolding run step add_forwarder
run-late_forwarder s k d h n =
    let q : MediaSession = record s { forwarders = insert k d s.forwarders } in
    let then_ : MediaSession × List Event → MediaSession × List Event =
      λ r. let t = close r.0 in (t.0, r.1 ++ (t.1 ++ [])) in
    let e : run (add_forwarder_op k d ∷ (close_op ∷ [])) s ≡ (q, []) =
      ap (λ o. then_ (add_over k d s o)) n
      ∙ ap (λ (x : MediaSession × List Event). (x.0, [] ++ (x.1 ++ []))) (close_again q h) in
    (
      ap (λ (x : MediaSession × List Event). lookup k x.0.forwarders) e
          ∙ lookup-insert_self k d s.forwarders,
      ap (λ (x : MediaSession × List Event). x.1) e,
    )
