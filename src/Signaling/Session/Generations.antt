-- ===== src/Signaling/Session/Generations.antt =====
-- internal/signaling/session.go: claims, and how the registry's steps keep generations apart.
use pulse_rtc.Prelude.{
  ℕ, suc, ◌<◌, ◌≡◌, ◌≢◌, inl, inr, refl, Bool, false, ◌&&◌, ◌||◌, Option, none, some, List, [], ◌∷◌,
  String, arith, leb, ◌==◌, Bool-cases, ◌=?◌, string_eq, All,
}
use pulse_rtc.Prelude.Map.{Map, lookup, delete}
use pulse_rtc.Prelude.Map.{Values, insert-Values, delete-Values, lookup-Values}
use mathlib.Core.Option
use pulse_rtc.Signaling.Session.{
  Session, SessionRegistry, ResumeInfo, stale_session, TrackIntent, SubIntent, session_key,
  phys_session, primary_of, rebound, resume, fresh_session, open_session, mark_found,
  mark_recovering, unlink, close_found, close, expired, sweep_sessions, sweep_expired, with_found,
  with_session, add_publish, remove_publish, change_sub, update_publish_intent,
  remove_publish_intent, update_sub_intent, recovering,
}

-- The claim is of the session that was found, and of no earlier generation unless it names none.
abbrev pub claims : ResumeInfo → Option (String × Session) → Bool
claims info none = false
claims info (some (p, s)) =
    s.session_id =? info.session_id && (info.generation == 0 || leb s.generation info.generation)

resume_stale :
    (now : ℕ) (key phys node_id : String) (info : ResumeInfo) (r : SessionRegistry)
    (o : Option (String × Session))
    → claims info o ≡ false
    → resume now key phys node_id info r o ≡ (r, stale_session)
unfolding resume
resume_stale now key phys node_id info r none h = refl
resume_stale now key phys node_id info r (some (p, s)) h = ground arith

-- A resume of a session that is not the one under this identity and room, or of a generation that
-- is neither 0 nor as late as that session's, is stale and changes nothing.
pub open_session_stale :
    (now : ℕ) (new_id logical_id room_id phys node_id : String) (info : ResumeInfo)
    (r : SessionRegistry)
    → claims info (primary_of (session_key logical_id room_id) r) ≡ false
    → open_session now new_id logical_id room_id phys node_id (some info) r ≡ (r, stale_session)
unfolding open_session
open_session_stale now new_id logical_id room_id phys node_id info r h =
    resume_stale now (session_key logical_id room_id) phys node_id info r
      (primary_of (session_key logical_id room_id) r) h

-- Every session with that id is of a later generation than `g`.
abbrev pub Later : String → ℕ → Session → Type 0
Later sid g s = s.session_id ≡ sid → g < s.generation

abbrev pub Fenced : String → ℕ → SessionRegistry → Type 0
Fenced sid g r = Values (Later sid g) r.by_phys

found-lookup :
    (r : SessionRegistry) (p q : String) (s : Session) (o : Option Session)
    → lookup q r.by_phys ≡ o
    → Option.map {B = String × Session} (λ s. (q, s)) o ≡ some (p, s)
    → lookup p r.by_phys ≡ some s
found-lookup r p q s none e k = ground arith
found-lookup r p q s (some t) e k = ground arith

phys_session-lookup :
    (r : SessionRegistry) (p : String) (s : Session) (o : Option String)
    → phys_session r o ≡ some (p, s)
    → lookup p r.by_phys ≡ some s
phys_session-lookup r p s none k = ground arith
phys_session-lookup r p s (some q) k = found-lookup r p q s (lookup q r.by_phys) refl k

pub primary_of-lookup :
    (key : String) (r : SessionRegistry) (p : String) (s : Session)
    → primary_of key r ≡ some (p, s)
    → lookup p r.by_phys ≡ some s
unfolding primary_of
primary_of-lookup key r p s h = phys_session-lookup r p s (lookup key r.primary) h

-- What happens to the registry. A fresh session's id is drawn for every call.
pub data Op : Type 0 where
  open_op : (now : ℕ) → (new_id logical_id room_id phys node_id : String) → Option ResumeInfo → Op
  mark_op : (now : ℕ) → String → Op
  close_op : (logical_id room_id phys : String) → Op
  sweep_op : (timeout now : ℕ) → Op
  publish_op : (logical_id room_id : String) → TrackIntent → Op
  unpublish_op : (logical_id room_id track_id : String) → Op
  subscribe_op : (logical_id room_id : String) → SubIntent → Op

unfoldable pub step : Op → SessionRegistry → SessionRegistry
step (open_op now new_id l room phys node info) r =
    (open_session now new_id l room phys node info r).0
step (mark_op now phys) r = (mark_recovering now phys r).0
step (close_op l room phys) r = close l room phys r
step (sweep_op timeout now) r = (sweep_expired timeout now r).0
step (publish_op l room ti) r = update_publish_intent l room ti r
step (unpublish_op l room track_id) r = remove_publish_intent l room track_id r
step (subscribe_op l room si) r = update_sub_intent l room si r

unfoldable pub run : List Op → SessionRegistry → SessionRegistry
run [] r = r
run (o ∷ os) r = run os (step o r)

-- The step draws no fresh session's id equal to `sid`.
abbrev pub Draws : String → Op → Type 0
Draws sid (open_op now new_id l room phys node none) = new_id ≢ sid
Draws sid (open_op now new_id l room phys node (some info)) = Unit
Draws sid (mark_op _ _) = Unit
Draws sid (close_op _ _ _) = Unit
Draws sid (sweep_op _ _) = Unit
Draws sid (publish_op _ _ _) = Unit
Draws sid (unpublish_op _ _ _) = Unit
Draws sid (subscribe_op _ _ _) = Unit

module _ (sid : String) (g : ℕ) where
  resume-Fenced :
      (now : ℕ) (key phys node : String) (info : ResumeInfo) (r : SessionRegistry)
      (o : Option (String × Session))
      → primary_of key r ≡ o
      → Fenced sid g r
      → Fenced sid g (resume now key phys node info r o).0
  unfolding resume
  resume-Fenced now key phys node info r none e h = h
  resume-Fenced now key phys node info r (some (p, s)) e h =
      let old : Later sid g s =
        lookup-Values (Later sid g) p s r.by_phys (primary_of-lookup key r p s e) h in
      let next : Later sid g (rebound now phys node s) = λ q. let k = old q in omega arith in
      let kept =
        insert-Values (Later sid g) phys (rebound now phys node s) (delete p r.by_phys) next
          (delete-Values (Later sid g) p r.by_phys h) in
      ground (arith, kept)

  mark_found-Fenced :
      (now : ℕ) (phys : String) (r : SessionRegistry) (o : Option Session)
      → lookup phys r.by_phys ≡ o
      → Fenced sid g r
      → Fenced sid g (mark_found now phys r o).0
  unfolding mark_found
  mark_found-Fenced now phys r none e h = h
  mark_found-Fenced now phys r (some s) e h =
      let kept =
        insert-Values (Later sid g) phys
          (record s { state = recovering; recovery_started_at = some now }) r.by_phys
          (lookup-Values (Later sid g) phys s r.by_phys e h) h in
      ground (arith, kept)

  close_found-Fenced :
      (key phys : String) (r : SessionRegistry) (o : Option Session)
      → Fenced sid g r
      → Fenced sid g (close_found key phys r o)
  unfolding close_found
  close_found-Fenced key phys r none h = h
  close_found-Fenced key phys r (some s) h = delete-Values (Later sid g) phys r.by_phys h

  sweep_sessions-Fenced :
      (timeout now : ℕ) (m : Map String Session) (primary : Map String String) (n : ℕ)
      → Values (Later sid g) m
      → Values (Later sid g) (sweep_sessions timeout now m primary n).0
  unfolding sweep_sessions
  sweep_sessions-Fenced timeout now [] primary n h = tt
  sweep_sessions-Fenced timeout now ((phys, s) ∷ m) primary n h =
      elim (Bool-cases (expired timeout now s)) [
        | inl q ↦ rw q (
            sweep_sessions-Fenced timeout now m
              (unlink (session_key s.logical_id s.room_id) phys primary) (suc n) h.1)
        | inr q ↦ rw q (h.0, sweep_sessions-Fenced timeout now m primary n h.1)
      ]

  with_found-Fenced :
      (f : Session → Session) (key : String) (r : SessionRegistry) (o : Option (String × Session))
      → ((s : Session) → Later sid g s → Later sid g (f s))
      → primary_of key r ≡ o
      → Fenced sid g r
      → Fenced sid g (with_found f r o)
  unfolding with_found
  with_found-Fenced f key r none k e h = h
  with_found-Fenced f key r (some (p, s)) k e h =
      insert-Values (Later sid g) p (f s) r.by_phys
        (k s (lookup-Values (Later sid g) p s r.by_phys (primary_of-lookup key r p s e) h)) h

  add_publish-Later :
      (ti : TrackIntent) (s : Session) → Later sid g s → Later sid g (add_publish ti s)
  add_publish-Later ti s h = ground (arith, h)

  change_sub-Later : (si : SubIntent) (s : Session) → Later sid g s → Later sid g (change_sub si s)
  change_sub-Later si s h = ground (arith, h)

  step-Fenced :
      (o : Op) (r : SessionRegistry) → Draws sid o → Fenced sid g r → Fenced sid g (step o r)
  unfolding step open_session mark_recovering close sweep_expired update_publish_intent
      remove_publish_intent update_sub_intent with_session
  step-Fenced (open_op now new_id l room phys node none) r d h =
      insert-Values (Later sid g) phys (fresh_session now new_id l room phys node) r.by_phys
        (λ e. absurd (d e)) h
  step-Fenced (open_op now new_id l room phys node (some info)) r d h =
      resume-Fenced now (session_key l room) phys node info r (primary_of (session_key l room) r)
        refl h
  step-Fenced (mark_op now phys) r d h = mark_found-Fenced now phys r (lookup phys r.by_phys) refl h
  step-Fenced (close_op l room phys) r d h =
      close_found-Fenced (session_key l room) phys r (lookup phys r.by_phys) h
  step-Fenced (sweep_op timeout now) r d h =
      let kept = sweep_sessions-Fenced timeout now r.by_phys r.primary 0 h in ground (arith, kept)
  step-Fenced (publish_op l room ti) r d h =
      with_found-Fenced (add_publish ti) (session_key l room) r (primary_of (session_key l room) r)
        (add_publish-Later ti) refl h
  step-Fenced (unpublish_op l room track_id) r d h =
      with_found-Fenced (remove_publish track_id) (session_key l room) r
        (primary_of (session_key l room) r) (λ s k. k) refl h
  step-Fenced (subscribe_op l room si) r d h =
      with_found-Fenced (change_sub si) (session_key l room) r (primary_of (session_key l room) r)
        (change_sub-Later si) refl h

  pub run-Fenced :
      (os : List Op) (r : SessionRegistry)
      → All (Draws sid) os
      → Fenced sid g r
      → Fenced sid g (run os r)
  unfolding run
  run-Fenced [] r d h = h
  run-Fenced (o ∷ os) r d h = run-Fenced os (step o r) d.1 (step-Fenced o r d.0 h)
