-- ===== src/Signaling/Session/Recovery.antt =====
-- internal/signaling/session.go: a connection that drops and comes back, or does not.
use pulse_rtc.Prelude.{
  ℕ, suc, ◌-◌, ◌≡◌, ◌≢◌, inl, inr, refl, ap, ◌∙◌, Bool, true, false, Option, none, some, [], ◌∷◌,
  String, arith, if◌then◌else◌, Bool-cases, string_eq,
}
use pulse_rtc.Prelude.Map.{Map, lookup, insert, delete, Distinct, lookup-insert_self}
use mathlib.Core.Option
use pulse_rtc.Signaling.Session.{
  connected, Session, SessionRegistry, ResumeInfo, opened, session_key, phys_session, primary_of,
  rebound, resume, open_session, mark_found, mark_recovering, unlink, expired, sweep_sessions,
  sweep_expired, is_closed, recovering,
}
use pulse_rtc.Signaling.Session.Generations.{claims, primary_of-lookup}
use pulse_rtc.Signaling.Session.Fencing.{primary_of_put}

abbrev pub parked : ℕ → Session → Session
parked now s = record s { state = recovering; recovery_started_at = some now }

mark_recovering_lem :
    (now : ℕ) (phys : String) (r : SessionRegistry) (s : Session)
    → lookup phys r.by_phys ≡ some s
    → is_closed s.state ≡ false
    → (mark_recovering now phys r).0 ≡ record r { by_phys = insert phys (parked now s) r.by_phys }
unfolding mark_recovering mark_found
mark_recovering_lem now phys r s e c =
    let keep : SessionRegistry × Bool = (r, false) in
    let put : SessionRegistry × Bool =
      (record r { by_phys = insert phys (parked now s) r.by_phys }, true) in
    ap (λ o. (mark_found now phys r o).0) e ∙ ap (λ b. (if b then keep else put).0) c

found-primary :
    (q p : String) (s : Session) (o : Option Session)
    → Option.map {B = String × Session} (λ t. (q, t)) o ≡ some (p, s)
    → q ≡ p
found-primary q p s none k = ground arith
found-primary q p s (some t) k = ground arith

phys_session-primary :
    (r : SessionRegistry) (p : String) (s : Session) (o : Option String)
    → phys_session r o ≡ some (p, s)
    → o ≡ some p
phys_session-primary r p s none k = ground arith
phys_session-primary r p s (some q) k = ap some (found-primary q p s (lookup q r.by_phys) k)

pub primary_of-primary :
    (key : String) (r : SessionRegistry) (p : String) (s : Session)
    → primary_of key r ≡ some (p, s)
    → lookup key r.primary ≡ some p
unfolding primary_of
primary_of-primary key r p s h = phys_session-primary r p s (lookup key r.primary) h

primary_of_found :
    (key p : String) (s : Session) (r : SessionRegistry)
    → lookup key r.primary ≡ some p
    → primary_of key (record r { by_phys = insert p s r.by_phys }) ≡ some (p, s)
unfolding primary_of
primary_of_found key p s r h =
    let r1 : SessionRegistry = record r { by_phys = insert p s r.by_phys } in
    ap (phys_session r1) h
    ∙ ap (Option.map {B = String × Session} (λ t. (p, t))) (lookup-insert_self p s r.by_phys)

resume-parked :
    (t1 t2 : ℕ) (key phys node_id : String) (info : ResumeInfo) (r : SessionRegistry) (p : String)
    (s : Session)
    → claims info (some (p, s)) ≡ true
    → resume t2 key phys node_id info r (some (p, parked t1 s)) ≡ (
      record {
        by_phys = insert phys (rebound t2 phys node_id s) (delete p r.by_phys);
        primary = insert key phys r.primary;
      },
      opened (record {
        session = rebound t2 phys node_id s;
        kick = none;
        reconnected = true;
        recovery_dur = t2 - t1;
      }),
    )
unfolding resume
resume-parked t1 t2 key phys node_id info r p s h = ground arith

-- The session after it is resumed: of a later generation, under the new connection and node, and
-- connected; all else is as before.
abbrev pub restored : ℕ → String → String → Session → Session
restored now phys node_id s = record s {
  generation = suc s.generation;
  participant_id = phys;
  node_id = node_id;
  state = connected;
  reconnected_at = some now;
  recovery_started_at = none;
}

-- A session that was connected drops and its client comes back with the id, under a new connection
-- and whatever the id of the node that is recorded, with no generation or with one that is not
-- earlier. The resume is granted: nobody is thrown out, the generation is one more, the declared
-- publications and subscriptions are the ones that it had, and the time that recovery took is
-- reported.
pub open_session-mark_recovering :
    (t1 t2 : ℕ) (new_id logical_id room_id phys node_id : String) (info : ResumeInfo)
    (r : SessionRegistry) (p : String) (s : Session)
    → primary_of (session_key logical_id room_id) r ≡ some (p, s)
    → is_closed s.state ≡ false
    → claims info (some (p, s)) ≡ true
    → let o =
        open_session t2 new_id logical_id room_id phys node_id
          (some info)
          (mark_recovering t1 p r).0 in
      (o.1
        ≡ opened (record {
          session = restored t2 phys node_id s;
          kick = none;
          reconnected = true;
          recovery_dur = t2 - t1;
        }))
      × (primary_of (session_key logical_id room_id) o.0 ≡ some (phys, restored t2 phys node_id s))
unfolding open_session
open_session-mark_recovering t1 t2 new_id logical_id room_id phys node_id info r p s e c k =
    let key = session_key logical_id room_id in
    let r1 : SessionRegistry = record r { by_phys = insert p (parked t1 s) r.by_phys } in
    let marked = mark_recovering_lem t1 p r s (primary_of-lookup key r p s e) c in
    let there : primary_of key r1 ≡ some (p, parked t1 s) =
      primary_of_found key p (parked t1 s) r (primary_of-primary key r p s e) in
    let all =
      ap (λ x. resume t2 key phys node_id info x (primary_of key x)) marked
      ∙ ap (resume t2 key phys node_id info r1) there
      ∙ resume-parked t1 t2 key phys node_id info r1 p s k in
    (
      ap (λ x. x.1) all,
      ap (λ x. primary_of key x.0) all
          ∙ primary_of_put key phys (rebound t2 phys node_id s) (delete p r1.by_phys) r.primary,
    )

abbrev pub survivor : ℕ → ℕ → Option Session → Option Session
survivor timeout now none = none
survivor timeout now (some s) = if expired timeout now s then none else some s

lookup-sweep_sessions :
    (timeout now : ℕ) (m : Map String Session) (primary : Map String String) (n : ℕ) (p : String)
    → Distinct m
    → lookup p (sweep_sessions timeout now m primary n).0 ≡ survivor timeout now (lookup p m)
unfolding sweep_sessions lookup
lookup-sweep_sessions timeout now [] primary n p d = refl
lookup-sweep_sessions timeout now ((q, s) ∷ m) primary n p d =
    let gone = expired timeout now s in
    let rest =
      lookup-sweep_sessions timeout now m
        (if gone then unlink (session_key s.logical_id s.room_id) q primary else primary)
        (if gone then suc n else n) p d.1 in
    let same = string_eq.beq_iff q p in
    elim (Bool-cases gone) [
      | inl g ↦ ground (arith, rest, same, d.0)
      | inr g ↦ ground (arith, rest, same, d.0)
    ]

-- After a sweep with a timeout the sessions are those that were there before, without those that
-- have been recovering for longer than the timeout, where no connection stands twice.
pub lookup-sweep_expired :
    (timeout now : ℕ) (r : SessionRegistry) (p : String)
    → timeout ≢ 0
    → Distinct r.by_phys
    → lookup p (sweep_expired timeout now r).0.by_phys ≡ survivor timeout now (lookup p r.by_phys)
unfolding sweep_expired
lookup-sweep_expired timeout now r p h d =
    ground (arith, lookup-sweep_sessions timeout now r.by_phys r.primary 0 p d)
