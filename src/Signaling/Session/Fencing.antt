-- ===== src/Signaling/Session/Fencing.antt =====
-- internal/signaling/session.go: generation fencing. A claim of an earlier generation stays
-- refused.
use pulse_rtc.Prelude.{
  ℕ, ◌≤◌, ◌≡◌, ◌≢◌, refl, sym, ap, ◌∙◌, true, false, Option, none, some, List, [], ◌∷◌, String,
  arith, string_eq, All,
}
use pulse_rtc.Prelude.Map.{Map, insert, delete, lookup-insert_self}
use pulse_rtc.Prelude.Map.{Values, insert-Values, lookup-Values}
use mathlib.Core.Option
use mathlib.Core.Path.{subst}
use pulse_rtc.Signaling.Session.{
  Session, SessionRegistry, ResumeInfo, stale_session, session_key, phys_session, primary_of,
  rebound, resume, open_session,
}
use pulse_rtc.Signaling.Session.Generations.{
  claims, open_session_stale, Later, Fenced, primary_of-lookup, Op, run, Draws, run-Fenced,
}

resume_lem :
    (now : ℕ) (key phys node_id : String) (info : ResumeInfo) (r : SessionRegistry) (p : String)
    (s : Session)
    → claims info (some (p, s)) ≡ true
    → (resume now key phys node_id info r (some (p, s))).0 ≡ record {
      by_phys = insert phys (rebound now phys node_id s) (delete p r.by_phys);
      primary = insert key phys r.primary;
    }
unfolding resume
resume_lem now key phys node_id info r p s h = ground arith

Values-map :
    (P Q : Session → Type 0) (m : Map String Session)
    → ((s : Session) → P s → Q s)
    → Values P m
    → Values Q m
Values-map P Q [] f h = tt
Values-map P Q ((k, s) ∷ m) f h = (f s h.0, Values-map P Q m f h.1)

claims-Fenced :
    (info : ResumeInfo) (r : SessionRegistry) (key : String) (o : Option (String × Session))
    → primary_of key r ≡ o
    → Fenced info.session_id info.generation r
    → info.generation ≢ 0
    → claims info o ≡ false
claims-Fenced info r key none e h n = refl
claims-Fenced info r key (some (p, s)) e h n =
    let later =
      lookup-Values (Later info.session_id info.generation) p s r.by_phys
        (primary_of-lookup key r p s e) h in
    ground (arith, string_eq.beq_iff s.session_id info.session_id, later)

-- Once a session has been resumed, where no other connection had its id, a claim of that id with a
-- generation, other than 0, up to the one that it had is stale and changes nothing, whatever
-- happens to the registry in between, as long as no fresh session draws the same id.
pub run_fenced :
    (now : ℕ) (new_id logical_id room_id phys node_id : String) (info : ResumeInfo)
    (r : SessionRegistry) (p : String) (s : Session) (os : List Op) (later : ℕ)
    (id l room phys' node : String) (g : ℕ)
    → primary_of (session_key logical_id room_id) r ≡ some (p, s)
    → claims info (some (p, s)) ≡ true
    → Values (λ t. t.session_id ≢ s.session_id) (delete p r.by_phys)
    → All (Draws s.session_id) os
    → g ≢ 0
    → g ≤ s.generation
    → let u = run os (open_session now new_id logical_id room_id phys node_id (some info) r).0 in
      open_session later id l room phys' node
        (some (record { session_id = s.session_id; generation = g }))
        u
      ≡ (u, stale_session)
unfolding open_session
run_fenced now new_id logical_id room_id phys node_id info r p s os later id l room phys' node g e c
      only d hn hg =
    let key = session_key logical_id room_id in
    let next : SessionRegistry = record {
      by_phys = insert phys (rebound now phys node_id s) (delete p r.by_phys);
      primary = insert key phys r.primary;
    } in
    let after : (open_session now new_id logical_id room_id phys node_id (some info) r).0 ≡ next =
      ap (λ o. (resume now key phys node_id info r o).0) e
      ∙ resume_lem now key phys node_id info r p s c in
    let others =
      Values-map (λ t. t.session_id ≢ s.session_id) (Later s.session_id g) (delete p r.by_phys)
        (λ t n q. absurd (n q)) only in
    let start : Fenced s.session_id g next =
      insert-Values (Later s.session_id g) phys (rebound now phys node_id s) (delete p r.by_phys)
        (λ q. omega arith) others in
    let u = run os (open_session now new_id logical_id room_id phys node_id (some info) r).0 in
    let fenced : Fenced s.session_id g u =
      run-Fenced s.session_id g os _ d (subst (λ x. Fenced s.session_id g x) (sym after) start) in
    let again : ResumeInfo = record { session_id = s.session_id; generation = g } in
    open_session_stale later id l room phys' node again u
      (claims-Fenced again u (session_key l room) _ refl fenced hn)

pub primary_of_put :
    (key phys : String) (s : Session) (m : Map String Session) (n : Map String String)
    → primary_of key (record { by_phys = insert phys s m; primary = insert key phys n })
      ≡ some (phys, s)
unfolding primary_of
primary_of_put key phys s m n =
    let r : SessionRegistry = record { by_phys = insert phys s m; primary = insert key phys n } in
    ap (phys_session r) (lookup-insert_self key phys n)
    ∙ ap (Option.map {B = String × Session} (λ t. (phys, t))) (lookup-insert_self phys s m)
