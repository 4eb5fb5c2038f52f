-- ===== src/Cluster/MediaSession/Accounting.antt =====
-- internal/cluster/media_session.go: every forwarder that was attached is detached once, where no
-- call of `addForwarder` is overtaken.
use pulse_rtc.Prelude.{
  ℕ, suc, ◌+◌, ◌≡◌, inl, inr, refl, sym, ap, ◌∙◌, Bool, true, false, Option, none, some, List, [],
  ◌∷◌, ◌++◌, String, arith, ◌==◌, if◌then◌else◌, Bool-cases, ◌=?◌, string_eq,
}
use pulse_rtc.Prelude.Map.{Map, lookup, insert, delete, Distinct, insert-Distinct, delete-Distinct}
use mathlib.Core.List.{append_assoc}
use mathlib.Core.Path.{subst}
use pulse_rtc.Cluster.MediaSession.{
  closed, RemoteTrack, Event, detach, handle_closed, conn_closed, on_close, handle_rtp, handle_rtcp,
  closing, end_track, MediaSession, new_media_session, detaching, add_forwarder, remove_forwarder,
  add_track, ending, remove_track, detach_all, end_all, close, Op, add_forwarder_op,
  store_forwarder_op, store_forwarder, store_picked, pick, add_over, remove_forwarder_op,
  add_track_op, remove_track_op, close_op, step, run,
}

-- How often a detach function was called, is held, and was handed over.
abbrev pub called : ℕ → List Event → ℕ
called d [] = 0
called d (detach e ∷ es) = if e == d then suc (called d es) else called d es
called d (handle_closed _ ∷ es) = called d es
called d (conn_closed ∷ es) = called d es
called d (on_close ∷ es) = called d es
called d (handle_rtp _ _ ∷ es) = called d es
called d (handle_rtcp _ _ ∷ es) = called d es

abbrev pub held : ℕ → Map String ℕ → ℕ
held d [] = 0
held d ((k, e) ∷ m) = if e == d then suc (held d m) else held d m

abbrev one_if : ℕ → Option ℕ → ℕ
one_if d none = 0
one_if d (some e) = if e == d then 1 else 0

-- A call that nothing interrupts.
pub data Call : Type 0 where
  add_call : String → ℕ → Call
  remove_call : String → Call
  add_track_call : RemoteTrack → Call
  remove_track_call : String → Call
  close_call : Call

-- Its steps.
abbrev pub ops_of : Call → List Op
ops_of (add_call k d) = add_forwarder_op k d ∷ (store_forwarder_op 0 ∷ [])
ops_of (remove_call k) = remove_forwarder_op k ∷ []
ops_of (add_track_call rt) = add_track_op rt ∷ []
ops_of (remove_track_call k) = remove_track_op k ∷ []
ops_of close_call = close_op ∷ []

unfoldable pub one_by_one : List Call → List Op
one_by_one [] = []
one_by_one (c ∷ cs) = ops_of c ++ one_by_one cs

abbrev pub added : ℕ → List Call → ℕ
added d [] = 0
added d (add_call k e ∷ cs) = if e == d then suc (added d cs) else added d cs
added d (remove_call _ ∷ cs) = added d cs
added d (add_track_call _ ∷ cs) = added d cs
added d (remove_track_call _ ∷ cs) = added d cs
added d (close_call ∷ cs) = added d cs

called-append : (d : ℕ) (xs ys : List Event) → called d (xs ++ ys) ≡ called d xs + called d ys
called-append d [] ys = omega arith
called-append d (detach e ∷ xs) ys = ground (arith, called-append d xs ys)
called-append d (handle_closed _ ∷ xs) ys = called-append d xs ys
called-append d (conn_closed ∷ xs) ys = called-append d xs ys
called-append d (on_close ∷ xs) ys = called-append d xs ys
called-append d (handle_rtp _ _ ∷ xs) ys = called-append d xs ys
called-append d (handle_rtcp _ _ ∷ xs) ys = called-append d xs ys

called-detaching : (d : ℕ) (o : Option ℕ) → called d (detaching o) ≡ one_if d o
called-detaching d none = refl
called-detaching d (some e) = refl

called-detach_all : (d : ℕ) (m : Map String ℕ) → called d (detach_all m) ≡ held d m
unfolding detach_all
called-detach_all d [] = refl
called-detach_all d ((k, e) ∷ m) = ground (arith, called-detach_all d m)

called-closing : (d : ℕ) (o : Option ℕ) → called d (closing o) ≡ 0
called-closing d none = refl
called-closing d (some h) = refl

called-end_track : (d : ℕ) (rt : RemoteTrack) → called d (end_track rt).1 ≡ 0
unfolding end_track
called-end_track d rt = ground (arith, called-closing d rt.handle)

called-ending : (d : ℕ) (o : Option RemoteTrack) → called d (ending o) ≡ 0
called-ending d none = refl
called-ending d (some rt) = called-end_track d rt

called-end_all : (d : ℕ) (m : Map String RemoteTrack) → called d (end_all m) ≡ 0
unfolding end_all
called-end_all d [] = refl
called-end_all d ((k, rt) ∷ m) =
    omega (
      arith,
      called-append d (end_track rt).1 (end_all m),
      called-end_track d rt,
      called-end_all d m,
    )

pub held-insert :
    (d e : ℕ) (k : String) (m : Map String ℕ)
    → held d (insert k e m) + one_if d (lookup k m) ≡ held d m + one_if d (some e)
unfolding insert lookup
held-insert d e k [] = ground arith
held-insert d e k ((j, x) ∷ m) = elim (Bool-cases (j =? k)) [
  | inl q ↦ rw q (ground arith)
  | inr q ↦ rw q (ground (arith, held-insert d e k m))
]

held-absent :
    (d : ℕ) (k : String) (m : Map String ℕ) → lookup k m ≡ none → held d (delete k m) ≡ held d m
unfolding delete lookup
held-absent d k [] h = refl
held-absent d k ((j, x) ∷ m) h = ground (arith, held-absent d k m)

held-delete :
    (d : ℕ) (k : String) (m : Map String ℕ)
    → Distinct m
    → held d (delete k m) + one_if d (lookup k m) ≡ held d m
unfolding delete lookup
held-delete d k [] n = omega arith
held-delete d k ((j, x) ∷ m) n =
    ground (arith, string_eq.beq_iff j k, held-absent d k m, held-delete d k m n.1, n.0)

run-append :
    (xs ys : List Op) (s : MediaSession)
    → run (xs ++ ys) s ≡ (let r = run xs s in let t = run ys r.0 in (t.0, r.1 ++ t.1))
unfolding run
run-append [] ys s = refl
run-append (x ∷ xs) ys s =
    let r = step x s in
    let e = run-append xs ys r.0 in
    ap (λ (t : MediaSession × List Event). (t.0, r.1 ++ t.1)) e
    ∙ ap (λ (es : List Event). ((run ys (run xs r.0).0).0, es))
        (sym (append_assoc r.1 (run xs r.0).1 (run ys (run xs r.0).0).1))

-- No call is under way, and the session accounts for `a` functions `d` more than `s` holds.
abbrev Accounts : ℕ → ℕ → MediaSession → MediaSession × List Event → Type 0
Accounts d a s r =
    Distinct r.0.forwarders
    × (r.0.adding ≡ [])
    × (held d r.0.forwarders + called d r.1 ≡ held d s.forwarders + a)

if-Accounts :
    (d a : ℕ) (s : MediaSession) (b : Bool) (x y : MediaSession × List Event)
    → Accounts d a s x
    → Accounts d a s y
    → Accounts d a s (if b then x else y)
if-Accounts d a s true x y hx hy = hx
if-Accounts d a s false x y hx hy = hy

-- An addition that nothing interrupts.
add_over-held :
    (d : ℕ) (k : String) (e : ℕ) (s : MediaSession) (o : Option ℕ)
    → lookup k s.forwarders ≡ o
    → Distinct s.forwarders
    → s.adding ≡ []
    → let r = add_over k e s o in
      Accounts d (one_if d (some e)) s (store_forwarder 0 r.0, r.1 ++ ([] ++ []))
unfolding store_forwarder
add_over-held d k e s none h n q =
    let t : MediaSession = record s { forwarders = insert k e s.forwarders } in
    subst
      (λ x.
        Accounts d (one_if d (some e)) s (store_picked (record t { adding = x }) (pick 0 x), []))
      (sym q)
      (unfold pick in
        (
          insert-Distinct k e s.forwarders n,
          refl,
          omega (arith, held-insert d e k s.forwarders, ap (one_if d) h),
        ))
add_over-held d k e s (some old) h n q =
    subst
      (λ x. Accounts d (one_if d (some e)) s (
        store_picked (record s { adding = x ++ ((k, e) ∷ []) }) (pick 0 (x ++ ((k, e) ∷ []))),
        detach old ∷ [],
      ))
      (sym q)
      (unfold pick in
        (
          insert-Distinct k e s.forwarders n,
          refl,
          ground (arith, held-insert d e k s.forwarders, ap (one_if d) h),
        ))

-- One call accounts for what it is handed, what the session holds and what is called.
call-held :
    (d : ℕ) (c : Call) (s : MediaSession)
    → Distinct s.forwarders
    → s.adding ≡ []
    → Accounts d (added d (c ∷ [])) s (run (ops_of c) s)
unfolding run step add_forwarder remove_forwarder add_track remove_track close
call-held d (add_call k e) s n q = add_over-held d k e s (lookup k s.forwarders) refl n q
call-held d (remove_call k) s n q = (
  delete-Distinct k s.forwarders n,
  q,
  ground (
    arith,
    held-delete d k s.forwarders n,
    called-detaching d (lookup k s.forwarders),
    called-append d (detaching (lookup k s.forwarders)) [],
  ),
)
call-held d (add_track_call rt) s n q = (n, q, omega arith)
call-held d (remove_track_call k) s n q = (
  n,
  q,
  omega
      (arith, called-ending d (lookup k s.tracks), called-append d (ending (lookup k s.tracks)) []),
)
call-held d close_call s n q =
    let shut : MediaSession = record s {
      state = closed;
      forwarders = [];
      tracks = [];
      close_done = true;
    } in
    let es = detach_all s.forwarders ++ (end_all s.tracks ++ (conn_closed ∷ (on_close ∷ []))) in
    let r : MediaSession × List Event = if s.close_done then (s, []) else (shut, es) in
    let one : Accounts d 0 s r =
      if-Accounts d 0 s s.close_done (s, []) (shut, es) (n, q, omega arith)
        (
          tt,
          q,
          omega (
            arith,
            called-append d (detach_all s.forwarders)
                (end_all s.tracks ++ (conn_closed ∷ (on_close ∷ []))),
            called-append d (end_all s.tracks) (conn_closed ∷ (on_close ∷ [])),
            called-detach_all d s.forwarders,
            called-end_all d s.tracks,
          ),
        ) in
    (one.0, one.1, omega (arith, one.2, called-append d r.1 []))

added-cons : (d : ℕ) (c : Call) (cs : List Call) → added d (c ∷ cs) ≡ added d (c ∷ []) + added d cs
added-cons d (add_call k e) cs = ground arith
added-cons d (remove_call _) cs = omega arith
added-cons d (add_track_call _) cs = omega arith
added-cons d (remove_track_call _) cs = omega arith
added-cons d close_call cs = omega arith

run-held :
    (d : ℕ) (cs : List Call) (s : MediaSession)
    → Distinct s.forwarders
    → s.adding ≡ []
    → held d (run (one_by_one cs) s).0.forwarders + called d (run (one_by_one cs) s).1
      ≡ held d s.forwarders + added d cs
unfolding one_by_one
run-held d [] s n q = unfold run in omega arith
run-held d (c ∷ cs) s n q =
    let r = run (ops_of c) s in
    let h = call-held d c s n q in
    rw (run-append (ops_of c) (one_by_one cs) s) (
      omega (
        arith,
        called-append d r.1 (run (one_by_one cs) r.0).1,
        h.2,
        run-held d cs r.0 h.0 h.1,
        added-cons d c cs,
      ))

-- Where no call is interrupted by another: whatever forwarders are attached to a session and
-- removed from it, replaced by another for the same publication or dropped by closing, in any
-- order, each detach function has been called as often as it was handed over, less the times that
-- the session still holds it.
pub run-new-held :
    (d : ℕ) (cs : List Call)
    → held d (run (one_by_one cs) new_media_session).0.forwarders
        + called d (run (one_by_one cs) new_media_session).1
      ≡ added d cs
run-new-held d cs = omega (arith, run-held d cs new_media_session tt refl)
