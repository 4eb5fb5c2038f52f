-- ===== src/Sfu/Room/Authorization.antt =====
-- internal/sfu/core_room.go and core_participant.go: who may publish and who may subscribe.
use pulse_rtc.Prelude.{
  ◌≡◌, inl, inr, refl, ap, Bool, true, false, ◌||◌, not, Option, none, some, List, [], ◌∷◌, String,
  arith, if◌then◌else◌, Bool-cases, ◌=?◌, string_eq,
}
use pulse_rtc.Prelude.Map.{Map, lookup, insert, delete}
use pulse_rtc.Prelude.Map.{Values, insert-Values, delete-Values, lookup-Values}
use pulse_rtc.Sfu.Room.{
  Pub, Member, SfuRoom, new_room, new_member, has, subscribe_to, maybe_auto_subscribe, announce,
  on_publication_added, publish_as, on_track, add_remote, subscribe_found, find_publication,
  subscribe_as, subscribe, auto_all, auto_others, bootstrap_as, bootstrap, unsubscribe_from,
  unsubscribe_as, unsubscribe, on_subscription_fatal, retract, on_publication_removed, remove_pub,
  remove_as, remove_publication, remove_remote_found, remove_remote, join, retire_all, leave_as,
  leave,
}

-- Without the permission there is nothing of the kind.
abbrev pub Allowed : Member → Type 0
Allowed m =
    (m.can_publish ≡ false → m.publications ≡ []) × (m.can_subscribe ≡ false → m.subscriptions ≡ [])

abbrev pub AllAllowed : SfuRoom → Type 0
AllAllowed r = Values Allowed r.participants

if-Allowed {ℓ} :
    {R : Type ℓ} (b : Bool) (x y : Member × R)
    → (b ≡ true → Allowed x.0)
    → (b ≡ false → Allowed y.0)
    → Allowed (if b then x else y).0
if-Allowed true x y hx hy = hx refl
if-Allowed false x y hx hy = hy refl

if-AllAllowed {ℓ} :
    {R : Type ℓ} (b : Bool) (x y : SfuRoom × R)
    → (b ≡ true → AllAllowed x.0)
    → (b ≡ false → AllAllowed y.0)
    → AllAllowed (if b then x else y).0
if-AllAllowed true x y hx hy = hx refl
if-AllAllowed false x y hx hy = hy refl

module _ (ok : String → String → Bool) where
  subscribe_to-Allowed :
      (p : Pub) (m : Member) → m.can_subscribe ≡ true → Allowed m → Allowed (subscribe_to ok p m).0
  unfolding subscribe_to
  subscribe_to-Allowed p m c h =
      if-Allowed m.closed _ _ (λ e. h)
        λ e.
          if-Allowed (has p.id m.subscriptions) _ _ (λ e. h)
            λ e.
              if-Allowed (not (ok m.id p.id)) _ _ (λ e. h)
                λ e. (h.0, λ f. absurd (let no : ⊥ = ground arith in no))

  maybe_auto_subscribe-Allowed :
      (p : Pub) (m : Member) → Allowed m → Allowed (maybe_auto_subscribe ok p m).0
  unfolding maybe_auto_subscribe
  maybe_auto_subscribe-Allowed p m h =
      if-Allowed (not m.can_subscribe) _ _ (λ e. h)
        λ c.
          if-Allowed (has p.id m.opted_out || has p.id m.subscriptions || m.closed) _ _ (λ e. h)
            λ e. subscribe_to-Allowed p m (ground arith) h

  announce-Allowed :
      (p : Pub) (ms : Map String Member) → Values Allowed ms → Values Allowed (announce ok p ms).0
  unfolding announce
  announce-Allowed p [] h = tt
  announce-Allowed p ((k, m) ∷ ms) h = elim (Bool-cases (k =? p.participant_id)) [
    | inl q ↦ rw q (h.0, announce-Allowed p ms h.1)
    | inr q ↦ rw q (maybe_auto_subscribe-Allowed p m h.0, announce-Allowed p ms h.1)
  ]

  publish_as-Allowed :
      (pub_id : String) (r : SfuRoom) (o : Option Member) (id : String)
      → lookup id r.participants ≡ o
      → AllAllowed r
      → AllAllowed (publish_as ok pub_id r o).0
  unfolding publish_as on_publication_added
  publish_as-Allowed pub_id r none id e h = h
  publish_as-Allowed pub_id r (some m) id e h =
      let a = lookup-Values Allowed id m r.participants e h in
      if-AllAllowed (not m.can_publish) _ _ (λ e. h)
        λ c.
          announce-Allowed (record { id = pub_id; participant_id = m.id }) _
            (insert-Values Allowed m.id _ r.participants
              ((λ f. absurd (let no : ⊥ = ground arith in no)), a.1) h)

  add_remote-Allowed : (p : Pub) (r : SfuRoom) → AllAllowed r → AllAllowed (add_remote ok p r).0
  unfolding add_remote on_publication_added
  add_remote-Allowed p r h =
      if-AllAllowed (has p.id r.remote_pubs) _ _ (λ e. h) λ e. announce-Allowed p r.participants h

  subscribe_found-Allowed :
      (m : Member) (r : SfuRoom) (o : Option Pub)
      → m.can_subscribe ≡ true
      → Allowed m
      → AllAllowed r
      → AllAllowed (subscribe_found ok m r o).0
  unfolding subscribe_found
  subscribe_found-Allowed m r none c a h = h
  subscribe_found-Allowed m r (some p) c a h =
      if-AllAllowed (p.participant_id =? m.id) _ _ (λ e. h)
        λ e.
          insert-Values Allowed m.id _ r.participants
            (if-Allowed (has p.id m.subscriptions) _ _ (λ e. a)
              λ e. subscribe_to-Allowed p (record m { opted_out = delete p.id m.opted_out }) c a)
            h

  subscribe_as-Allowed :
      (pub_id : String) (r : SfuRoom) (o : Option Member) (id : String)
      → lookup id r.participants ≡ o
      → AllAllowed r
      → AllAllowed (subscribe_as ok pub_id r o).0
  unfolding subscribe_as
  subscribe_as-Allowed pub_id r none id e h = h
  subscribe_as-Allowed pub_id r (some m) id e h =
      if-AllAllowed (not m.can_subscribe) _ _ (λ e. h)
        λ c.
          subscribe_found-Allowed m r (find_publication pub_id r) (ground arith)
            (lookup-Values Allowed id m r.participants e h) h

  auto_all-Allowed :
      (ps : List (String × Pub)) (m : Member) → Allowed m → Allowed (auto_all ok ps m).0
  unfolding auto_all
  auto_all-Allowed [] m h = h
  auto_all-Allowed ((k, p) ∷ ps) m h =
      auto_all-Allowed ps (maybe_auto_subscribe ok p m).0 (maybe_auto_subscribe-Allowed p m h)

  auto_others-Allowed :
      (os : Map String Member) (m : Member) → Allowed m → Allowed (auto_others ok os m).0
  unfolding auto_others
  auto_others-Allowed [] m h = h
  auto_others-Allowed ((k, o) ∷ os) m h =
      auto_others-Allowed os (if k =? m.id then (m, []) else auto_all ok o.publications m).0
        (if-Allowed (k =? m.id) _ _ (λ e. h) λ e. auto_all-Allowed o.publications m h)

  bootstrap_as-Allowed :
      (r : SfuRoom) (o : Option Member) (id : String)
      → lookup id r.participants ≡ o
      → AllAllowed r
      → AllAllowed (bootstrap_as ok r o).0
  unfolding bootstrap_as
  bootstrap_as-Allowed r none id e h = h
  bootstrap_as-Allowed r (some m) id e h =
      insert-Values Allowed m.id _ r.participants
        (auto_others-Allowed r.participants m (lookup-Values Allowed id m r.participants e h)) h

unsubscribe_from-Allowed :
    (pub_id : String) (m : Member) → Allowed m → Allowed (unsubscribe_from pub_id m).0
unfolding unsubscribe_from delete
unsubscribe_from-Allowed pub_id m h =
    if-Allowed (has pub_id m.subscriptions) _ _ (λ e. (h.0, λ f. ap (delete pub_id) (h.1 f))) λ e. h

unsubscribe_as-Allowed :
    (opt_out : Bool) (pub_id : String) (r : SfuRoom) (o : Option Member) (id : String)
    → lookup id r.participants ≡ o
    → AllAllowed r
    → AllAllowed (unsubscribe_as opt_out pub_id r o).0
unfolding unsubscribe_as
unsubscribe_as-Allowed opt_out pub_id r none id e h = h
unsubscribe_as-Allowed true pub_id r (some m) id e h =
    insert-Values Allowed m.id _ r.participants
      (unsubscribe_from-Allowed pub_id (record m { opted_out = insert pub_id true m.opted_out })
        (lookup-Values Allowed id m r.participants e h))
      h
unsubscribe_as-Allowed false pub_id r (some m) id e h =
    insert-Values Allowed m.id _ r.participants
      (unsubscribe_from-Allowed pub_id m (lookup-Values Allowed id m r.participants e h)) h

retract-Allowed :
    (p : Pub) (ms : Map String Member) → Values Allowed ms → Values Allowed (retract p ms).0
unfolding retract
retract-Allowed p [] h = tt
retract-Allowed p ((k, m) ∷ ms) h = elim (Bool-cases (k =? p.participant_id)) [
  | inl q ↦ rw q (h.0, retract-Allowed p ms h.1)
  | inr q ↦ rw q (unsubscribe_from-Allowed p.id m h.0, retract-Allowed p ms h.1)
]

remove_pub-Allowed :
    (m : Member) (r : SfuRoom) (o : Option Pub)
    → Allowed m
    → AllAllowed r
    → AllAllowed (remove_pub m r o).0
unfolding remove_pub on_publication_removed delete
remove_pub-Allowed m r none a h = h
remove_pub-Allowed m r (some p) a h = retract-Allowed p _ (
    insert-Values Allowed m.id (record m { publications = delete p.id m.publications })
      r.participants ((λ f. ap (delete p.id) (a.0 f)), a.1) h)

remove_as-Allowed :
    (pub_id : String) (r : SfuRoom) (o : Option Member) (id : String)
    → lookup id r.participants ≡ o
    → AllAllowed r
    → AllAllowed (remove_as pub_id r o).0
unfolding remove_as
remove_as-Allowed pub_id r none id e h = h
remove_as-Allowed pub_id r (some m) id e h = removed (lookup pub_id m.publications)
  where
    removed : (o : Option Pub) → AllAllowed (remove_pub m r o).0
    removed o = remove_pub-Allowed m r o (lookup-Values Allowed id m r.participants e h) h

retire_all-Allowed :
    (ps : List (String × Pub)) (r : SfuRoom) → AllAllowed r → AllAllowed (retire_all ps r).0
unfolding retire_all on_publication_removed
retire_all-Allowed [] r h = h
retire_all-Allowed ((k, p) ∷ ps) r h =
    retire_all-Allowed ps (on_publication_removed p r).0 (retract-Allowed p r.participants h)

leave_as-Allowed :
    (id : String) (r : SfuRoom) (o : Option Member) → AllAllowed r → AllAllowed (leave_as id r o).0
unfolding leave_as
leave_as-Allowed id r none h = h
leave_as-Allowed id r (some m) h =
    retire_all-Allowed m.publications (record r { participants = delete id r.participants })
      (delete-Values Allowed id r.participants h)

remove_remote_found-Allowed :
    (pub_id : String) (r : SfuRoom) (o : Option Pub)
    → AllAllowed r
    → AllAllowed (remove_remote_found pub_id r o).0
unfolding remove_remote_found on_publication_removed
remove_remote_found-Allowed pub_id r none h = h
remove_remote_found-Allowed pub_id r (some p) h = retract-Allowed p r.participants h

pub data Op : Type 0 where
  join_op : String → (can_publish can_subscribe : Bool) → Op
  leave_op : String → Op
  track_op : (id pub_id : String) → Op
  remote_op : Pub → Op
  remote_end_op : String → Op
  subscribe_op : (id pub_id : String) → Op
  unsubscribe_op : (id pub_id : String) → Op
  fatal_op : (id pub_id : String) → Op
  unpublish_op : (id pub_id : String) → Op
  connected_op : String → Op

unfoldable pub step : (String → String → Bool) → Op → SfuRoom → SfuRoom
step ok (join_op id a b) r = join id a b r
step ok (leave_op id) r = (leave id r).0
step ok (track_op id k) r = (on_track ok id k r).0
step ok (remote_op p) r = (add_remote ok p r).0
step ok (remote_end_op k) r = (remove_remote k r).0
step ok (subscribe_op id k) r = (subscribe ok id k r).0
step ok (unsubscribe_op id k) r = (unsubscribe id k r).0
step ok (fatal_op id k) r = (on_subscription_fatal id k r).0
step ok (unpublish_op id k) r = (remove_publication id k r).0
step ok (connected_op id) r = (bootstrap ok id r).0

unfoldable pub run : (String → String → Bool) → List Op → SfuRoom → SfuRoom
run ok [] r = r
run ok (o ∷ os) r = run ok os (step ok o r)

step-Allowed :
    (ok : String → String → Bool) (o : Op) (r : SfuRoom) → AllAllowed r → AllAllowed (step ok o r)
unfolding step join leave on_track remove_remote subscribe unsubscribe on_subscription_fatal
    remove_publication bootstrap
step-Allowed ok (join_op id a b) r h =
    insert-Values Allowed id (new_member id a b) r.participants ((λ e. refl), (λ e. refl)) h
step-Allowed ok (leave_op id) r h = leave_as-Allowed id r (lookup id r.participants) h
step-Allowed ok (track_op id k) r h = publish_as-Allowed ok k r (lookup id r.participants) id refl h
step-Allowed ok (remote_op p) r h = add_remote-Allowed ok p r h
step-Allowed ok (remote_end_op k) r h = remove_remote_found-Allowed k r (lookup k r.remote_pubs) h
step-Allowed ok (subscribe_op id k) r h =
    subscribe_as-Allowed ok k r (lookup id r.participants) id refl h
step-Allowed ok (unsubscribe_op id k) r h =
    unsubscribe_as-Allowed true k r (lookup id r.participants) id refl h
step-Allowed ok (fatal_op id k) r h =
    unsubscribe_as-Allowed false k r (lookup id r.participants) id refl h
step-Allowed ok (unpublish_op id k) r h = remove_as-Allowed k r (lookup id r.participants) id refl h
step-Allowed ok (connected_op id) r h =
    bootstrap_as-Allowed ok r (lookup id r.participants) id refl h

run-Allowed :
    (ok : String → String → Bool) (os : List Op) (r : SfuRoom)
    → AllAllowed r
    → AllAllowed (run ok os r)
unfolding run
run-Allowed ok [] r h = h
run-Allowed ok (o ∷ os) r h = run-Allowed ok os (step ok o r) (step-Allowed ok o r h)

-- Whatever happens in a room of the SFU, with whatever tracks the Pion library refuses: a
-- participant without the permission to publish has no publication, and one without the permission
-- to subscribe has no subscription, neither by its own request nor automatically.
pub run-new-Allowed : (ok : String → String → Bool) (os : List Op) → AllAllowed (run ok os new_room)
run-new-Allowed ok os = run-Allowed ok os new_room tt
