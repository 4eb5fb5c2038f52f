-- ===== src/Cluster/Recovery/Takeover.antt =====
-- When a recovery takes a room, what it does then, and that a second one does nothing.
use pulse_rtc.Prelude.{
  ℕ, ◌+◌, ◌≡◌, ◌≢◌, ◌⊎◌, inl, inr, refl, ap, true, false, ◌&&◌, not, none, some, List, String,
  arith, Bool-cases, Option-cases, ◌=?◌, string_eq,
}
use pulse_rtc.Prelude.Map.{lookup, insert, delete, lookup-insert, beq_self, lookup-insert_self}
use mathlib.Core.Option
use pulse_rtc.Cluster.Node.{NodeInfo}
use pulse_rtc.Cluster.Rooms.{
  RoomLocator, RecoverResult, recover_ok, ownership, recover_owner, generation_of,
}
use pulse_rtc.Cluster.Rooms.View
use pulse_rtc.Cluster.Rooms.View.{Op, Cell}
use pulse_rtc.Cluster.Detector
use pulse_rtc.Cluster.Policy.{Reason, Result, ok, err}
use pulse_rtc.Cluster.Router.{state_usable}
use pulse_rtc.Cluster.Recovery.{
  RecoveryConfig, RecoveryState, is_active, recovered, proceed, take_over, recover_active,
  recover_room,
}

pub recover_owner-ok :
    (room old new : String) (g : ℕ) (l : RoomLocator)
    → ownership room l ≡ some (old, g)
    → old ≢ new
    → ((recover_owner room old new l).0.outcome ≡ recover_ok)
      × (ownership room (recover_owner room old new l).1 ≡ some (new, g + 1))
      × ((r : String) → r ≢ room → ownership r (recover_owner room old new l).1 ≡ ownership r l)
unfolding ownership recover_owner
recover_owner-ok room old new g l h ne = (
  ground (arith, string_eq.beq_iff old new, beq_self old),
  ground (
    arith,
    string_eq.beq_iff old new,
    beq_self old,
    lookup-insert_self room new l.owners,
    lookup-insert_self room (generation_of room l + 1) l.gens,
  ),
  λ r other. ground (
    arith,
    string_eq.beq_iff old new,
    string_eq.beq_iff room r,
    lookup-insert room r new l.owners,
    lookup-insert room r (generation_of room l + 1) l.gens,
  ),
)

recover_owner_unowned :
    (room old new : String) (l : RoomLocator)
    → ownership room l ≡ none
    → (recover_owner room old new l).1 ≡ l
unfolding ownership recover_owner
recover_owner_unowned room old new l h = ground arith

recover_owner_other :
    (room old new owner : String) (g : ℕ) (r : String) (l : RoomLocator)
    → ownership room l ≡ some (owner, g)
    → (owner =? old) ≡ false
    → ownership r (recover_owner room old new l).1 ≡ ownership r l
unfolding ownership recover_owner
recover_owner_other room old new owner g r l h ne = ground arith

-- A compare-and-recover that changes the cell of a room.
pub record Moved (room old new : String) (r : String) (l l' : RoomLocator) : Type 0 where
  pub g : ℕ
  pub asked : r ≡ room
  pub before : ownership room l ≡ some (old, g)
  pub after : ownership room l' ≡ some (new, g + 1)

recover_owner-Moved :
    (room old new r : String) (l : RoomLocator)
    → old ≢ new
    → (ownership r (recover_owner room old new l).1 ≡ ownership r l)
      ⊎ Moved room old new r l (recover_owner room old new l).1
recover_owner-Moved room old new r l ne = elim (Option-cases (ownership room l)) [
  | inl e ↦ inl (ap (ownership r) (recover_owner_unowned room old new l e))
  | inr ((owner, g), e) ↦ elim (Bool-cases (owner =? old)) [
    | inr other ↦ inl (recover_owner_other room old new owner g r l e other)
    | inl same ↦
        let is : owner ≡ old = (string_eq.beq_iff owner old).0 same in
        let ok_at = recover_owner-ok room old new g l (rw is at e) ne in
        elim (Bool-cases (r =? room)) [
          | inl at_room ↦ inr (record {
            g = g;
            asked = (string_eq.beq_iff r room).0 at_room;
            before = rw is at e;
            after = ok_at.1;
          })
          | inr elsewhere ↦ inl (ok_at.2 r (λ p. let yes = (string_eq.beq_iff r room).1 p in cc))
        ]
  ]
]

module _ {R : Type 0} (select : String → R → Result (NodeInfo × Reason) × R) (cfg : RecoveryConfig)
    (others : List Op) (room : String) where
  recovered-rooms :
      (old : String) (x : RecoverResult × RoomLocator) (st : RecoveryState R)
      → (recovered select cfg room old x st).1.rooms ≡ x.1
  unfolding recovered
  recovered-rooms old x st = ground arith

  -- What a recovery may do to the cell of a room.
  pub record Taken (r : String) (l l' : RoomLocator) : Type 0 where
    pub old : String
    pub g : ℕ
    pub asked : r ≡ room
    pub seen : Option.map (λ c. c.0) (ownership room l) ≡ some old
    pub before : ownership room (View.run l others) ≡ some (old, g)
    pub after : ownership room l' ≡ some (cfg.self.id, g + 1)
    pub other : old ≢ cfg.self.id
    pub stale : Detector.is_stale old cfg.registry cfg.detector ≡ true
    pub enabled : cfg.enabled ≡ true
    pub usable : state_usable cfg.backend_ok ≡ true

  abbrev pub Unmoved : String → RoomLocator → RoomLocator → Type 0
  Unmoved r l l' =
      (ownership r l' ≡ ownership r l) ⊎ (ownership r l' ≡ ownership r (View.run l others))

  -- The cell of a room after the router was asked.
  abbrev pub KeptOrMoved : String → String → RoomLocator → RoomLocator → Type 0
  KeptOrMoved r old l l' = (ownership r l' ≡ ownership r l) ⊎ Moved room old cfg.self.id r l l'

  proceed-Moved :
      (r old : String) (elected : Result (NodeInfo × Reason)) (st : RecoveryState R)
      → old ≢ cfg.self.id
      → KeptOrMoved r old st.rooms (proceed select cfg room old elected st).1.rooms
  unfolding proceed
  proceed-Moved r old (err e) st ne = inl refl
  proceed-Moved r old (ok (target, reason)) st ne =
      elim (Bool-cases (not (target.id =? "") && not (target.id =? cfg.self.id))) [
        | inl e ↦ rw e (inl refl)
        | inr e ↦
            let x = recover_owner room old cfg.self.id st.rooms in
            rw (e, recovered-rooms old x st)
              (recover_owner-Moved room old cfg.self.id r st.rooms ne)
      ]

  recover_active-Taken :
      (r : String) (st : RecoveryState R)
      → cfg.enabled ≡ true
      → state_usable cfg.backend_ok ≡ true
      → Unmoved r st.rooms (recover_active select cfg others room st).1.rooms
        ⊎ Taken r st.rooms (recover_active select cfg others room st).1.rooms
  unfolding recover_active take_over
  recover_active-Taken r st on up = elim (Option-cases (ownership room st.rooms)) [
    | inl e ↦ rw (e, recover_active) (inl (inl refl))
    | inr ((old, g), e) ↦ elim (Bool-cases (old =? cfg.self.id)) [
      | inl mine ↦ rw (e, recover_active, mine) (inl (inl refl))
      | inr foreign ↦ elim (Bool-cases (Detector.is_stale old cfg.registry cfg.detector)) [
        | inr alive ↦ rw (e, recover_active, foreign, alive) (inl (inl refl))
        | inl stale ↦
            let ne : old ≢ cfg.self.id =
              λ p. let yes = (string_eq.beq_iff old cfg.self.id).1 p in cc in
            let (elected, router) = select room st.router in
            let m =
              proceed-Moved r old elected
                (record st { rooms = View.run st.rooms others; router = router }) ne in
            rw (e, recover_active, foreign, stale)
              (elim m [
                | inl same ↦ inl (inr same)
                | inr mv ↦ inr (record {
                  old = old;
                  g = mv.g;
                  asked = mv.asked;
                  seen = rw e refl;
                  before = mv.before;
                  after = mv.after;
                  other = ne;
                  stale = stale;
                  enabled = on;
                  usable = up;
                })
              ])
      ]
    ]
  ]

-- A recovery that passes the first guards runs `recover_active`, and clears its mark at the end.
pub recover_room_free :
    {R : Type 0} (select : String → R → Result (NodeInfo × Reason) × R) (cfg : RecoveryConfig)
    (others : List Op) (room : String) (st : RecoveryState R)
    → cfg.enabled ≡ true
    → state_usable cfg.backend_ok ≡ true
    → is_active (lookup room st.active) ≡ false
    → recover_room select cfg others room st ≡ (
        let x =
          recover_active select cfg others room
            (record st { active = insert room true st.active }) in
        (x.0, record x.1 { active = delete room x.1.active }))
unfolding recover_room
recover_room_free select cfg others room st on up free = ground arith

recover_room_stopped :
    {R : Type 0} (select : String → R → Result (NodeInfo × Reason) × R) (cfg : RecoveryConfig)
    (others : List Op) (room : String) (st : RecoveryState R)
    → (cfg.enabled && state_usable cfg.backend_ok && not (is_active (lookup room st.active)))
      ≡ false
    → (recover_room select cfg others room st).1 ≡ st
unfolding recover_room
recover_room_stopped select cfg others room st h = ground arith

-- A recovery of a room, whatever other nodes do to the rooms while the router is asked and whatever
-- the router answers, leaves the owner and generation of every room as they were before it or as
-- the other nodes made them, with one exception: recovery is enabled, the state was not reported
-- unusable, the room is the one that was asked for, its owner was another node, seen by the
-- recovery at its start and still the owner at its end, that the detector calls stale; then this
-- node owns the room, one generation later.
pub recover_room-Taken :
    {R : Type 0} (select : String → R → Result (NodeInfo × Reason) × R) (cfg : RecoveryConfig)
    (others : List Op) (room r : String) (st : RecoveryState R)
    → Unmoved select cfg others room r st.rooms (recover_room select cfg others room st).1.rooms
      ⊎ Taken select cfg others room r st.rooms (recover_room select cfg others room st).1.rooms
recover_room-Taken select cfg others room r st =
    elim (Bool-cases
      (cfg.enabled && state_usable cfg.backend_ok && not (is_active (lookup room st.active)))) [
        | inr stopped ↦ rw (recover_room_stopped select cfg others room st stopped) (inl (inl refl))
        | inl go ↦
            let enabled : cfg.enabled ≡ true = ground arith in
            let usable : state_usable cfg.backend_ok ≡ true = ground arith in
            let free : is_active (lookup room st.active) ≡ false = ground arith in
            rw (recover_room_free select cfg others room st enabled usable free) (
              recover_active-Taken select cfg others room r
                (record st { active = insert room true st.active }) enabled usable)
      ]
