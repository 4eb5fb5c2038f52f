-- ===== src/Cluster/Recovery/Success.antt =====
-- A recovery that finds everything as it should be takes the room, cleans up after the failed node,
-- and has nothing left to do when it is called again.
use pulse_rtc.Prelude.{
  ℕ, ◌+◌, ◌≡◌, ◌≢◌, refl, ap, ◌∙◌, Bool, true, false, ◌&&◌, ◌||◌, Option, none, some, List, [], ◌∷◌,
  String, arith, if◌then◌else◌, ◌=?◌, string_eq, All,
}
use pulse_rtc.Prelude.Map.{Map, lookup, insert, lookup-delete, Distinct, lookup-delete_self}
use mathlib.Core.Option
use pulse_rtc.Cluster.Node.{NodeInfo, already_recovered}
use pulse_rtc.Cluster.Rooms.{RoomLocator, RecoverResult, recover_ok, ownership, recover_owner}
use pulse_rtc.Cluster.Rooms.View
use pulse_rtc.Cluster.Rooms.View.{Op, Cell}
use pulse_rtc.Cluster.Participants
use pulse_rtc.Cluster.Participants.{ParticipantLocation, ParticipantLocator, in_room}
use pulse_rtc.Cluster.Detector
use pulse_rtc.Cluster.Policy.{Reason, Result, ok}
use pulse_rtc.Cluster.Router.{state_usable}
use pulse_rtc.Cluster.Recovery.{
  RecoveryConfig, RecoveryState, is_active, remove_dead, cleanup_participants, recovered, proceed,
  take_over, recover_active, recover_room,
}
use pulse_rtc.Cluster.Recovery.Takeover.{recover_owner-ok, recover_room_free}

-- Every location stands under the id of its participant, and no id twice.
pub record IsKeyed (p : ParticipantLocator) : Type 0 where
  pub named : All (λ (e : String × ParticipantLocation). e.1.participant_id ≡ e.0) p
  pub distinct : Distinct p

-- The list has a location of the participant at the node.
abbrev gone : String → String → List ParticipantLocation → Bool
gone id dead [] = false
gone id dead (l ∷ ls) = (l.node_id =? dead && l.participant_id =? id) || gone id dead ls

-- A location that a recovery removes: in the room, at the node.
abbrev pub doomed : String → String → Option ParticipantLocation → Bool
doomed room dead none = false
doomed room dead (some l) = l.room_id =? room && l.node_id =? dead

lookup-remove_dead :
    (id dead : String) (locs : List ParticipantLocation) (p : ParticipantLocator)
    → lookup id (remove_dead dead locs p) ≡ (if gone id dead locs then none else lookup id p)
unfolding remove_dead Participants.remove
lookup-remove_dead id dead [] p = refl
lookup-remove_dead id dead (l ∷ ls) p = ground (
  arith,
  lookup-remove_dead id dead ls
      (if l.node_id =? dead then Participants.remove l.participant_id p else p),
  lookup-delete l.participant_id id p,
)

gone-in_room :
    (id room dead : String) (p : ParticipantLocator)
    → All (λ (e : String × ParticipantLocation). e.1.participant_id ≡ e.0) p
    → Distinct p
    → gone id dead (in_room room p) ≡ doomed room dead (lookup id p)
unfolding in_room lookup
gone-in_room id room dead [] n d = refl
gone-in_room id room dead ((k, l) ∷ p) n d = ground (
  arith,
  string_eq.beq_iff k id,
  string_eq.beq_iff l.participant_id id,
  gone-in_room id room dead p n.1 d.1,
)

-- The cleanup after a take-over, on locations that stand under their participants' ids, removes
-- exactly the locations in that room at the failed node.
pub cleanup_participants_lem :
    (id room dead : String) (p q : ParticipantLocator)
    → IsKeyed p
    → cleanup_participants room dead (some p) ≡ some q
    → lookup id q ≡ (if doomed room dead (lookup id p) then none else lookup id p)
unfolding cleanup_participants
cleanup_participants_lem id room dead p q v e =
    let is : remove_dead dead (in_room room p) p ≡ q = ground arith in
    rw (← is, ← gone-in_room id room dead p v.named v.distinct)
      (lookup-remove_dead id dead (in_room room p) p)

cleaned_up :
    (room dead : String) (o : Option ParticipantLocator) (p : ParticipantLocator)
    → o ≡ some p
    → IsKeyed p
    → (q : ParticipantLocator) × (cleanup_participants room dead o ≡ some q)
      × ((id : String)
          → lookup id q ≡ (if doomed room dead (lookup id p) then none else lookup id p))
unfolding cleanup_participants
cleaned_up room dead o p e v =
    let q = remove_dead dead (in_room room p) p in
    (
      q,
      ap (cleanup_participants room dead) e,
      λ id. cleanup_participants_lem id room dead p q v (unfold cleanup_participants in refl),
    )

-- What a recovery needs in order to take room `room`, owned by `old`: recovery is enabled, the
-- state is usable, the room is not being recovered here, `old` is another node and stale, the
-- router elects this node, and after what other nodes did meanwhile `old` still owns the room, at
-- generation `g`.
pub record Ready {R : Type 0} (select : String → R → Result (NodeInfo × Reason) × R)
    (cfg : RecoveryConfig) (others : List Op) (room old : String) (g : ℕ) (st : RecoveryState R)
    : Type 0 where
  pub enabled : cfg.enabled ≡ true
  pub usable : state_usable cfg.backend_ok ≡ true
  pub free : is_active (lookup room st.active) ≡ false
  pub seen : ℕ
  pub owned : ownership room st.rooms ≡ some (old, seen)
  pub other : old ≢ cfg.self.id
  pub stale : Detector.is_stale old cfg.registry cfg.detector ≡ true
  pub target : NodeInfo
  pub reason : Reason
  pub elected : (select room st.router).0 ≡ ok (target, reason)
  pub here : target.id ≡ cfg.self.id
  pub still : ownership room (View.run st.rooms others) ≡ some (old, g)

module _ {R : Type 0} (select : String → R → Result (NodeInfo × Reason) × R) (cfg : RecoveryConfig)
    (others : List Op) (room old : String) (g : ℕ) where
  recovered-ok :
      (x : RecoverResult × RoomLocator) (st : RecoveryState R)
      → x.0.outcome ≡ recover_ok
      → recovered select cfg room old x st ≡ (
        none,
        record st { rooms = x.1; participant = cleanup_participants room old st.participant },
      )
  unfolding recovered
  recovered-ok x st h = rw (h, recovered) refl

  proceed-ok :
      (st : RecoveryState R) (elected : Result (NodeInfo × Reason)) (target : NodeInfo)
      (reason : Reason)
      → elected ≡ ok (target, reason)
      → target.id ≡ cfg.self.id
      → ownership room st.rooms ≡ some (old, g)
      → old ≢ cfg.self.id
      → proceed select cfg room old elected st ≡ (
        none,
        record st {
          rooms = (recover_owner room old cfg.self.id st.rooms).1;
          participant = cleanup_participants room old st.participant;
        },
      )
  unfolding proceed
  proceed-ok st elected target reason e here owned other =
      let won = recover_owner-ok room old cfg.self.id g st.rooms owned other in
      rw e (
        ground (
          arith,
          string_eq.beq_iff target.id cfg.self.id,
          recovered-ok (recover_owner room old cfg.self.id st.rooms) st won.0,
        ))

  recover_active-ok :
      (st : RecoveryState R)
      → Ready select cfg others room old g st
      → (b : Map String Bool)
      → recover_active select cfg others room (record st { active = b }) ≡ (
        none,
        record st {
          rooms = (recover_owner room old cfg.self.id (View.run st.rooms others)).1;
          participant = cleanup_participants room old st.participant;
          active = b;
          router = (select room st.router).1;
        },
      )
  unfolding recover_active take_over
  recover_active-ok st h b =
      let st' = record st {
        rooms = View.run st.rooms others;
        active = b;
        router = (select room st.router).1;
      } in
      let done =
        proceed-ok st' (select room st.router).0 h.target h.reason h.elected h.here h.still
          h.other in
      let foreign : (old =? cfg.self.id) ≡ false =
        ground (arith, string_eq.beq_iff old cfg.self.id, h.other) in
      rw (h.owned, foreign, h.stale, recover_active) done

recover_room_done :
    {R : Type 0} (select : String → R → Result (NodeInfo × Reason) × R) (cfg : RecoveryConfig)
    (others : List Op) (room old : String) (g : ℕ) (st : RecoveryState R)
    → Ready select cfg others room old g st
    → let (answer, after) = recover_room select cfg others room st in
      (answer ≡ none)
      × (ownership room after.rooms ≡ some (cfg.self.id, g + 1))
      × ((r : String) → r ≢ room → ownership r after.rooms ≡ ownership r (View.run st.rooms others))
      × (after.participant ≡ cleanup_participants room old st.participant)
      × (is_active (lookup room after.active) ≡ false)
recover_room_done select cfg others room old g st h =
    let won = recover_owner-ok room old cfg.self.id g (View.run st.rooms others) h.still h.other in
    let e = recover_active-ok select cfg others room old g st h (insert room true st.active) in
    rw (recover_room_free select cfg others room st h.enabled h.usable h.free, e)
      (
        refl,
        won.1,
        won.2,
        refl,
        ground (arith, lookup-delete_self room (insert room true st.active)),
      )

-- A recovery that finds what it needs, on locations that stand under their participants' ids,
-- returns no error; this node owns the room, one generation after the last; every other room is as
-- the other nodes left it; of the locations exactly those in that room at the failed node are gone;
-- and the room is no longer marked as being recovered.
pub recover_room-Ready :
    {R : Type 0} (select : String → R → Result (NodeInfo × Reason) × R) (cfg : RecoveryConfig)
    (others : List Op) (room old : String) (g : ℕ) (st : RecoveryState R) (p : ParticipantLocator)
    → Ready select cfg others room old g st
    → st.participant ≡ some p
    → IsKeyed p
    → let (answer, after) = recover_room select cfg others room st in
      (answer ≡ none)
      × (ownership room after.rooms ≡ some (cfg.self.id, g + 1))
      × ((r : String) → r ≢ room → ownership r after.rooms ≡ ownership r (View.run st.rooms others))
      × ((q : ParticipantLocator) × (after.participant ≡ some q)
          × ((id : String)
              → lookup id q ≡ (if doomed room old (lookup id p) then none else lookup id p)))
      × (is_active (lookup room after.active) ≡ false)
recover_room-Ready select cfg others room old g st p h has keyed =
    let (answer, owned, rest, locations, free) =
      recover_room_done select cfg others room old g st h in
    let (q, is, gone_from) = cleaned_up room old st.participant p has keyed in
    (answer, owned, rest, (q, locations ∙ is, gone_from), free)

-- A second recovery after a successful one, whatever other nodes would do during it, says that the
-- room was recovered already and does not touch the ownership of any room: the generation stays.
pub recover_room-recover_room :
    {R : Type 0} (select : String → R → Result (NodeInfo × Reason) × R) (cfg : RecoveryConfig)
    (others others' : List Op) (room old : String) (g : ℕ) (st : RecoveryState R)
    → Ready select cfg others room old g st
    → (Option.map
          (λ e. e.code)
          (recover_room select cfg others' room (recover_room select cfg others room st).1).0
        ≡ some already_recovered)
      × ((recover_room select cfg others' room (recover_room select cfg others room st).1).1.rooms
          ≡ (recover_room select cfg others room st).1.rooms)
unfolding recover_active
recover_room-recover_room select cfg others others' room old g st h =
    let (_, owned, _, _, free) = recover_room_done select cfg others room old g st h in
    let st' = (recover_room select cfg others room st).1 in
    rw
      (recover_room_free select cfg others' room st' h.enabled h.usable free, owned, recover_active)
      (ground (arith, string_eq.beq_iff cfg.self.id cfg.self.id))
