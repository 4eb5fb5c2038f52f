-- ===== src/Cluster/Recovery.antt =====
-- internal/cluster/recovery_manager.go: the take-over of rooms whose node has failed.
pub mod Takeover
pub mod Success
mod Tests
use pulse_rtc.Prelude.{
  ℕ, zero, suc, ◌+◌, ◌-◌, ◌*◌, ◌≤◌, ◌<◌, ◌≡◌, ◌≢◌, ◌↔◌, ◌⊎◌, inl, inr, refl, sym, ap, ◌∙◌, Bool,
  true, false, ◌&&◌, ◌||◌, not, Option, none, some, List, [], ◌∷◌, ◌++◌, map, String, arith, ltb,
  leb, ◌==◌, if◌then◌else◌, Bool-cases, Option-cases, length, length-append, take, drop, Eq, ◌=?◌,
  string_eq, All, All-append, is_some,
}
use pulse_rtc.Prelude.Map.{
  Map, lookup, insert, delete, lookup-insert, lookup-delete, Distinct, insert-Distinct,
  delete-Distinct, beq_self, lookup-insert_self, lookup-delete_self, map_laws, length-delete-le,
}
use pulse_rtc.Cluster.Node.{
  NodeInfo, Code, Error, error, cluster_state_unavailable, ownership_conflict, already_recovered,
  recovery_disabled,
}
use pulse_rtc.Cluster.Registry.{NodeRegistry}
use pulse_rtc.Cluster.Rooms.{
  RoomLocator, RecoverResult, RecoverOutcome, recover_ok, recover_already, recover_conflict,
  recover_failed, ownership, owned_by, recover_owner,
}
use pulse_rtc.Cluster.Rooms.View
use pulse_rtc.Cluster.Rooms.View.{Op}
use pulse_rtc.Cluster.Participants
use pulse_rtc.Cluster.Participants.{ParticipantLocation, ParticipantLocator, in_room}
use pulse_rtc.Cluster.Load.{LoadStore, delete_load}
use pulse_rtc.Cluster.Detector
use pulse_rtc.Cluster.Detector.{FailureDetector}
use pulse_rtc.Cluster.Policy.{Reason, Result, ok, err}
use pulse_rtc.Cluster.Router.{state_usable}

-- What the manager reads and does not change. `participants` and `load` below are `none` where the
-- source has nil.
pub record RecoveryConfig : Type 0 where
  pub self : NodeInfo
  pub backend_ok : Option Bool
  pub enabled : Bool
  pub registry : NodeRegistry
  pub detector : FailureDetector

-- What a recovery reads and changes; `R` is the state of the router.
pub record RecoveryState (R : Type 0) : Type 0 where
  pub rooms : RoomLocator
  pub participant : Option ParticipantLocator
  pub load : Option LoadStore
  pub active : Map String Bool
  pub router : R

abbrev pub is_active : Option Bool → Bool
is_active none = false
is_active (some b) = b

remove_dead : String → List ParticipantLocation → ParticipantLocator → ParticipantLocator
remove_dead dead [] p = p
remove_dead dead (loc ∷ locs) p =
    remove_dead dead locs
      (if loc.node_id =? dead then Participants.remove loc.participant_id p else p)

unfoldable pub cleanup_participants :
    String → String → Option ParticipantLocator → Option ParticipantLocator
unfolding remove_dead
cleanup_participants room dead none = none
cleanup_participants room dead (some p) = some (remove_dead dead (in_room room p) p)

-- The errors that say that another node has the room are no failures.
abbrev pub counts_as_failure : Code → Bool
counts_as_failure already_recovered = false
counts_as_failure ownership_conflict = false
counts_as_failure _ = true

abbrev pub without_load : String → Option LoadStore → Option LoadStore
without_load node none = none
without_load node (some load) = some (delete_load node load)

module _ {R : Type 0} (select : String → R → Result (NodeInfo × Reason) × R)
    (cfg : RecoveryConfig) where
  -- What is done with the answer of the compare-and-recover.
  unfoldable pub recovered :
      String
      → String
      → RecoverResult × RoomLocator
      → RecoveryState R
      → Option Error × RecoveryState R
  recovered room old (res, rooms) st = elim res.outcome [
    | recover_ok ↦ (
      none,
      record st { rooms = rooms; participant = cleanup_participants room old st.participant },
    )
    | recover_already ↦ (
      some (record { code = already_recovered; node_id = cfg.self.id; room_id = room }),
      record st { rooms = rooms },
    )
    | recover_conflict ↦ (
      some (record { code = ownership_conflict; node_id = res.owner; room_id = room }),
      record st { rooms = rooms },
    )
    | recover_failed ↦ (
      some (record { code = cluster_state_unavailable; node_id = ""; room_id = room }),
      record st { rooms = rooms },
    )
  ]

  -- What is done with the answer of the router.
  unfoldable pub proceed :
      String
      → String
      → Result (NodeInfo × Reason)
      → RecoveryState R
      → Option Error × RecoveryState R
  proceed room old (err e) st = (some (record e { room_id = room }), st)
  proceed room old (ok (target, reason)) st =
      if not (target.id =? "") && not (target.id =? cfg.self.id)
      then (none, st)
      else recovered room old (recover_owner room old cfg.self.id st.rooms) st

  -- The recovery of a room whose owner is stale. `others` is what other nodes do to the rooms while
  -- the router is asked.
  unfoldable pub take_over :
      List Op → String → String → RecoveryState R → Option Error × RecoveryState R
  take_over others room old st =
      let (elected, router) = select room st.router in
      proceed room old elected (record st { rooms = View.run st.rooms others; router = router })

  -- What runs while the room is marked as active.
  unfoldable pub recover_active :
      List Op → String → RecoveryState R → Option Error × RecoveryState R
  recover_active others room st = elim (ownership room st.rooms) [
    | none ↦ (none, st)
    | some (old, gen) ↦
        if old =? cfg.self.id
        then (some (record { code = already_recovered; node_id = ""; room_id = room }), st)
        else if not (Detector.is_stale old cfg.registry cfg.detector)
        then (none, st)
        else take_over others room old st
  ]

  unfoldable pub recover_room : List Op → String → RecoveryState R → Option Error × RecoveryState R
  recover_room others room st =
      if not cfg.enabled
      then (some (error recovery_disabled), st)
      else if not (state_usable cfg.backend_ok)
      then (some (record { code = cluster_state_unavailable; node_id = ""; room_id = room }), st)
      else if is_active (lookup room st.active)
      then (some (record { code = ownership_conflict; node_id = ""; room_id = room }), st)
      else (let (answer, st') =
            recover_active others room (record st { active = insert room true st.active }) in
          (answer, record st' { active = delete room st'.active }))

  -- Not a failure of the recovery of a node: no error, or another node has the room.
  abbrev pub is_failure : Option Error → Bool
  is_failure none = false
  is_failure (some e) = counts_as_failure e.code

  -- The recoveries of the rooms of a node, in the order in which their workers run; `others` says
  -- what other nodes do during each.
  unfoldable pub recover_rooms :
      (String → List Op) → List String → RecoveryState R → ℕ × RecoveryState R
  recover_rooms others [] st = (0, st)
  recover_rooms others (room ∷ rooms) st =
      let (answer, st') = recover_room (others room) room st in
      let (failed, st'') = recover_rooms others rooms st' in
      ((if is_failure answer then failed + 1 else failed), st'')

  unfoldable pub recover_node :
      (String → List Op) → String → RecoveryState R → Option Error × RecoveryState R
  recover_node others node st =
      if not cfg.enabled
      then (some (error recovery_disabled), st)
      else if not (state_usable cfg.backend_ok)
      then (some (record { code = cluster_state_unavailable; node_id = node; room_id = "" }), st)
      else if not (Detector.is_stale node cfg.registry cfg.detector)
      then (none, st)
      else if node =? cfg.self.id
      then (none, st)
      else (let (failed, st') = recover_rooms others (owned_by node st.rooms) st in
          if not (failed == 0)
          then (
            some (record { code = cluster_state_unavailable; node_id = node; room_id = "" }),
            st',
          )
          else (none, record st' { load = without_load node st'.load }))
