-- ===== src/Cluster/Router.antt =====
-- internal/cluster/routing_roomrouter.go, the router: on which node a new room is made.
pub mod Selection
pub mod Answers
mod Tests
use pulse_rtc.Prelude.{
  ℕ, zero, suc, ◌+◌, ◌-◌, ◌*◌, ◌≤◌, ◌<◌, ◌≡◌, ◌≢◌, ◌↔◌, ◌⊎◌, inl, inr, refl, sym, ap, ◌∙◌, Bool,
  true, false, ◌&&◌, ◌||◌, not, Option, none, some, List, [], ◌∷◌, ◌++◌, map, String, arith, ltb,
  leb, ◌==◌, if◌then◌else◌, Bool-cases, Option-cases, length, length-append, take, drop, Eq, ◌=?◌,
  string_eq, All, All-append, is_some,
}
use pulse_rtc.Prelude.Map.{
  Map, lookup, insert, delete, lookup-insert, lookup-delete, Distinct, insert-Distinct,
  delete-Distinct, beq_self, lookup-insert_self, lookup-delete_self, map_laws, length-delete-le,
}
use pulse_rtc.Prelude.Float.{Floats}
use pulse_rtc.Cluster.Node.{
  Time, seconds, NodeState, accepts_sessions, NodeInfo, Error, error, cluster_state_unavailable,
  no_capacity,
}
use pulse_rtc.Cluster.Registry
use pulse_rtc.Cluster.Registry.{NodeRegistry}
use pulse_rtc.Cluster.Load.{NodeLoad, LoadStore, room_assignment, put_room_assignment}
use pulse_rtc.Cluster.Policy.{
  LeastLoadedPolicy, Reason, assigned, Result, ok, err, find_node, select,
}

-- The limits of `CapacityConfig` that the router reads; 0 is no limit.
pub record CapacityConfig (F : Type 0) : Type 0 where
  pub max_rooms : ℕ
  pub max_participants : ℕ
  pub max_publications : ℕ
  pub hard_limit_fraction : F

pub record PendingCount : Type 0 where
  pub n : ℕ
  pub seen : Time

pub record RouterConfig (F : Type 0) : Type 0 where
  pub policy : LeastLoadedPolicy F
  pub cap : CapacityConfig F
  pub load_stale : ℕ

-- What a selection reads and writes: the load store, and the router's own corrections of it.
pub record RouterState : Type 0 where
  pub load : LoadStore
  pub pending : Map String PendingCount

abbrev pub state_usable : Option Bool → Bool
state_usable none = true
state_usable (some b) = b

-- The reports that are not too old, by their nodes; of two for one node the later in the list.
unfoldable pub fresh_reports : Time → ℕ → List NodeLoad → Map String NodeLoad → Map String NodeLoad
fresh_reports now stale [] m = m
fresh_reports now stale (l ∷ ls) m =
    fresh_reports now stale ls (if leb now (l.reported_at + stale) then insert l.node_id l m else m)

abbrev pub empty_load : NodeInfo → NodeLoad
empty_load n = record {
  node_id = n.id;
  state = n.state;
  rooms = 0;
  participants = 0;
  publications = 0;
  subscriptions = 0;
  reported_at = 0;
}

abbrev pub load_or : NodeLoad → Option NodeLoad → NodeLoad
load_or d none = d
load_or d (some l) = l

abbrev pub add_pending : NodeLoad → Option PendingCount → NodeLoad
add_pending l none = l
add_pending l (some pc) = record l { rooms = l.rooms + pc.n; participants = l.participants + pc.n }

unfoldable pub apply_pending : RouterState → NodeLoad → NodeLoad
apply_pending s l = add_pending l (lookup l.node_id s.pending)

abbrev pub bump_pending : Time → Option PendingCount → PendingCount
bump_pending now none = record { n = 1; seen = now }
bump_pending now (some pc) = record {
  n = (if ltb (pc.seen + seconds 5) now then 0 else pc.n) + 1;
  seen = now;
}

unfoldable pub note_pending : Time → String → RouterState → RouterState
note_pending now id s = record s {
  pending = insert id (bump_pending now (lookup id s.pending)) s.pending;
}

unfoldable pub clear_pending : String → RouterState → RouterState
clear_pending id s = record s { pending = delete id s.pending }

abbrev pub info_or_id : String → Option NodeInfo → NodeInfo
info_or_id id none = record {
  id = id;
  host = "";
  port = 0;
  version = "";
  state = NodeState.unset;
  started_at = 0;
  last_seen = 0;
  media_addr = "";
}
info_or_id id (some n) = n

module _ (fl : Floats) where
  unfoldable pub exceeds : ℕ → ℕ → fl.Float → Bool
  exceeds current max frac =
      if max == 0 then false else fl.le (fl.mul (fl.of_ℕ max) frac) (fl.of_ℕ current)

  unfoldable pub over_hard_limit : CapacityConfig fl.Float → NodeLoad → Bool
  unfolding exceeds
  over_hard_limit cap l =
      let hard : fl.Float =
        (if fl.le cap.hard_limit_fraction (fl.of_ℕ 0)
          then fl.of_ℕ 1
          else cap.hard_limit_fraction) in
      exceeds l.rooms cap.max_rooms hard
      || exceeds l.participants cap.max_participants hard
      || exceeds l.publications cap.max_publications hard

  -- The load that counts for a node: its fresh report, or none yet, with the pending picks.
  abbrev pub load_of_node : RouterState → Map String NodeLoad → NodeInfo → NodeLoad
  load_of_node s by_id n = apply_pending s (load_or (empty_load n) (lookup n.id by_id))

  -- The tests that a node must pass to be a candidate.
  abbrev pub eligible :
      Time
      → NodeRegistry
      → RouterConfig fl.Float
      → RouterState
      → Map String NodeLoad
      → NodeInfo
      → Bool
  eligible now r cfg s by_id n =
      accepts_sessions n.state
      && not (Registry.is_stale now r n)
      && not (over_hard_limit cfg.cap (load_of_node s by_id n))

  unfoldable pub candidates :
      Time
      → NodeRegistry
      → RouterConfig fl.Float
      → RouterState
      → Map String NodeLoad
      → List NodeInfo
      → List NodeLoad
  candidates now r cfg s by_id [] = []
  candidates now r cfg s by_id (n ∷ ns) =
      let rest = candidates now r cfg s by_id ns in
      if eligible now r cfg s by_id n then load_of_node s by_id n ∷ rest else rest

  -- A new choice by the policy, noted for later selections.
  unfoldable pub select_new :
      Time
      → NodeInfo
      → NodeRegistry
      → RouterConfig fl.Float
      → String
      → List NodeLoad
      → RouterState
      → Result (NodeInfo × Reason) × RouterState
  select_new now self r cfg room cs s =
      elim (select fl (record cfg.policy { local_node_id = self.id }) cs) [
        | err e ↦ (err e, s)
        | ok (chosen, reason) ↦
            let noted = note_pending now chosen.node_id s in
            (
              ok (info_or_id chosen.node_id (Registry.get chosen.node_id r), reason),
              record noted {
                load = put_room_assignment now room chosen.node_id (seconds 15) noted.load;
              },
            )
      ]

  abbrev pub assigned_candidate : Option String → List NodeLoad → Option NodeLoad
  assigned_candidate none cs = none
  assigned_candidate (some id) cs = find_node id cs

  unfoldable pub select_among :
      Time
      → NodeInfo
      → NodeRegistry
      → RouterConfig fl.Float
      → String
      → List NodeLoad
      → RouterState
      → Result (NodeInfo × Reason) × RouterState
  select_among now self r cfg room [] s =
      (err (record { code = no_capacity; node_id = ""; room_id = room }), s)
  select_among now self r cfg room (c ∷ cs) s =
      elim (assigned_candidate (room_assignment now room s.load) (c ∷ cs)) [
        | some l ↦ (ok (info_or_id l.node_id (Registry.get l.node_id r), assigned), s)
        | none ↦ select_new now self r cfg room (c ∷ cs) s
      ]

  -- `snapshot` is the answer of `LoadSnapshot`, `none` if that failed.
  unfoldable pub select_node :
      Time
      → NodeInfo
      → Option Bool
      → NodeRegistry
      → RouterConfig fl.Float
      → Option (List NodeLoad)
      → String
      → RouterState
      → Result (NodeInfo × Reason) × RouterState
  select_node now self state_ok r cfg none room s =
      (err (record { code = cluster_state_unavailable; node_id = ""; room_id = room }), s)
  select_node now self state_ok r cfg (some snapshot) room s =
      if state_usable state_ok
      then (select_among now self r cfg room
          (candidates now r cfg s (fresh_reports now cfg.load_stale snapshot []) (Registry.list r))
          s)
      else (err (record { code = cluster_state_unavailable; node_id = ""; room_id = room }), s)
