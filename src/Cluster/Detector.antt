-- ===== src/Cluster/Detector.antt =====
-- internal/cluster/recovery_failure_detector.go: which nodes have failed. One reading of the clock
-- serves a whole pass.
pub mod Scan
mod Tests
use pulse_rtc.Prelude.{
  ℕ, zero, suc, ◌+◌, ◌-◌, ◌*◌, ◌≤◌, ◌<◌, ◌≡◌, ◌≢◌, ◌↔◌, ◌⊎◌, inl, inr, refl, sym, ap, ◌∙◌, Bool,
  true, false, ◌&&◌, ◌||◌, not, Option, none, some, List, [], ◌∷◌, ◌++◌, map, String, arith, ltb,
  leb, ◌==◌, if◌then◌else◌, Bool-cases, Option-cases, length, length-append, take, drop, Eq, ◌=?◌,
  string_eq, All, All-append, is_some,
}
use pulse_rtc.Prelude.Map.{
  Map, lookup, insert, delete, lookup-insert, lookup-delete, Distinct, insert-Distinct,
  delete-Distinct, beq_self, lookup-insert_self, lookup-delete_self, map_laws, length-delete-le,
}
use pulse_rtc.Cluster.Node.{Time, seconds, NodeState, is_offline, NodeInfo}
use pulse_rtc.Cluster.Registry
use pulse_rtc.Cluster.Registry.{NodeRegistry}

-- `age` is in nanoseconds, and 0 for a heartbeat from the future.
pub record NodeFailure : Type 0 where
  pub node_id : String
  pub state : NodeState
  pub last_heartbeat : Time
  pub age : ℕ

pub record FailureDetector : Type 0 where
  pub check_interval : ℕ
  pub grace : ℕ
  pub first_missed : Map String Time
  pub stale : Map String NodeFailure
  pub backend_known : Bool

unfoldable pub new_failure_detector : ℕ → ℕ → FailureDetector
new_failure_detector check_interval grace = record {
  check_interval = if check_interval == 0 then seconds 5 else check_interval;
  grace = grace;
  first_missed = [];
  stale = [];
  backend_known = true;
}

abbrev pub failure_of : Time → NodeInfo → NodeFailure
failure_of now n = record {
  node_id = n.id;
  state = n.state;
  last_heartbeat = n.last_seen;
  age = now - n.last_seen;
}

-- The node missed its heartbeat window, or said that it is gone.
abbrev pub missing : Time → NodeRegistry → NodeInfo → Bool
missing now r n = Registry.is_stale now r n || is_offline n.state

-- The time at which the node was first seen to miss.
abbrev pub first_miss : Time → Option Time → Time
first_miss now none = now
first_miss now (some t) = t

unfoldable pub note_missed : Time → String → FailureDetector → FailureDetector
note_missed now id d =
    if is_some (lookup id d.first_missed)
    then d
    else record d { first_missed = insert id now d.first_missed }

-- What a pass does with a node that is missing.
unfoldable pub scan_missing : Time → NodeInfo → FailureDetector → List NodeFailure × FailureDetector
unfolding note_missed
scan_missing now n d =
    let d' = note_missed now n.id d in
    if ltb now (first_miss now (lookup n.id d.first_missed) + d.grace)
    then ([], d')
    else if is_some (lookup n.id d.stale)
    then ([], d')
    else (failure_of now n ∷ [], record d' { stale = insert n.id (failure_of now n) d.stale })

-- One round of the loop of `scan`: the failures that are new, and the detector.
unfoldable pub scan_node :
    Time → String → NodeRegistry → NodeInfo → FailureDetector → List NodeFailure × FailureDetector
unfolding scan_missing
scan_node now self r n d =
    if n.id =? self
    then ([], record d { first_missed = delete n.id d.first_missed; stale = delete n.id d.stale })
    else if missing now r n
    then scan_missing now n d
    else ([], record d { first_missed = delete n.id d.first_missed; stale = delete n.id d.stale })

unfoldable pub scan_nodes :
    Time
    → String
    → NodeRegistry
    → List NodeInfo
    → FailureDetector
    → List NodeFailure × FailureDetector
scan_nodes now self r [] d = ([], d)
scan_nodes now self r (n ∷ ns) d =
    let (new, d') = scan_node now self r n d in
    let (rest, d'') = scan_nodes now self r ns d' in (new ++ rest, d'')

-- A hook that is not set, `none`, reads as: the backend is reachable, and the node has no name.
abbrev pub or_true : Option Bool → Bool
or_true none = true
or_true (some b) = b

abbrev pub or_empty : Option String → String
or_empty none = ""
or_empty (some s) = s

-- The failures that are returned are those that are counted, logged and passed to `onStale`, in
-- order.
unfoldable pub scan :
    Time
    → Option Bool
    → Option String
    → NodeRegistry
    → FailureDetector
    → List NodeFailure × FailureDetector
scan now backend_ok self r d =
    if or_true backend_ok
    then scan_nodes now (or_empty self) r (Registry.list r) (record d { backend_known = true })
    else ([], record d { backend_known = false })

unfoldable pub is_healthy : Time → String → NodeRegistry → FailureDetector → Bool
is_healthy now id r d = elim (Registry.get id r) [
  | none ↦ false
  | some n ↦ if missing now r n then false else not (is_some (lookup id d.stale))
]

unfoldable pub is_stale : String → NodeRegistry → FailureDetector → Bool
is_stale id r d =
    if is_some (lookup id d.stale)
    then true
    else elim (Registry.get id r) [ none ↦ true | some n ↦ is_offline n.state ]

unfoldable pub failures : FailureDetector → List NodeFailure
failures d = map (λ e. e.1) d.stale
