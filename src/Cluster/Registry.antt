-- ===== src/Cluster/Registry.antt =====
-- internal/cluster/registry.go: the nodes that are known, with their heartbeats.
pub mod Heartbeats
mod Tests
use pulse_rtc.Prelude.{
  ℕ, zero, suc, ◌+◌, ◌-◌, ◌*◌, ◌≤◌, ◌<◌, ◌≡◌, ◌≢◌, ◌↔◌, ◌⊎◌, inl, inr, refl, sym, ap, ◌∙◌, Bool,
  true, false, ◌&&◌, ◌||◌, not, Option, none, some, List, [], ◌∷◌, ◌++◌, map, String, arith, ltb,
  leb, ◌==◌, if◌then◌else◌, Bool-cases, Option-cases, length, length-append, take, drop, Eq, ◌=?◌,
  string_eq, All, All-append, is_some,
}
use pulse_rtc.Prelude.Map.{
  Map, lookup, insert, delete, lookup-insert, lookup-delete, Distinct, insert-Distinct,
  delete-Distinct, beq_self, lookup-insert_self, lookup-delete_self, map_laws, length-delete-le,
}
use pulse_rtc.Prelude.Sort.{sort_by, str_lt}
use pulse_rtc.Cluster.Node.{Time, NodeState, accepts_sessions, NodeInfo, Error, error, bad_request}

pub record NodeRegistry : Type 0 where
  pub stale_after : ℕ
  pub nodes : Map String NodeInfo

unfoldable pub new_node_registry : ℕ → NodeRegistry
new_node_registry stale_after = record { stale_after = stale_after; nodes = [] }

-- What `Register` stores of a node, beside the entry that stands under its id.
abbrev pub refreshed : Time → NodeInfo → Option NodeInfo → NodeInfo
refreshed now node none = record node { last_seen = now }
refreshed now node (some old) = record node {
  started_at = if node.started_at == 0 then old.started_at else node.started_at;
  last_seen = now;
}

unfoldable pub register : Time → NodeInfo → NodeRegistry → Option Error × NodeRegistry
register now node r = if node.id =? "" then (some (error bad_request), r) else (
  none,
  record r { nodes = insert node.id (refreshed now node (lookup node.id r.nodes)) r.nodes },
)

unfoldable pub unregister : String → NodeRegistry → NodeRegistry
unregister id r = record r { nodes = delete id r.nodes }

unfoldable pub heartbeat : Time → String → NodeRegistry → Bool × NodeRegistry
heartbeat now id r = elim (lookup id r.nodes) [
  | none ↦ (false, r)
  | some node ↦ (true, record r { nodes = insert id (record node { last_seen = now }) r.nodes })
]

unfoldable pub get : String → NodeRegistry → Option NodeInfo
get id r = lookup id r.nodes

abbrev pub values : Map String NodeInfo → List NodeInfo
values = map (λ e. e.1)

unfoldable pub list : NodeRegistry → List NodeInfo
list r = sort_by (λ a b. str_lt a.id b.id) (values r.nodes)

-- `now.Sub(node.LastSeen) > staleAfter`.
unfoldable pub is_stale : Time → NodeRegistry → NodeInfo → Bool
is_stale now r node = if r.stale_after == 0 then false else ltb (node.last_seen + r.stale_after) now

pub record Counts : Type 0 where
  pub total : ℕ
  pub active : ℕ
  pub stale : ℕ

-- The loop of `Counts`.
unfoldable pub count_nodes : Time → NodeRegistry → List NodeInfo → Counts → Counts
count_nodes now r [] c = c
count_nodes now r (n ∷ ns) c = count_nodes now r ns (record c {
  total = c.total + 1;
  stale = if is_stale now r n then c.stale + 1 else c.stale;
  active =
      if is_stale now r n
      then c.active
      else if accepts_sessions n.state
      then c.active + 1
      else c.active;
})

unfoldable pub counts : Time → NodeRegistry → Counts
unfolding count_nodes list is_stale accepts_sessions
counts now r = count_nodes now r (list r) (record { total = 0; active = 0; stale = 0 })
