-- ===== src/Cluster/Load.antt =====
-- internal/cluster/health_load.go: the reported load of the nodes, and the assignment of new rooms.
pub mod Expiry
mod Tests
use pulse_rtc.Prelude.{
  ℕ, zero, suc, ◌+◌, ◌-◌, ◌*◌, ◌≤◌, ◌<◌, ◌≡◌, ◌≢◌, ◌↔◌, ◌⊎◌, inl, inr, refl, sym, ap, ◌∙◌, Bool,
  true, false, ◌&&◌, ◌||◌, not, Option, none, some, List, [], ◌∷◌, ◌++◌, map, String, arith, ltb,
  leb, ◌==◌, if◌then◌else◌, Bool-cases, Option-cases, length, length-append, take, drop, Eq, ◌=?◌,
  string_eq, All, All-append, is_some,
}
use pulse_rtc.Prelude.Map.{
  Map, lookup, insert, delete, lookup-insert, lookup-delete, Distinct, insert-Distinct,
  delete-Distinct, beq_self, lookup-insert_self, lookup-delete_self, map_laws, length-delete-le,
}
use pulse_rtc.Cluster.Node.{Time, seconds, NodeState, NodeInfo}

-- `NodeLoad`, without the three process figures that no decision reads.
pub record NodeLoad : Type 0 where
  pub node_id : String
  pub state : NodeState
  pub rooms : ℕ
  pub participants : ℕ
  pub publications : ℕ
  pub subscriptions : ℕ
  pub reported_at : Time

pub record LoadEntry : Type 0 where
  pub load : NodeLoad
  pub exp : Time

pub record AssignEntry : Type 0 where
  pub node_id : String
  pub exp : Time

pub record LoadStore : Type 0 where
  pub loads : Map String LoadEntry
  pub assign : Map String AssignEntry

unfoldable pub new_load_store : LoadStore
new_load_store = record { loads = []; assign = [] }

unfoldable pub put_room_assignment : Time → String → String → ℕ → LoadStore → LoadStore
put_room_assignment now room node ttl s = record s {
  assign =
      insert room (record { node_id = node; exp = now + (if ttl == 0 then seconds 10 else ttl) })
        s.assign;
}

unfoldable pub room_assignment : Time → String → LoadStore → Option String
room_assignment now room s = elim (lookup room s.assign) [
  | none ↦ none
  | some e ↦ if ltb e.exp now then none else some e.node_id
]

unfoldable pub publish_load : Time → NodeLoad → ℕ → LoadStore → LoadStore
publish_load now load ttl s = record s {
  loads =
      insert load.node_id
        (record { load = load; exp = now + (if ttl == 0 then seconds 6 else ttl) }) s.loads;
}

fresh_loads : Time → Map String LoadEntry → List NodeLoad
fresh_loads now [] = []
fresh_loads now ((id, e) ∷ m) =
    let rest = fresh_loads now m in if ltb now e.exp then e.load ∷ rest else rest

unfoldable pub load_snapshot : Time → LoadStore → List NodeLoad
unfolding fresh_loads
load_snapshot now s = fresh_loads now s.loads

unfoldable pub delete_load : String → LoadStore → LoadStore
delete_load node s = record s { loads = delete node s.loads }

-- `loadReporter.report`: the counts of the provider, if there is one, under this node's own name
-- and state, published for three intervals.
unfoldable pub report : Time → ℕ → NodeInfo → Option NodeLoad → LoadStore → LoadStore
unfolding publish_load
report now interval self provided s =
    let load : NodeLoad = elim provided [
      | none ↦ record {
        node_id = self.id;
        state = self.state;
        rooms = 0;
        participants = 0;
        publications = 0;
        subscriptions = 0;
        reported_at = now;
      }
      | some l ↦ record l { node_id = self.id; state = self.state; reported_at = now }
    ] in
    publish_load now load ((if interval == 0 then seconds 2 else interval) * 3) s
