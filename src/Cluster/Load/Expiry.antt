-- ===== src/Cluster/Load/Expiry.antt =====
-- How long a report and an assignment count.
use pulse_rtc.Prelude.{
  ℕ, ◌+◌, ◌≡◌, ◌≢◌, refl, Option, none, some, List, [], ◌∷◌, String, arith, ltb, leb, ◌==◌,
  if◌then◌else◌, ◌=?◌, string_eq, All,
}
use pulse_rtc.Prelude.Map.{
  Map, lookup, insert, lookup-insert, Distinct, insert-Distinct, lookup-insert_self,
}
use pulse_rtc.Cluster.Node.{Time, seconds}
use pulse_rtc.Cluster.Load.{
  NodeLoad, LoadEntry, AssignEntry, LoadStore, put_room_assignment, room_assignment, publish_load,
  fresh_loads, load_snapshot,
}

-- The span of an assignment or a report, where 0 asks for the default.
abbrev pub span : ℕ → ℕ → ℕ
span default ttl = if ttl == 0 then seconds default else ttl

-- An assignment of a room is read back up to and including the end of its span and not after it,
-- and leaves the assignments of other rooms and all reports as they were.
pub room_assignment-put :
    (t u : Time) (room node : String) (ttl : ℕ) (s : LoadStore)
    → (room_assignment u room (put_room_assignment t room node ttl s)
        ≡ (if leb u (t + span 10 ttl) then some node else none))
      × ((r : String)
          → r ≢ room
          → room_assignment u r (put_room_assignment t room node ttl s) ≡ room_assignment u r s)
      × (load_snapshot u (put_room_assignment t room node ttl s) ≡ load_snapshot u s)
unfolding room_assignment put_room_assignment load_snapshot
room_assignment-put t u room node ttl s =
    let e : AssignEntry = record { node_id = node; exp = t + span 10 ttl } in
    (
      ground (arith, lookup-insert_self room e s.assign),
      λ r ne. ground (arith, lookup-insert room r e s.assign, string_eq.beq_iff room r),
      refl,
    )

-- Every report stands under the id of its node, and no id twice.
pub record IsValid (s : LoadStore) : Type 0 where
  pub named : All (λ (e : String × LoadEntry). e.1.load.node_id ≡ e.0) s.loads
  pub distinct : Distinct s.loads

-- The report of a node in a snapshot.
pub load_of : String → List NodeLoad → Option NodeLoad
load_of id [] = none
load_of id (l ∷ ls) = if l.node_id =? id then some l else load_of id ls

abbrev pub live_load : Time → Option LoadEntry → Option NodeLoad
live_load u none = none
live_load u (some e) = if ltb u e.exp then some e.load else none

load_of-fresh_loads :
    (u : Time) (id : String) (m : Map String LoadEntry)
    → All (λ (e : String × LoadEntry). e.1.load.node_id ≡ e.0) m
    → Distinct m
    → load_of id (fresh_loads u m) ≡ live_load u (lookup id m)
unfolding load_of fresh_loads lookup
load_of-fresh_loads u id [] n d = refl
load_of-fresh_loads u id ((k, e) ∷ m) n d = ground (
  arith,
  string_eq.beq_iff k id,
  string_eq.beq_iff e.load.node_id id,
  load_of-fresh_loads u id m n.1 d.1,
)

insert-named :
    (l : NodeLoad) (x : Time) (m : Map String LoadEntry)
    → All (λ (e : String × LoadEntry). e.1.load.node_id ≡ e.0) m
    → All
        (λ (e : String × LoadEntry). e.1.load.node_id ≡ e.0)
        (insert l.node_id (record { load = l; exp = x }) m)
unfolding insert
insert-named l x [] h = (refl, tt)
insert-named l x ((k, w) ∷ m) h =
    ground (arith, string_eq.beq_iff k l.node_id, insert-named l x m h.1)

publish-IsValid :
    (t : Time) (l : NodeLoad) (ttl : ℕ) (s : LoadStore)
    → IsValid s
    → IsValid (publish_load t l ttl s)
unfolding publish_load
publish-IsValid t l ttl s v = record {
  named = insert-named l (t + span 6 ttl) s.loads v.named;
  distinct = insert-Distinct l.node_id _ s.loads v.distinct;
}

-- In a store in which every report stands under its node and no node twice, a published report is
-- in the snapshots before the end of its span and in no later one, in place of any earlier report
-- of that node; and the reports of other nodes in a snapshot are unchanged.
pub load_snapshot-publish :
    (t u : Time) (l : NodeLoad) (ttl : ℕ) (id : String) (s : LoadStore)
    → IsValid s
    → load_of id (load_snapshot u (publish_load t l ttl s)) ≡ (
        if l.node_id =? id
        then (if ltb u (t + span 6 ttl) then some l else none)
        else load_of id (load_snapshot u s))
unfolding load_snapshot publish_load
load_snapshot-publish t u l ttl id s v =
    let e : LoadEntry = record { load = l; exp = t + span 6 ttl } in
    let w = publish-IsValid t l ttl s v in
    ground (
      arith,
      load_of-fresh_loads u id (insert l.node_id e s.loads) w.named w.distinct,
      load_of-fresh_loads u id s.loads v.named v.distinct,
      lookup-insert l.node_id id e s.loads,
    )
