-- ===== src/Cluster/Registry/Heartbeats.antt =====
-- What the registry says of a node after its calls: registration, heartbeats, staleness, counts.
use pulse_rtc.Prelude.{
  ℕ, suc, ◌+◌, ◌≤◌, ◌<◌, ◌≡◌, ◌≢◌, ◌↔◌, inl, inr, refl, ap, Bool, true, ◌&&◌, not, Option, none,
  some, List, [], ◌∷◌, String, arith, if◌then◌else◌, Bool-cases, Option-cases, length, ◌=?◌,
  string_eq, All,
}
use pulse_rtc.Prelude.Map.{
  Map, lookup, insert, delete, lookup-insert, Distinct, insert-Distinct, delete-Distinct, beq_self,
  lookup-insert_self,
}
use mathlib.Core.List.{Perm}
use pulse_rtc.Prelude.Sort.{
  sort_by, insert_by, IsSorted, sort_by-perm, sort_by-IsSorted, str_lt, str_lt_asymm, str_le_trans,
}
use pulse_rtc.Cluster.Node.{Time, accepts_sessions, NodeInfo}
use pulse_rtc.Cluster.Registry.{
  NodeRegistry, refreshed, register, unregister, heartbeat, get, values, list, is_stale, Counts,
  count_nodes, counts,
}

-- Every node stands under its own id, and no id twice.
pub record IsValid (r : NodeRegistry) : Type 0 where
  pub named : All (λ (e : String × NodeInfo). e.1.id ≡ e.0) r.nodes
  pub distinct : Distinct r.nodes

insert-named :
    (id : String) (n : NodeInfo) (m : Map String NodeInfo)
    → n.id ≡ id
    → All (λ (e : String × NodeInfo). e.1.id ≡ e.0) m
    → All (λ (e : String × NodeInfo). e.1.id ≡ e.0) (insert id n m)
unfolding insert
insert-named id n [] e h = (e, tt)
insert-named id n ((k, w) ∷ m) e h =
    ground (arith, string_eq.beq_iff k id, insert-named id n m e h.1)

delete-named :
    (id : String) (m : Map String NodeInfo)
    → All (λ (e : String × NodeInfo). e.1.id ≡ e.0) m
    → All (λ (e : String × NodeInfo). e.1.id ≡ e.0) (delete id m)
unfolding delete
delete-named id [] h = tt
delete-named id ((k, w) ∷ m) h = ground (arith, delete-named id m h.1)

pub lookup-named :
    (id : String) (n : NodeInfo) (m : Map String NodeInfo)
    → All (λ (e : String × NodeInfo). e.1.id ≡ e.0) m
    → lookup id m ≡ some n
    → n.id ≡ id
unfolding lookup
lookup-named id n [] h e = cc
lookup-named id n ((k, w) ∷ m) h e = ground (arith, string_eq.beq_iff k id, lookup-named id n m h.1)

pub data Op : Type 0 where
  registers : NodeInfo → Op
  unregisters beats : String → Op

unfoldable pub step : NodeRegistry → Time × Op → NodeRegistry
step r (now, registers n) = (register now n r).1
step r (now, unregisters id) = unregister id r
step r (now, beats id) = (heartbeat now id r).1

refreshed-id : (now : Time) (n : NodeInfo) (o : Option NodeInfo) → (refreshed now n o).id ≡ n.id
refreshed-id now n none = refl
refreshed-id now n (some old) = refl

register-IsValid :
    (now : Time) (n : NodeInfo) (r : NodeRegistry) → IsValid r → IsValid (register now n r).1
unfolding register
register-IsValid now n r v = elim (Bool-cases (n.id =? "")) [
  | inl e ↦ rw e v
  | inr e ↦ rw e (record {
    named = insert-named n.id _ r.nodes (refreshed-id now n (lookup n.id r.nodes)) v.named;
    distinct = insert-Distinct n.id _ r.nodes v.distinct;
  })
]

heartbeat-IsValid :
    (now : Time) (id : String) (r : NodeRegistry) → IsValid r → IsValid (heartbeat now id r).1
unfolding heartbeat
heartbeat-IsValid now id r v = elim (Option-cases (lookup id r.nodes)) [
  | inl e ↦ rw (e, heartbeat) v
  | inr (n, e) ↦
      rw (e, heartbeat)
        (record {
          named = insert-named id _ r.nodes (lookup-named id n r.nodes v.named e) v.named;
          distinct = insert-Distinct id _ r.nodes v.distinct;
        })
]

step-IsValid : (r : NodeRegistry) (o : Time × Op) → IsValid r → IsValid (step r o)
unfolding step unregister
step-IsValid r (now, registers n) v = register-IsValid now n r v
step-IsValid r (now, unregisters id) v = record {
  named = delete-named id r.nodes v.named;
  distinct = delete-Distinct id r.nodes v.distinct;
}
step-IsValid r (now, beats id) v = heartbeat-IsValid now id r v

unfoldable pub run : NodeRegistry → List (Time × Op) → NodeRegistry
run r [] = r
run r (o ∷ os) = run (step r o) os

-- From a registry in which every node stands under its own id and no id twice, every history of
-- registrations, removals and heartbeats leads to one of that kind.
pub run-IsValid : (r : NodeRegistry) (os : List (Time × Op)) → IsValid r → IsValid (run r os)
unfolding run
run-IsValid r [] v = v
run-IsValid r (o ∷ os) v = run-IsValid (step r o) os (step-IsValid r o v)

insert-insert :
    (k : String) (v w : NodeInfo) (m : Map String NodeInfo)
    → insert k v (insert k w m) ≡ insert k v m
unfolding insert
insert-insert k v w [] = ground (arith, beq_self k)
insert-insert k v w ((j, x) ∷ m) = ground (arith, insert-insert k v w m)

refreshed_twice :
    (t u : Time) (n : NodeInfo) (o : Option NodeInfo)
    → refreshed u n (some (refreshed t n o)) ≡ refreshed u n o
refreshed_twice t u n none = ground arith
refreshed_twice t u n (some old) = ground arith

-- Registration is idempotent: a node that registers twice, with no other call between, leaves the
-- registry as if it had registered once, at the later time.
pub register-register :
    (t u : Time) (n : NodeInfo) (r : NodeRegistry)
    → (register u n (register t n r).1).1 ≡ (register u n r).1
unfolding register
register-register t u n r = elim (Bool-cases (n.id =? "")) [
  | inl e ↦ ground arith
  | inr e ↦ ground (
    arith,
    lookup-insert_self n.id (refreshed t n (lookup n.id r.nodes)) r.nodes,
    refreshed_twice t u n (lookup n.id r.nodes),
    insert-insert n.id (refreshed u n (lookup n.id r.nodes)) (refreshed t n (lookup n.id r.nodes))
        r.nodes,
  )
]

-- A node that is known and sends a heartbeat at time `t` is answered that it is known and is stored
-- with that time and otherwise as before; it is stale at a time `u` exactly if staleness is in use
-- and `u` lies more than its window after `t`; and the entry of every other node is unchanged.
pub heartbeat_lem :
    (t u : Time) (id : String) (n : NodeInfo) (r : NodeRegistry)
    → get id r ≡ some n
    → ((heartbeat t id r).0 ≡ true)
      × (get id (heartbeat t id r).1 ≡ some (record n { last_seen = t }))
      × ((is_stale u (heartbeat t id r).1 (record n { last_seen = t }) ≡ true)
          ↔ ((r.stale_after ≢ 0) × (t + r.stale_after < u)))
      × ((j : String) → j ≢ id → get j (heartbeat t id r).1 ≡ get j r)
unfolding heartbeat get is_stale
heartbeat_lem t u id n r e = (
  ground arith,
  ground (arith, lookup-insert_self id (record n { last_seen = t }) r.nodes),
  ground arith,
  λ j h.
      ground
        (arith, lookup-insert id j (record n { last_seen = t }) r.nodes, string_eq.beq_iff id j),
)

pub count_if : (NodeInfo → Bool) → List NodeInfo → ℕ
count_if p [] = 0
count_if p (n ∷ ns) = if p n then count_if p ns + 1 else count_if p ns

-- The nodes that `Counts` calls active.
abbrev pub is_active : Time → NodeRegistry → NodeInfo → Bool
is_active now r n = not (is_stale now r n) && accepts_sessions n.state

count_nodes_lem :
    (now : Time) (r : NodeRegistry) (ns : List NodeInfo) (c : Counts)
    → ((count_nodes now r ns c).total ≡ c.total + length ns)
      × ((count_nodes now r ns c).active ≡ c.active + count_if (is_active now r) ns)
      × ((count_nodes now r ns c).stale ≡ c.stale + count_if (is_stale now r) ns)
unfolding count_nodes count_if
count_nodes_lem now r [] c = omega arith
count_nodes_lem now r (n ∷ ns) c = ground (
  arith,
  count_nodes_lem now r ns (record c {
    total = c.total + 1;
    stale = if is_stale now r n then c.stale + 1 else c.stale;
    active =
        if is_stale now r n
        then c.active
        else if accepts_sessions n.state
        then c.active + 1
        else c.active;
  }),
)

-- `List` returns every known node once and no other, in the order of their ids.
pub list_lem :
    (r : NodeRegistry)
    → Perm (list r) (values r.nodes) × IsSorted (λ a b. str_lt a.id b.id) (list r)
unfolding list
list_lem r = (
  sort_by-perm (λ a b. str_lt a.id b.id) (values r.nodes),
  sort_by-IsSorted (λ a b. str_lt a.id b.id) (λ a b. str_lt_asymm a.id b.id)
      (λ a b c. str_le_trans a.id b.id c.id) (values r.nodes),
)

count_if-insert_by :
    (p : NodeInfo → Bool) (less : NodeInfo → NodeInfo → Bool) (x : NodeInfo) (ns : List NodeInfo)
    → (count_if p (insert_by less x ns) ≡ count_if p (x ∷ ns))
      × (length (insert_by less x ns) ≡ suc (length ns))
unfolding insert_by count_if
count_if-insert_by p less x [] = (refl, refl)
count_if-insert_by p less x (y ∷ ys) = ground (arith, count_if-insert_by p less x ys)

count_if-sort_by :
    (p : NodeInfo → Bool) (less : NodeInfo → NodeInfo → Bool) (ns : List NodeInfo)
    → (count_if p (sort_by less ns) ≡ count_if p ns) × (length (sort_by less ns) ≡ length ns)
unfolding sort_by count_if
count_if-sort_by p less [] = (refl, refl)
count_if-sort_by p less (x ∷ ns) =
    ground (arith, count_if-sort_by p less ns, count_if-insert_by p less x (sort_by less ns))

count_if-disjoint :
    (now : Time) (r : NodeRegistry) (ns : List NodeInfo)
    → count_if (is_active now r) ns + count_if (is_stale now r) ns ≤ length ns
unfolding count_if
count_if-disjoint now r [] = omega arith
count_if-disjoint now r (n ∷ ns) = ground (arith, count_if-disjoint now r ns)

length-values : (m : Map String NodeInfo) → length (values m) ≡ length m
length-values [] = refl
length-values (e ∷ m) = ap suc (length-values m)

-- `Counts` returns the number of known nodes, of those that are not stale and accept sessions, and
-- of those that are stale; the last two never exceed the first together.
pub counts_lem :
    (now : Time) (r : NodeRegistry)
    → ((counts now r).total ≡ length r.nodes)
      × ((counts now r).active ≡ count_if (is_active now r) (values r.nodes))
      × ((counts now r).stale ≡ count_if (is_stale now r) (values r.nodes))
      × ((counts now r).active + (counts now r).stale ≤ (counts now r).total)
counts_lem now r =
    unfold counts in
    unfold list in
    let less = λ (a b : NodeInfo). str_lt a.id b.id in
    let ns : List NodeInfo = values r.nodes in
    omega (
      arith,
      count_nodes_lem now r (sort_by less ns) (record { total = 0; active = 0; stale = 0 }),
      count_if-sort_by (is_active now r) less ns,
      count_if-sort_by (is_stale now r) less ns,
      count_if-disjoint now r ns,
      length-values r.nodes,
    )
