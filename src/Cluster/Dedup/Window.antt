-- ===== src/Cluster/Dedup/Window.antt =====
-- When a message counts as a duplicate.
use pulse_rtc.Prelude.{◌+◌, ◌≤◌, ◌≡◌, ◌≢◌, refl, false, [], ◌∷◌, String, arith, ltb, string_eq}
use pulse_rtc.Prelude.Map.{Map, lookup, lookup-insert, Distinct, lookup-insert_self}
use pulse_rtc.Cluster.Node.{Time}
use pulse_rtc.Cluster.Dedup.{DedupCache, live, mark_seen, sweep_seen, sweep}

-- The first call for an id that is not live answers that it is new. Another call for the id at a
-- later time, with no call for it between, answers that it is a duplicate exactly while less than
-- the window has passed; and what is answered for every other id is unchanged.
pub mark_seen-mark_seen :
    (t u : Time) (id : String) (d : DedupCache)
    → (mark_seen t id d).0 ≡ false
    → ((mark_seen u id (mark_seen t id d).1).0 ≡ ltb u (t + d.ttl))
      × ((j : String) → j ≢ id → (mark_seen u j (mark_seen t id d).1).0 ≡ (mark_seen u j d).0)
unfolding mark_seen
mark_seen-mark_seen t u id d h = (
  ground (arith, lookup-insert_self id (t + d.ttl) d.seen),
  λ j ne. ground (arith, lookup-insert id j (t + d.ttl) d.seen, string_eq.beq_iff id j),
)

lookup-sweep_seen :
    (now u : Time) (id : String) (m : Map String Time)
    → now ≤ u
    → Distinct m
    → live u (lookup id (sweep_seen now m)) ≡ live u (lookup id m)
unfolding lookup sweep_seen
lookup-sweep_seen now u id [] h d = refl
lookup-sweep_seen now u id ((k, exp) ∷ m) h d =
    ground (arith, string_eq.beq_iff k id, lookup-sweep_seen now u id m h d.1)

-- A sweep forgets only ids that have expired: from its time on, every call answers what it would
-- have answered without the sweep.
pub mark_seen-sweep :
    (now u : Time) (id : String) (d : DedupCache)
    → now ≤ u
    → Distinct d.seen
    → (mark_seen u id (sweep now d)).0 ≡ (mark_seen u id d).0
unfolding mark_seen sweep
mark_seen-sweep now u id d h v = ground (arith, lookup-sweep_seen now u id d.seen h v)
