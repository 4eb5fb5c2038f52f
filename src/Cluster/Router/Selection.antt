-- ===== src/Cluster/Router/Selection.antt =====
-- What a selection returns.
use pulse_rtc.Prelude.{
  ℕ, ◌+◌, ◌≡◌, inl, inr, refl, sym, ap, ◌∙◌, Bool, true, false, Option, none, some, List, [], ◌∷◌,
  String, arith, leb, if◌then◌else◌, Bool-cases, Option-cases, string_eq, All,
}
use pulse_rtc.Prelude.Map.{Map, lookup, insert, lookup-insert, Distinct}
use mathlib.Core.List.{Mem, mem-cons, not-mem-nil}
use mathlib.Core.Logic.Or
use pulse_rtc.Prelude.Float.{Floats}
use pulse_rtc.Prelude.Sort.{All-sort_by, str_lt}
use pulse_rtc.Cluster.Node.{accepts_sessions, Time, NodeInfo}
use pulse_rtc.Cluster.Registry
use pulse_rtc.Cluster.Registry.{NodeRegistry, values}
use pulse_rtc.Cluster.Registry.Heartbeats.{IsValid, lookup-named}
use pulse_rtc.Cluster.Load.{NodeLoad, room_assignment}
use pulse_rtc.Cluster.Policy.{Reason, Result, ok, err}
use pulse_rtc.Cluster.Policy.Choice.{select-Choice, find_node_lem}
use pulse_rtc.Cluster.Router.{
  RouterConfig, RouterState, state_usable, fresh_reports, empty_load, load_or, add_pending,
  apply_pending, info_or_id, load_of_node, over_hard_limit, eligible, candidates, PendingCount,
  select_new, assigned_candidate, select_among, select_node,
}

true_prop : (b : Bool) → IsProp (b ≡ true)
true_prop b = hlevel

-- A test that holds of every entry holds of each member.
All-mem :
    (p : NodeLoad → Bool) (cs : List NodeLoad) (c : NodeLoad)
    → All (λ x. p x ≡ true) cs
    → Mem c cs
    → p c ≡ true
All-mem p [] c h m = absurd (not-mem-nil m)
All-mem p (x ∷ cs) c h m =
    Or.elim (true_prop (p c)) (mem-cons.0 m) (λ e. rw e h.0) (All-mem p cs c h.1)

get-weaken :
    (k : String) (w : NodeInfo) (m : Map String NodeInfo) (ns : List NodeInfo)
    → lookup k m ≡ none
    → All (λ n. lookup n.id m ≡ some n) ns
    → All (λ n. lookup n.id ((k, w) ∷ m) ≡ some n) ns
unfolding lookup
get-weaken k w m [] d h = tt
get-weaken k w m (n ∷ ns) d h =
    (ground (arith, string_eq.beq_iff k n.id), get-weaken k w m ns d h.1)

get-values :
    (m : Map String NodeInfo)
    → All (λ (e : String × NodeInfo). e.1.id ≡ e.0) m
    → Distinct m
    → All (λ n. lookup n.id m ≡ some n) (values m)
get-values [] h d = tt
get-values ((k, n) ∷ m) h d = (
  (unfold lookup in ground (arith, string_eq.beq_iff k n.id)),
  get-weaken k n m (values m) d.0 (get-values m h.1 d.1),
)

-- Every listed node is found under its id.
get-list :
    (r : NodeRegistry) → IsValid r → All (λ n. Registry.get n.id r ≡ some n) (Registry.list r)
unfolding Registry.list Registry.get
get-list r v =
    All-sort_by (λ a b. str_lt a.id b.id) _ (values r.nodes) (get-values r.nodes v.named v.distinct)

-- Every report stands under the id of its node.
abbrev Named : Map String NodeLoad → Type 0
Named m = (id : String) (l : NodeLoad) → lookup id m ≡ some l → l.node_id ≡ id

fresh_reports-Named :
    (now : Time) (stale : ℕ) (ls : List NodeLoad) (m : Map String NodeLoad)
    → Named m
    → Named (fresh_reports now stale ls m)
unfolding fresh_reports
fresh_reports-Named now stale [] m h = h
fresh_reports-Named now stale (l ∷ ls) m h =
    fresh_reports-Named now stale ls
      (if leb now (l.reported_at + stale) then insert l.node_id l m else m)
      (λ id x.
        ground (arith, lookup-insert l.node_id id l m, string_eq.beq_iff l.node_id id, h id x))

load_or-Named :
    (n : NodeInfo) (m : Map String NodeLoad)
    → Named m
    → (load_or (empty_load n) (lookup n.id m)).node_id ≡ n.id
load_or-Named n m h = elim (Option-cases (lookup n.id m)) [
  | inl e ↦ rw e refl
  | inr (l, e) ↦ rw e (h n.id l e)
]

add_pending-id : (l : NodeLoad) (o : Option PendingCount) → (add_pending l o).node_id ≡ l.node_id
add_pending-id l none = refl
add_pending-id l (some pc) = refl

module _ (fl : Floats) (now : Time) (r : NodeRegistry) (cfg : RouterConfig fl.Float)
    (s : RouterState) (by_id : Map String NodeLoad) where
  -- A known node passes the tests of a candidate.
  abbrev pub eligible_at : Option NodeInfo → Bool
  eligible_at none = false
  eligible_at (some n) = eligible fl now r cfg s by_id n

  load_of_node-id : (n : NodeInfo) → Named by_id → (load_of_node fl s by_id n).node_id ≡ n.id
  unfolding apply_pending
  load_of_node-id n h =
      add_pending-id (load_or (empty_load n) (lookup n.id by_id)) _ ∙ load_or-Named n by_id h

  candidates_lem :
      (ns : List NodeInfo)
      → Named by_id
      → All (λ n. Registry.get n.id r ≡ some n) ns
      → All
          (λ c. eligible_at (Registry.get c.node_id r) ≡ true)
          (candidates fl now r cfg s by_id ns)
  unfolding candidates
  candidates_lem [] named h = tt
  candidates_lem (n ∷ ns) named h =
      let rest = candidates_lem ns named h.1 in
      elim (Bool-cases (eligible fl now r cfg s by_id n)) [
        | inl e ↦
            let found : eligible_at (Registry.get n.id r) ≡ true = rw h.0 e in
            let here : eligible_at (Registry.get (load_of_node fl s by_id n).node_id r) ≡ true =
              rw (load_of_node-id n named) found in
            rw e (here, rest)
        | inr e ↦ rw e rest
      ]

  known_lem :
      (id : String) (n : NodeInfo)
      → IsValid r
      → eligible_at (Registry.get id r) ≡ true
      → info_or_id id (Registry.get id r) ≡ n
      → (Registry.get n.id r ≡ some n) × (eligible fl now r cfg s by_id n ≡ true)
  unfolding Registry.get
  known_lem id n v e h = elim (Option-cases (lookup id r.nodes)) [
    | inl none_here ↦ let impossible : false ≡ true = sym (ap eligible_at none_here) ∙ e in cc
    | inr (m, found) ↦
        let same : m ≡ n = sym (ap (info_or_id id) found) ∙ h in
        let named : m.id ≡ id = lookup-named id m r.nodes v.named found in
        rw (← same) (ap (λ i. lookup i r.nodes) named ∙ found, sym (ap eligible_at found) ∙ e)
  ]

  -- The node that a selection returns is one of its candidates.
  abbrev ComesFrom : List NodeLoad → Result (NodeInfo × Reason) → Type 0
  ComesFrom cs (err e) = Unit
  ComesFrom cs (ok (n, reason)) =
      (c : NodeLoad) × Mem c cs × (info_or_id c.node_id (Registry.get c.node_id r) ≡ n)

  select_new_lem :
      (self : NodeInfo) (room : String) (c : NodeLoad) (cs : List NodeLoad)
      → ComesFrom (c ∷ cs) (select_new fl now self r cfg room (c ∷ cs) s).0
  unfolding select_new
  select_new_lem self room c cs =
      let ch = select-Choice fl (record cfg.policy { local_node_id = self.id }) c cs in
      rw (ch.answer, select_new) (ch.chosen, ch.candidate, refl)

  assigned_candidate_lem :
      (o : Option String) (l : NodeLoad) (cs : List NodeLoad)
      → assigned_candidate fl o cs ≡ some l
      → Mem l cs
  assigned_candidate_lem none l cs e = cc
  assigned_candidate_lem (some id) l cs e = (find_node_lem id l cs e).0

  select_among_lem :
      (self : NodeInfo) (room : String) (cs : List NodeLoad)
      → ComesFrom cs (select_among fl now self r cfg room cs s).0
  unfolding select_among
  select_among_lem self room [] = tt
  select_among_lem self room (c ∷ cs) =
      elim (Option-cases (assigned_candidate fl (room_assignment now room s.load) (c ∷ cs))) [
        | inl e ↦ rw (e, select_among) (select_new_lem self room c cs)
        | inr (l, e) ↦ rw (e, select_among) (l, (assigned_candidate_lem _ l (c ∷ cs) e), refl)
      ]

-- A successful selection from a valid registry returns a node that the registry knows, with the
-- entry it has there: it accepts sessions, is not stale, and its fresh load with the pending picks
-- is below the hard limits; the load snapshot was readable and the shared state was not reported
-- unusable.
pub select_node-eligible :
    (fl : Floats) (now : Time) (self : NodeInfo) (state_ok : Option Bool) (r : NodeRegistry)
    (cfg : RouterConfig fl.Float) (snapshot : Option (List NodeLoad)) (room : String)
    (s : RouterState) (n : NodeInfo) (reason : Reason)
    → IsValid r
    → (select_node fl now self state_ok r cfg snapshot room s).0 ≡ ok (n, reason)
    → (loads : List NodeLoad) × (snapshot ≡ some loads)
      × (state_usable state_ok ≡ true)
      × (Registry.get n.id r ≡ some n)
      × (accepts_sessions n.state ≡ true)
      × (Registry.is_stale now r n ≡ false)
      × (over_hard_limit fl cfg.cap
            (load_of_node fl s (fresh_reports now cfg.load_stale loads []) n)
          ≡ false)
unfolding select_node
select_node-eligible fl now self state_ok r cfg none room s n reason v h = cc
select_node-eligible fl now self state_ok r cfg (some loads) room s n reason v h =
    let by_id = fresh_reports now cfg.load_stale loads [] in
    let cs = candidates fl now r cfg s by_id (Registry.list r) in
    let named = fresh_reports-Named now cfg.load_stale loads [] (λ id l e. unfold lookup in cc) in
    let all = candidates_lem fl now r cfg s by_id (Registry.list r) named (get-list r v) in
    elim (Bool-cases (state_usable state_ok)) [
      | inl e ↦
          let from = select_among_lem fl now r cfg s by_id self room cs in
          let same : (select_among fl now self r cfg room cs s).0 ≡ ok (n, reason) = rw e at h in
          let (c, member, is_n) : ComesFrom fl now r cfg s by_id cs (ok (n, reason)) =
            rw same at from in
          let passes =
            All-mem (λ c. eligible_at fl now r cfg s by_id (Registry.get c.node_id r)) cs c all
              member in
          let (known, passed) = known_lem fl now r cfg s by_id c.node_id n v passes is_n in
          (loads, refl, e, known, ground arith, ground arith, ground arith)
      | inr e ↦ let failed : err _ ≡ ok (n, reason) = rw e at h in cc
    ]
