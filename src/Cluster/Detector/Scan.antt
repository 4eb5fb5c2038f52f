-- ===== src/Cluster/Detector/Scan.antt =====
-- A pass of the detector, as it looks to one node.
use pulse_rtc.Prelude.{
  ℕ, ◌+◌, ◌≡◌, ◌≢◌, ◌⊎◌, inl, inr, refl, ap, ◌∙◌, Bool, true, false, ◌||◌, not, Option, none, some,
  List, [], ◌∷◌, ◌++◌, String, arith, ltb, if◌then◌else◌, Bool-cases, ◌=?◌, string_eq, All,
}
use pulse_rtc.Prelude.Map.{Map, lookup, lookup-insert, lookup-delete, Distinct}
use mathlib.Core.List.{append-nil}
use pulse_rtc.Prelude.Sort.{sort_by, insert_by, str_lt}
use pulse_rtc.Cluster.Node.{Time, NodeInfo}
use pulse_rtc.Cluster.Registry
use pulse_rtc.Cluster.Registry.{NodeRegistry, values}
use pulse_rtc.Cluster.Registry.Heartbeats.{IsValid}
use pulse_rtc.Cluster.Detector.{
  NodeFailure, FailureDetector, failure_of, missing, first_miss, scan_node, scan_nodes, or_true,
  or_empty, scan, is_healthy, is_stale,
}

-- What the detector keeps of one node: when it was first seen to miss, and its failure.
abbrev pub Marks : Type 0
Marks = Option Time × Option NodeFailure

pub marks : String → FailureDetector → Marks
marks id d = (lookup id d.first_missed, lookup id d.stale)

abbrev pub or_new : NodeFailure → Option NodeFailure → NodeFailure
or_new f none = f
or_new f (some g) = g

-- What a pass is meant to do to the marks of a node that is known: clear them if it is this node
-- itself or is not missing; else remember the first miss, and once that lies the grace period back,
-- mark a failure unless there is one.
abbrev pub judge : Time → String → NodeRegistry → ℕ → NodeInfo → Marks → Marks
judge now self r grace n m = if n.id =? self || not (missing now r n) then (none, none) else (
  some (first_miss now m.0),
  if ltb now (first_miss now m.0 + grace) then m.1 else some (or_new (failure_of now n) m.1),
)

marks-scan_node :
    (now : Time) (self : String) (r : NodeRegistry) (n : NodeInfo) (id : String)
    (d : FailureDetector)
    → (marks id (scan_node now self r n d).1
        ≡ (if n.id =? id then judge now self r d.grace n (marks id d) else marks id d))
      × ((scan_node now self r n d).1.grace ≡ d.grace)
unfolding marks scan_node
marks-scan_node now self r n id d = ground (
  arith,
  string_eq.beq_iff n.id id,
  lookup-delete n.id id d.first_missed,
  lookup-delete n.id id d.stale,
  lookup-insert n.id id now d.first_missed,
  lookup-insert n.id id (failure_of now n) d.stale,
)

-- The failures of a list that are about one node.
pub reported : String → List NodeFailure → List NodeFailure
reported id [] = []
reported id (f ∷ fs) = if f.node_id =? id then f ∷ reported id fs else reported id fs

reported-append :
    (id : String) (fs gs : List NodeFailure)
    → reported id (fs ++ gs) ≡ reported id fs ++ reported id gs
unfolding reported
reported-append id [] gs = refl
reported-append id (f ∷ fs) gs = ground (arith, reported-append id fs gs)

-- A failure is news if there was none before.
abbrev pub news : Option NodeFailure → Option NodeFailure → List NodeFailure
news none (some f) = f ∷ []
news _ _ = []

reported-scan_node :
    (now : Time) (self : String) (r : NodeRegistry) (n : NodeInfo) (id : String)
    (d : FailureDetector)
    → reported id (scan_node now self r n d).0
      ≡ (if n.id =? id then news (marks id d).1 (judge now self r d.grace n (marks id d)).1 else [])
unfolding reported marks scan_node
reported-scan_node now self r n id d = ground (arith, string_eq.beq_iff n.id id)

with_id : String → List NodeInfo → List NodeInfo
with_id id [] = []
with_id id (n ∷ ns) = if n.id =? id then n ∷ with_id id ns else with_id id ns

module _ (now : Time) (self : String) (r : NodeRegistry) (id : String) where
  scan_nodes_other :
      (ns : List NodeInfo) (d : FailureDetector)
      → with_id id ns ≡ []
      → (marks id (scan_nodes now self r ns d).1 ≡ marks id d)
        × (reported id (scan_nodes now self r ns d).0 ≡ [])
  unfolding scan_nodes with_id reported
  scan_nodes_other [] d e = (refl, refl)
  scan_nodes_other (n ∷ ns) d e = ground (
    arith,
    marks-scan_node now self r n id d,
    reported-scan_node now self r n id d,
    reported-append id (scan_node now self r n d).0
        (scan_nodes now self r ns (scan_node now self r n d).1).0,
    scan_nodes_other ns (scan_node now self r n d).1,
  )

  scan_nodes_one :
      (ns : List NodeInfo) (n : NodeInfo) (d : FailureDetector)
      → with_id id ns ≡ n ∷ []
      → (marks id (scan_nodes now self r ns d).1 ≡ judge now self r d.grace n (marks id d))
        × (reported id (scan_nodes now self r ns d).0
            ≡ news (marks id d).1 (judge now self r d.grace n (marks id d)).1)
  unfolding scan_nodes with_id
  scan_nodes_one [] n d e = cc
  scan_nodes_one (x ∷ ns) n d e = elim (Bool-cases (x.id =? id)) [
    | inl h ↦
        let e' : x ∷ with_id id ns ≡ n ∷ [] = rw h at e in
        let same : x ≡ n = ground arith in
        let last : with_id id ns ≡ [] = ground arith in
        let rest = scan_nodes_other ns (scan_node now self r x d).1 last in
        rw (← same) (
          rest.0 ∙ (marks-scan_node now self r x id d).0 ∙ rw h,
          reported-append id (scan_node now self r x d).0 _
              ∙ rw (rest.1, reported-scan_node now self r x id d, h) (append-nil _),
        )
    | inr h ↦
        let e' : with_id id ns ≡ n ∷ [] = rw h at e in
        let f = marks-scan_node now self r x id d in
        let kept : marks id (scan_node now self r x d).1 ≡ marks id d = f.0 ∙ rw h in
        let rest = scan_nodes_one ns n (scan_node now self r x d).1 e' in
        (
          rw (kept, f.1) at rest.0,
          reported-append id (scan_node now self r x d).0 _
              ∙ rw (reported-scan_node now self r x id d, h) (rw (kept, f.1) at rest.1),
        )
  ]

found : Option NodeInfo → List NodeInfo
found none = []
found (some n) = n ∷ []

with_id-insert_by :
    (id : String) (x : NodeInfo) (ns : List NodeInfo)
    → (x.id ≢ id ⊎ (with_id id ns ≡ []))
    → with_id id (insert_by (λ a b. str_lt a.id b.id) x ns) ≡ with_id id (x ∷ ns)
unfolding with_id insert_by
with_id-insert_by id x [] h = refl
with_id-insert_by id x (y ∷ ns) (inl h) =
    ground (arith, with_id-insert_by id x ns (inl h), string_eq.beq_iff x.id id)
with_id-insert_by id x (y ∷ ns) (inr h) = elim (Bool-cases (y.id =? id)) [
  | inl e ↦ absurd (ground arith)
  | inr e ↦
      let rest : with_id id ns ≡ [] = rw e at h in
      ground (arith, with_id-insert_by id x ns (inr rest))
]

with_id-list :
    (id : String) (m : Map String NodeInfo)
    → All (λ (e : String × NodeInfo). e.1.id ≡ e.0) m
    → Distinct m
    → with_id id (sort_by (λ a b. str_lt a.id b.id) (values m)) ≡ found (lookup id m)
unfolding with_id sort_by lookup found
with_id-list id [] h d = refl
with_id-list id ((k, n) ∷ m) h d =
    let rest = sort_by (λ a b. str_lt a.id b.id) (values m) in
    elim (Bool-cases (k =? id)) [
      | inl e ↦
          let same : k ≡ id = (string_eq.beq_iff k id).0 e in
          let none_left : with_id id rest ≡ [] =
            with_id-list id m h.1 d.1 ∙ ap found (rw same at d.0) in
          with_id-insert_by id n rest (inr none_left) ∙ ground (arith, string_eq.beq_iff n.id id)
      | inr e ↦
          let other : n.id ≢ id = ground (arith, string_eq.beq_iff k id) in
          with_id-insert_by id n rest (inl other)
          ∙ ground (arith, string_eq.beq_iff n.id id, with_id-list id m h.1 d.1)
    ]

scan_open :
    (now : Time) (backend : Option Bool) (self : Option String) (r : NodeRegistry)
    (d : FailureDetector)
    → or_true backend ≡ true
    → scan now backend self r d
      ≡ scan_nodes now (or_empty self) r (Registry.list r) (record d { backend_known = true })
unfolding scan
scan_open now backend self r d b = rw b

-- A pass with a reachable backend over a registry in which every node stands under its own id and
-- no id twice: the marks of a node that the registry knows become what `judge` makes of them, and
-- the failures that are reported of it are the one that is marked now, if none was marked before,
-- and else none.
pub scan_known :
    (now : Time) (backend : Option Bool) (self : Option String) (r : NodeRegistry)
    (d : FailureDetector) (n : NodeInfo) (id : String)
    → IsValid r
    → or_true backend ≡ true
    → Registry.get id r ≡ some n
    → (marks id (scan now backend self r d).1 ≡ judge now (or_empty self) r d.grace n (marks id d))
      × (reported id (scan now backend self r d).0
          ≡ news (marks id d).1 (judge now (or_empty self) r d.grace n (marks id d)).1)
unfolding Registry.list Registry.get marks
scan_known now backend self r d n id v b e = rw (scan_open now backend self r d b) (
    scan_nodes_one now (or_empty self) r id (Registry.list r) n (record d { backend_known = true })
      (with_id-list id r.nodes v.named v.distinct ∙ (unfold found in ap found e)))

-- Such a pass changes no mark of a node that the registry does not know, and reports nothing of it.
pub scan_absent :
    (now : Time) (backend : Option Bool) (self : Option String) (r : NodeRegistry)
    (d : FailureDetector) (id : String)
    → IsValid r
    → or_true backend ≡ true
    → Registry.get id r ≡ none
    → (marks id (scan now backend self r d).1 ≡ marks id d)
      × (reported id (scan now backend self r d).0 ≡ [])
unfolding Registry.list Registry.get marks
scan_absent now backend self r d id v b e = rw (scan_open now backend self r d b) (
    scan_nodes_other now (or_empty self) r id (Registry.list r) (record d { backend_known = true })
      (with_id-list id r.nodes v.named v.distinct ∙ (unfold found in ap found e)))

-- While the backend is not reachable a pass reports nothing, says that the verdict is not current,
-- and changes no mark of any node.
pub scan_unknown :
    (now : Time) (self : Option String) (r : NodeRegistry) (d : FailureDetector) (id : String)
    → ((scan now (some false) self r d).0 ≡ [])
      × ((scan now (some false) self r d).1.backend_known ≡ false)
      × (marks id (scan now (some false) self r d).1 ≡ marks id d)
unfolding scan marks
scan_unknown now self r d id = (refl, refl, refl)

-- No node is healthy and stale at once.
pub is_healthy-is_stale :
    (now : Time) (id : String) (r : NodeRegistry) (d : FailureDetector)
    → is_healthy now id r d ≡ true
    → is_stale id r d ≡ false
unfolding is_healthy is_stale
is_healthy-is_stale now id r d h = ground arith
