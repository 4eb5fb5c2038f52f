-- ===== src/Cluster/Policy/Choice.antt =====
-- What the policy chooses.
use pulse_rtc.Prelude.{
  ◌≡◌, inl, inr, refl, ap, ◌∙◌, true, false, Option, none, some, List, [], ◌∷◌, String, arith,
  if◌then◌else◌, Bool-cases, Option-cases, ◌=?◌, string_eq, All,
}
use mathlib.Core.List.{Mem, Perm, not-mem-nil, mem-cons_self, mem-cons}
use mathlib.Core.List.Perm
use mathlib.Core.Logic.Or
use pulse_rtc.Prelude.Float.{Floats}
use pulse_rtc.Prelude.Sort.{
  sort_by, All-of-sort_by, sort_by-IsSorted, IsSorted, str_lt_asymm, str_le_trans, sort_by-perm,
}
use pulse_rtc.Cluster.Load.{NodeLoad}
use pulse_rtc.Cluster.Policy.{
  LoadWeights, LeastLoadedPolicy, Reason, local, least_loaded, assigned, ok, find_node, score,
  weights_of, before, near_local, choose, select,
}

module _ (fl : Floats) (w : LoadWeights fl.Float) where
  before_asymm : (a b : NodeLoad) → before fl w a b ≡ true → before fl w b a ≡ false
  unfolding before
  before_asymm a b h = ground (
    arith,
    str_lt_asymm a.node_id b.node_id,
    fl.le_total (score fl w a) (score fl w b),
    fl.le_total (score fl w b) (score fl w a),
  )

  before_trans :
      (a b c : NodeLoad)
      → before fl w b a ≡ false
      → before fl w c b ≡ false
      → before fl w c a ≡ false
  unfolding before
  before_trans a b c h k = ground (
    arith,
    str_le_trans a.node_id b.node_id c.node_id,
    fl.le_total (score fl w a) (score fl w b),
    fl.le_total (score fl w b) (score fl w c),
    fl.le_total (score fl w a) (score fl w c),
    fl.le_trans (score fl w a) (score fl w b) (score fl w c),
    fl.le_trans (score fl w c) (score fl w b) (score fl w a),
    fl.le_trans (score fl w b) (score fl w c) (score fl w a),
    fl.le_trans (score fl w c) (score fl w a) (score fl w b),
    fl.le_trans (score fl w b) (score fl w a) (score fl w c),
    fl.le_trans (score fl w a) (score fl w c) (score fl w b),
  )

pub find_node_lem :
    (id : String) (c : NodeLoad) (cs : List NodeLoad)
    → find_node id cs ≡ some c
    → Mem c cs × (c.node_id ≡ id)
unfolding find_node
find_node_lem id c [] e = cc
find_node_lem id c (x ∷ cs) e = elim (Bool-cases (x.node_id =? id)) [
  | inl h ↦
      let same : x ≡ c = ground arith in
      rw (← same) (mem-cons_self, (string_eq.beq_iff x.node_id id).0 h)
  | inr h ↦ let r = find_node_lem id c cs (rw h at e) in (mem-cons.1 (Or.inr r.0), r.1)
]

module _ (fl : Floats) where
  -- What the reason of a choice says: a node that was chosen for its load has no candidate before
  -- it, by score and then by id; this node was chosen within the margin of every score.
  abbrev pub Justified : LeastLoadedPolicy fl.Float → List NodeLoad → NodeLoad → Reason → Type 0
  Justified p cs c local =
      (c.node_id ≡ p.local_node_id)
      × All
          (λ y.
            fl.le (score fl (weights_of fl p) c)
              (fl.add (score fl (weights_of fl p) y) p.prefer_local_margin)
            ≡ true)
          cs
  Justified p cs c least_loaded = All (λ y. before fl (weights_of fl p) y c ≡ false) cs
  Justified p cs c assigned = ⊥

  pub record Choice (p : LeastLoadedPolicy fl.Float) (cs : List NodeLoad) : Type 0 where
    pub chosen : NodeLoad
    pub reason : Reason
    pub answer : select fl p cs ≡ ok (chosen, reason)
    pub candidate : Mem chosen cs
    pub justified : Justified p cs chosen reason

  score_of_not_before :
      (w : LoadWeights fl.Float) (y c : NodeLoad)
      → before fl w y c ≡ false
      → fl.le (score fl w c) (score fl w y) ≡ true
  unfolding before
  score_of_not_before w y c h = ground (arith, fl.le_total (score fl w y) (score fl w c))

  within_margin :
      (w : LoadWeights fl.Float) (m : fl.Float) (c best : NodeLoad) (cs : List NodeLoad)
      → fl.le (score fl w c) (fl.add (score fl w best) m) ≡ true
      → All (λ y. before fl w y best ≡ false) cs
      → All (λ y. fl.le (score fl w c) (fl.add (score fl w y) m) ≡ true) cs
  within_margin w m c best [] h hs = tt
  within_margin w m c best (y ∷ ys) h hs = (
    fl.le_trans (score fl w c) (fl.add (score fl w best) m) (fl.add (score fl w y) m) h
        (fl.add_mono (score fl w best) (score fl w y) m (score_of_not_before w y best hs.0)),
    within_margin w m c best ys h hs.1,
  )

  before_self : (w : LoadWeights fl.Float) (c : NodeLoad) → before fl w c c ≡ false
  before_self w c = elim (Bool-cases (before fl w c c)) [
    | inl h ↦ before_asymm fl w c c h
    | inr h ↦ h
  ]

  -- The entry that the policy prefers for being here.
  abbrev here : LeastLoadedPolicy fl.Float → NodeLoad → List NodeLoad → Option NodeLoad
  here p best rest = if p.local_node_id =? "" then none else find_node p.local_node_id (best ∷ rest)

  near_local_lem :
      (p : LeastLoadedPolicy fl.Float) (w : LoadWeights fl.Float) (best c : NodeLoad)
      (rest : List NodeLoad)
      → near_local fl p w best (here p best rest) ≡ some c
      → (find_node p.local_node_id (best ∷ rest) ≡ some c)
        × (fl.le (score fl w c) (fl.add (score fl w best) p.prefer_local_margin) ≡ true)
  unfolding near_local
  near_local_lem p w best c rest e = ground arith

  select-choose :
      (p : LeastLoadedPolicy fl.Float) (cs sorted : List NodeLoad)
      → sort_by (before fl (weights_of fl p)) cs ≡ sorted
      → select fl p cs ≡ choose fl p (weights_of fl p) sorted
  unfolding select
  select-choose p cs sorted e = ap (choose fl p (weights_of fl p)) e

  choose_least :
      (p : LeastLoadedPolicy fl.Float) (w : LoadWeights fl.Float) (best : NodeLoad)
      (rest : List NodeLoad)
      → near_local fl p w best (here p best rest) ≡ none
      → choose fl p w (best ∷ rest) ≡ ok (best, least_loaded)
  unfolding choose
  choose_least p w best rest e = rw (e, choose)

  choose_local :
      (p : LeastLoadedPolicy fl.Float) (w : LoadWeights fl.Float) (best c : NodeLoad)
      (rest : List NodeLoad)
      → near_local fl p w best (here p best rest) ≡ some c
      → choose fl p w (best ∷ rest) ≡ ok (c, local)
  unfolding choose
  choose_local p w best c rest e = rw (e, choose)

  choose-Choice :
      (p : LeastLoadedPolicy fl.Float) (cs : List NodeLoad) (best : NodeLoad) (rest : List NodeLoad)
      → sort_by (before fl (weights_of fl p)) cs ≡ best ∷ rest
      → Choice p cs
  choose-Choice p cs best rest e =
      let w = weights_of fl p in
      let less = before fl w in
      let perm = sort_by-perm less cs in
      let sorted = sort_by-IsSorted less (before_asymm fl w) (before_trans fl w) cs in
      let sorted' : IsSorted less (best ∷ rest) = rw e at sorted in
      let firsts : All (λ y. less y best ≡ false) (best ∷ rest) = (before_self w best, sorted'.0) in
      let least : All (λ y. less y best ≡ false) cs =
        All-of-sort_by less (λ y. less y best ≡ false) cs (rw e firsts) in
      let inside : (c : NodeLoad) → Mem c (best ∷ rest) → Mem c cs =
        λ c m. (Perm.mem_iff perm).0 (rw e m) in
      elim (Option-cases (near_local fl p w best (here p best rest))) [
        | inl none_near ↦ record {
          chosen = best;
          reason = least_loaded;
          answer = select-choose p cs _ e ∙ choose_least p w best rest none_near;
          candidate = inside best mem-cons_self;
          justified = least;
        }
        | inr (c, near) ↦
            let (found, close) = near_local_lem p w best c rest near in
            let (member, named) = find_node_lem p.local_node_id c (best ∷ rest) found in
            record {
              chosen = c;
              reason = local;
              answer = select-choose p cs _ e ∙ choose_local p w best c rest near;
              candidate = inside c member;
              justified = (named, within_margin w p.prefer_local_margin c best cs close least);
            }
      ]

  sort_cases :
      (w : LoadWeights fl.Float) (c : NodeLoad) (cs sorted : List NodeLoad)
      → Perm sorted (c ∷ cs)
      → (best : NodeLoad) × (rest : List NodeLoad) × (sorted ≡ best ∷ rest)
  sort_cases w c cs [] q = absurd (not-mem-nil ((Perm.mem_iff q).1 mem-cons_self))
  sort_cases w c cs (best ∷ rest) q = (best, rest, refl)

  -- Whatever the candidates, if there is one: the policy chooses one of them, and its reason holds.
  -- Either no candidate has a lower score, nor an equal score with a smaller id; or the choice is
  -- this node, and its score is within the margin of the score of every candidate.
  pub select-Choice :
      (p : LeastLoadedPolicy fl.Float) (c : NodeLoad) (cs : List NodeLoad) → Choice p (c ∷ cs)
  select-Choice p c cs =
      let less = before fl (weights_of fl p) in
      let (best, rest, e) =
        sort_cases (weights_of fl p) c cs (sort_by less (c ∷ cs)) (sort_by-perm less (c ∷ cs)) in
      choose-Choice p (c ∷ cs) best rest e
