-- ===== src/Cluster/Policy.antt =====
-- internal/cluster/routing_roomrouter.go, the scoring: the node with the least load, or this node
-- if its load is near the least.
pub mod Choice
mod Tests
use pulse_rtc.Prelude.{
  ℕ, zero, suc, ◌+◌, ◌-◌, ◌*◌, ◌≤◌, ◌<◌, ◌≡◌, ◌≢◌, ◌↔◌, ◌⊎◌, inl, inr, refl, sym, ap, ◌∙◌, Bool,
  true, false, ◌&&◌, ◌||◌, not, Option, none, some, List, [], ◌∷◌, ◌++◌, map, String, arith, ltb,
  leb, ◌==◌, if◌then◌else◌, Bool-cases, Option-cases, length, length-append, take, drop, Eq, ◌=?◌,
  string_eq, All, All-append, is_some,
}
use pulse_rtc.Prelude.Float.{Floats, lt, equal, half, quarter}
use pulse_rtc.Prelude.Sort.{sort_by, str_lt}
use pulse_rtc.Cluster.Node.{Error, error, no_capacity}
use pulse_rtc.Cluster.Load.{NodeLoad}

pub record LoadWeights (F : Type 0) : Type 0 where
  pub participant : F
  pub publication : F
  pub subscription : F
  pub room : F

pub record LeastLoadedPolicy (F : Type 0) : Type 0 where
  pub weights : LoadWeights F
  pub prefer_local_margin : F
  pub local_node_id : String

pub data Reason : Type 0 where
  local least_loaded assigned : Reason

-- A result of Go's form `(value, error)`, where the value is not used beside an error.
pub data Result (A : Type 0) : Type 0 where
  ok : A → Result A
  err : Error → Result A

unfoldable pub find_node : String → List NodeLoad → Option NodeLoad
find_node id [] = none
find_node id (l ∷ ls) = if l.node_id =? id then some l else find_node id ls

module _ (fl : Floats) where
  unfoldable pub default_load_weights : LoadWeights fl.Float
  default_load_weights = record {
    participant = fl.of_ℕ 1;
    publication = half fl;
    subscription = quarter fl;
    room = fl.of_ℕ 2;
  }

  unfoldable pub score : LoadWeights fl.Float → NodeLoad → fl.Float
  score w l =
      fl.add
        (fl.add
          (fl.add (fl.mul (fl.of_ℕ l.participants) w.participant)
            (fl.mul (fl.of_ℕ l.publications) w.publication))
          (fl.mul (fl.of_ℕ l.subscriptions) w.subscription))
        (fl.mul (fl.of_ℕ l.rooms) w.room)

  abbrev pub is_zero : fl.Float → Bool
  is_zero = equal fl (fl.of_ℕ 0)

  -- The weights in use: the defaults, if none is set.
  unfoldable pub weights_of : LeastLoadedPolicy fl.Float → LoadWeights fl.Float
  unfolding default_load_weights
  weights_of p =
      let w = p.weights in
      if is_zero w.participant && is_zero w.publication && is_zero w.subscription && is_zero w.room
      then default_load_weights
      else w

  -- By score, and by id where two scores are equal.
  unfoldable pub before : LoadWeights fl.Float → NodeLoad → NodeLoad → Bool
  before w a b =
      if not (equal fl (score w a) (score w b))
      then lt fl (score w a) (score w b)
      else str_lt a.node_id b.node_id

  -- The entry of this node, if it is near enough to the best.
  unfoldable pub near_local :
      LeastLoadedPolicy fl.Float
      → LoadWeights fl.Float
      → NodeLoad
      → Option NodeLoad
      → Option NodeLoad
  near_local p w best none = none
  near_local p w best (some c) =
      if fl.le (score w c) (fl.add (score w best) p.prefer_local_margin) then some c else none

  unfoldable pub choose :
      LeastLoadedPolicy fl.Float → LoadWeights fl.Float → List NodeLoad → Result (NodeLoad × Reason)
  choose p w [] = err (error no_capacity)
  choose p w (best ∷ rest) =
      let here : Option NodeLoad =
        (if p.local_node_id =? "" then none else find_node p.local_node_id (best ∷ rest)) in
      elim (near_local p w best here) [ none ↦ ok (best, least_loaded) | some c ↦ ok (c, local) ]

  unfoldable pub select : LeastLoadedPolicy fl.Float → List NodeLoad → Result (NodeLoad × Reason)
  unfolding choose near_local find_node weights_of before
  select p candidates = let w = weights_of p in choose p w (sort_by (before w) candidates)
