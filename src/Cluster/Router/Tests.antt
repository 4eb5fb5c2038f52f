-- ===== src/Cluster/Router/Tests.antt =====
-- The theorems about the router at concrete inputs: two nodes, of which one is in another state.
use pulse_rtc.Prelude.{
  List, ℕ, ◌≡◌, refl, ap, true, false, none, some, [], ◌∷◌, String, arith, string_eq,
}
use pulse_rtc.Prelude.Map.{lookup, insert}
use pulse_rtc.Prelude.Float.{nat_floats}
use pulse_rtc.Prelude.Sort.{sort_by, insert_by}
use pulse_rtc.Cluster.Node.{NodeInfo, NodeState, ready, offline, accepts_sessions}
use pulse_rtc.Cluster.Registry
use pulse_rtc.Cluster.Registry.{NodeRegistry}
use pulse_rtc.Cluster.Registry.Heartbeats.{IsValid}
use pulse_rtc.Cluster.Load.{NodeLoad, room_assignment, put_room_assignment}
use pulse_rtc.Cluster.Policy.{
  assigned, least_loaded, ok, find_node, select, choose, near_local, before, score, weights_of,
}
use pulse_rtc.Cluster.Router.{
  load_of_node, RouterConfig, RouterState, state_usable, fresh_reports, note_pending, info_or_id,
  exceeds, over_hard_limit, apply_pending, candidates, select_new, select_among, select_node,
}
use pulse_rtc.Cluster.Router.Selection.{select_node-eligible}
use pulse_rtc.Cluster.Router.Answers.{select_node-select_node}

abbrev node : String → NodeState → NodeInfo
node id state = record {
  id = id;
  host = "h";
  port = 1;
  version = "";
  state = state;
  started_at = 0;
  last_seen = 3;
  media_addr = "";
}

abbrev registry : NodeRegistry
registry = record { stale_after = 10; nodes = ("b", node "b" ready) ∷ ("a", node "a" offline) ∷ [] }

abbrev config : RouterConfig ℕ
config = record {
  policy = record {
    weights = record { participant = 1; publication = 1; subscription = 1; room = 2 };
    prefer_local_margin = 1;
    local_node_id = "";
  };
  cap = record {
    max_rooms = 5;
    max_participants = 0;
    max_publications = 0;
    hard_limit_fraction = 1;
  };
  load_stale = 20;
}

abbrev start : RouterState
start = record { load = record { loads = []; assign = [] }; pending = [] }

registry-IsValid : IsValid registry
unfolding lookup
registry-IsValid = record { named = (refl, (refl, tt)); distinct = (refl, (refl, tt)) }

abbrev chosen : RouterState
chosen = (select_node nat_floats 5 (node "a" offline) none registry config (some []) "r" start).1

chooses_b :
    select_node nat_floats 5 (node "a" offline) none registry config (some []) "r" start
    ≡ (ok (node "b" ready, least_loaded), chosen)
unfolding select_node select_among select_new candidates fresh_reports Registry.list Registry.get
    Registry.is_stale sort_by insert_by lookup room_assignment select choose near_local before score
    weights_of exceeds over_hard_limit apply_pending accepts_sessions find_node note_pending
chooses_b = refl

select_node-eligible_example :
    (loads : List NodeLoad) × (some [] ≡ some loads)
    × (state_usable none ≡ true)
    × (Registry.get "b" registry ≡ some (node "b" ready))
    × (accepts_sessions ready ≡ true)
    × (Registry.is_stale 5 registry (node "b" ready) ≡ false)
    × (over_hard_limit nat_floats config.cap
          (load_of_node nat_floats start (fresh_reports 5 20 loads []) (node "b" ready))
        ≡ false)
select_node-eligible_example =
    select_node-eligible nat_floats 5 (node "a" offline) none registry config (some []) "r" start
      (node "b" ready) least_loaded registry-IsValid (ap (λ p. p.0) chooses_b)

abbrev b_load : NodeLoad
b_load = record {
  node_id = "b";
  state = ready;
  rooms = 1;
  participants = 1;
  publications = 0;
  subscriptions = 0;
  reported_at = 0;
}

b_found :
    find_node "b" (
      candidates nat_floats 9 registry config chosen
        (fresh_reports 9 20 [] [])
        (Registry.list registry))
    ≡ some b_load
unfolding select_node select_among select_new candidates fresh_reports Registry.list Registry.get
    Registry.is_stale sort_by insert_by lookup insert room_assignment put_room_assignment select
    choose near_local before score weights_of exceeds over_hard_limit apply_pending accepts_sessions
    find_node note_pending
b_found = refl

select_node-select_node_example :
    select_node nat_floats 9 (node "a" offline) none registry config (some []) "r" chosen
    ≡ (ok (info_or_id "b" (Registry.get "b" registry), assigned), chosen)
select_node-select_node_example =
    select_node-select_node nat_floats 5 9 (node "a" offline) (node "a" offline) none none registry
      registry config config [] [] "r" start chosen (node "b" ready) least_loaded b_load
      registry-IsValid chooses_b (λ e. cc) (omega arith) refl b_found
