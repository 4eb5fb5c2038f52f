-- ===== src/Cluster/Registry/Tests.antt =====
-- Runs of the node registry, and the theorems about it at concrete inputs.
use pulse_rtc.Prelude.{◌≡◌, refl, some, [], ◌∷◌, map, String, string_eq}
use pulse_rtc.Prelude.Map.{lookup}
use pulse_rtc.Prelude.Sort.{sort_by}
use pulse_rtc.Cluster.Node.{NodeInfo, NodeState, ready, offline}
use pulse_rtc.Cluster.Registry.{NodeRegistry, get, list}

abbrev node : String → NodeState → NodeInfo
node id state = record {
  id = id;
  host = "h";
  port = 1;
  version = "";
  state = state;
  started_at = 0;
  last_seen = 3;
  media_addr = "";
}

abbrev two : NodeRegistry
two = record { stale_after = 10; nodes = ("b", node "b" ready) ∷ ("a", node "a" offline) ∷ [] }

list-two : map (λ n. n.id) (list two) ≡ "a" ∷ "b" ∷ []
unfolding list sort_by
list-two = refl

b_known : get "b" two ≡ some (node "b" ready)
unfolding get lookup
b_known = refl
