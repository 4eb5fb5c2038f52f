-- ===== src/Cluster/Policy/Tests.antt =====
-- The theorem about the policy at a concrete input.
use pulse_rtc.Prelude.{ℕ, [], ◌∷◌, String, string_eq}
use pulse_rtc.Prelude.Float.{nat_floats}
use pulse_rtc.Cluster.Node.{ready}
use pulse_rtc.Cluster.Load.{NodeLoad}
use pulse_rtc.Cluster.Policy.{LeastLoadedPolicy}
use pulse_rtc.Cluster.Policy.Choice.{Choice, select-Choice}

abbrev load : String → ℕ → NodeLoad
load id rooms = record {
  node_id = id;
  state = ready;
  rooms = rooms;
  participants = 0;
  publications = 0;
  subscriptions = 0;
  reported_at = 0;
}

abbrev policy : LeastLoadedPolicy ℕ
policy = record {
  weights = record { participant = 1; publication = 1; subscription = 1; room = 2 };
  prefer_local_margin = 1;
  local_node_id = "b";
}

select-Choice_example : Choice nat_floats policy (load "b" 3 ∷ load "a" 1 ∷ [])
select-Choice_example = select-Choice nat_floats policy (load "b" 3) (load "a" 1 ∷ [])
