-- ===== src/Cluster/Load/Tests.antt =====
-- The theorems about the load store at concrete inputs.
use pulse_rtc.Prelude.{[], string_eq}
use pulse_rtc.Cluster.Node.{ready}
use pulse_rtc.Cluster.Load.{NodeLoad, LoadStore}

abbrev load : NodeLoad
load = record {
  node_id = "n";
  state = ready;
  rooms = 1;
  participants = 2;
  publications = 0;
  subscriptions = 0;
  reported_at = 3;
}

abbrev empty : LoadStore
empty = record { loads = []; assign = [] }
