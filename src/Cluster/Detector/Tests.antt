-- ===== src/Cluster/Detector/Tests.antt =====
-- The theorems about the failure detector at concrete inputs.
use pulse_rtc.Prelude.{◌≡◌, refl, true, some, [], ◌∷◌, string_eq}
use pulse_rtc.Prelude.Map.{lookup}
use pulse_rtc.Cluster.Node.{NodeInfo, ready}
use pulse_rtc.Cluster.Registry
use pulse_rtc.Cluster.Registry.{NodeRegistry}
use pulse_rtc.Cluster.Detector.{FailureDetector, is_healthy}

abbrev node : NodeInfo
node = record {
  id = "b";
  host = "h";
  port = 1;
  version = "";
  state = ready;
  started_at = 0;
  last_seen = 3;
  media_addr = "";
}

abbrev registry : NodeRegistry
registry = record { stale_after = 10; nodes = ("b", node) ∷ [] }

abbrev detector : FailureDetector
detector = record {
  check_interval = 5;
  grace = 2;
  first_missed = ("b", 14) ∷ [];
  stale = [];
  backend_known = true;
}

b_known : Registry.get "b" registry ≡ some node
unfolding Registry.get lookup
b_known = refl

b_healthy : is_healthy 5 "b" registry detector ≡ true
unfolding is_healthy Registry.get Registry.is_stale lookup
b_healthy = refl
