-- ===== src/Cluster/Handler/Tests.antt =====
-- The theorems about incoming messages at concrete inputs.
use pulse_rtc.Prelude.{◌≤◌, ◌≡◌, ◌⊎◌, true, false, none, some, [], ◌∷◌, arith, string_eq}
use pulse_rtc.Prelude.Map.{lookup}
use pulse_rtc.Cluster.Dedup.{DedupCache, live}
use pulse_rtc.Cluster.Handler.{ClusterMessage, HandlerConfig, handle}
use pulse_rtc.Cluster.Handler.Delivery.{calls_for, handle_all, handle_all_lem}
use pulse_rtc.Cluster.Handler.Acceptance.{Refused, Acceptable, PassedOn, handle_lem}

abbrev message : ClusterMessage
message = record {
  type = "room.event";
  request_id = "id";
  source_node_id = "a";
  target_node_id = "b";
  timestamp = 1;
  room_id = "r";
  participant_id = "";
  payload = "{}";
}

abbrev handler : HandlerConfig
handler = record {
  self = "b";
  max_age = 0;
  max_size = 100;
  delivery = some (record { deliver_to_participant = λ m. none; deliver_room_event = λ m. none });
  media = none;
}

abbrev cache : DedupCache
cache = record { ttl = 30; seen = [] }

handle_lem_example :
    let x = (handle 5 handler message cache).0 in
    Refused x
    ⊎ ((Acceptable 5 handler message × (live 5 (lookup "id" cache.seen) ≡ true) × (x ≡ (none, [])))
        ⊎ (Acceptable 5 handler message
            × (live 5 (lookup "id" cache.seen) ≡ false)
            × PassedOn message x))
handle_lem_example = handle_lem 5 handler message cache

handle_all_lem_example :
    calls_for "id" (handle_all handler ((5, message) ∷ (7, message) ∷ []) cache).0 ≤ 1
handle_all_lem_example =
    handle_all_lem "id" 5 handler ((5, message) ∷ (7, message) ∷ []) cache
      ((omega arith, omega arith), ((omega arith, omega arith), tt))
