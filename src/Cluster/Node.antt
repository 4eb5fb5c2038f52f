-- ===== src/Cluster/Node.antt =====
-- internal/cluster/node.go, errors.go: what nodes know of one another, and the errors with a code.
use pulse_rtc.Prelude.{ℕ, ◌*◌, Bool, true, false, String, string_eq}

-- Times are nanoseconds since the zero `time.Time`, and durations nanoseconds. A configured
-- duration below 0 is represented by 0: the code treats them alike.
abbrev pub Time : Type 0
Time = ℕ

abbrev pub seconds : ℕ → ℕ
seconds n = n * 1_000_000_000

-- `unset` is the empty string, the state of a `NodeInfo` that has only an id.
pub data NodeState : Type 0 where
  starting ready active shutting_down offline unset : NodeState

unfoldable pub accepts_sessions : NodeState → Bool
accepts_sessions ready = true
accepts_sessions active = true
accepts_sessions _ = false

abbrev pub is_offline : NodeState → Bool
is_offline offline = true
is_offline _ = false

pub record NodeInfo : Type 0 where
  pub id : String
  pub host : String
  pub port : ℕ
  pub version : String
  pub state : NodeState
  pub started_at : Time
  pub last_seen : Time
  pub media_addr : String

-- The codes of `Error`, of those parts that are modelled.
pub data Code : Type 0 where
  room_on_other_node node_shutting_down cluster_state_unavailable bad_request : Code
  cluster_message_invalid cluster_message_too_large cluster_message_expired : Code
  cluster_target_mismatch participant_not_found media_node_unavailable : Code
  no_capacity ownership_conflict already_recovered recovery_disabled : Code
  media_transport_closed media_session_invalid media_packet_too_large : Code

-- `Error`, without the message that is meant for people.
pub record Error : Type 0 where
  pub code : Code
  pub node_id : String
  pub room_id : String

abbrev pub error : Code → Error
error c = record { code = c; node_id = ""; room_id = "" }
