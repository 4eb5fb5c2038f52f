-- ===== src/Cluster/Recovery/Tests.antt =====
-- The theorems about recovery at a concrete input: node "a" holds room "r" and is not known any
-- more.
use pulse_rtc.Prelude.{
  ℕ, ◌+◌, ◌≡◌, ◌≢◌, ◌⊎◌, refl, true, false, if◌then◌else◌, none, some, List, [], ◌∷◌, String,
  string_eq,
}
use pulse_rtc.Prelude.Map.{lookup, insert, delete}
use pulse_rtc.Cluster.Node.{NodeInfo, ready}
use pulse_rtc.Cluster.Registry
use pulse_rtc.Cluster.Registry.{NodeRegistry}
use pulse_rtc.Cluster.Rooms.{RoomLocator, ownership}
use pulse_rtc.Cluster.Rooms.View
use pulse_rtc.Cluster.Rooms.View.{Op, claims}
use pulse_rtc.Cluster.Participants.{ParticipantLocation, ParticipantLocator, remove, in_room}
use pulse_rtc.Cluster.Detector
use pulse_rtc.Cluster.Detector.{FailureDetector}
use pulse_rtc.Cluster.Policy.{Reason, least_loaded, Result, ok}
use pulse_rtc.Cluster.Recovery.{
  RecoveryConfig, RecoveryState, is_active, remove_dead, cleanup_participants, recover_room,
}
use pulse_rtc.Cluster.Recovery.Takeover.{Unmoved, Taken, recover_room-Taken}
use pulse_rtc.Cluster.Recovery.Success.{Ready, IsKeyed, doomed, recover_room-Ready}

abbrev self : NodeInfo
self = record {
  id = "b";
  host = "h";
  port = 1;
  version = "";
  state = ready;
  started_at = 0;
  last_seen = 3;
  media_addr = "";
}

-- A router that elects this node and counts its calls.
abbrev elect : String → ℕ → Result (NodeInfo × Reason) × ℕ
elect room n = (ok (self, least_loaded), n + 1)

abbrev config : RecoveryConfig
config = record {
  self = self;
  backend_ok = none;
  enabled = true;
  registry = record { stale_after = 10; nodes = ("b", self) ∷ [] };
  detector = record {
    check_interval = 5;
    grace = 2;
    first_missed = [];
    stale = [];
    backend_known = true;
  };
}

abbrev at : String → String → ParticipantLocation
at id node = record { participant_id = id; room_id = "r"; node_id = node }

abbrev locations : ParticipantLocator
locations = ("p", at "p" "a") ∷ ("q", at "q" "b") ∷ []

abbrev before : RecoveryState ℕ
before = record {
  rooms = record {
    owners = ("r", "a") ∷ [];
    gens = ("r", 4) ∷ [];
    on_claim = none;
    on_conflict = none;
  };
  participant = some locations;
  load = none;
  active = [];
  router = 0;
}

abbrev others : List Op
others = claims "q" "c" ∷ []

before-Ready : Ready elect config others "r" "a" 4 before
unfolding lookup insert ownership View.run View.step Detector.is_stale Registry.get
    pulse_rtc.Cluster.Rooms.claim_owner
before-Ready = record {
  enabled = refl;
  usable = refl;
  free = refl;
  seen = 4;
  owned = refl;
  other = λ e. let wrong = (string_eq.beq_iff "a" "b").1 e in cc;
  stale = refl;
  target = self;
  reason = least_loaded;
  elected = refl;
  here = refl;
  still = refl;
}

recover_room-Taken_example :
    Unmoved elect config others "r" "r" before.rooms
      (recover_room elect config others "r" before).1.rooms
    ⊎ Taken elect config others "r" "r" before.rooms
        (recover_room elect config others "r" before).1.rooms
recover_room-Taken_example = recover_room-Taken elect config others "r" "r" before

locations-IsKeyed : IsKeyed locations
unfolding lookup
locations-IsKeyed = record { named = (refl, (refl, tt)); distinct = (refl, (refl, tt)) }

recover_room-Ready_example :
    let (answer, after) = recover_room elect config others "r" before in
    (answer ≡ none)
    × (ownership "r" after.rooms ≡ some ("b", 4 + 1))
    × ((r : String)
        → r ≢ "r"
        → ownership r after.rooms ≡ ownership r (View.run before.rooms others))
    × ((q : ParticipantLocator) × (after.participant ≡ some q)
        × ((id : String)
            → lookup id q
              ≡ (if doomed "r" "a" (lookup id locations) then none else lookup id locations)))
    × (is_active (lookup "r" after.active) ≡ false)
recover_room-Ready_example =
    recover_room-Ready elect config others "r" "a" 4 before locations before-Ready refl
      locations-IsKeyed

cleaned : cleanup_participants "r" "a" (some locations) ≡ some (("q", at "q" "b") ∷ [])
unfolding cleanup_participants remove_dead in_room remove delete
cleaned = refl
