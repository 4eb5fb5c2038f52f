-- ===== src/Lib.antt =====
-- PulseRTC is a WebRTC server: clients join rooms by a signaling socket, a selective forwarding
-- unit (SFU) forwards the media of each participant to the others, and several servers form a
-- cluster in which each room is owned by one node. This library models the parts that decide: the
-- queues, sinks and write loops of the media plane, the shared state and the decisions of the
-- cluster, the media sessions between its nodes, rooms and logical sessions, the trust boundary,
-- the quality engine and the history of calls.
--
-- The parts and how they meet:
--   Sfu/SendQueue        internal/sfu/sendqueue.go: the queue between a publication and one subscriber.
--   Sfu/Publication      internal/sfu/publication.go: the subscribers' queues of one published track, which
--                        each get every packet, and requests for keyframes.
--   Sfu/Room             internal/sfu/core_room.go and core_participant.go: who publishes what and who is
--                        subscribed to it.
--   Sfu/Negotiation      internal/sfu/core_participant.go: offers and answers of one participant, as steps
--                        between which other goroutines run.
--   Sfu/WriteLoop        internal/sfu/subscription.go: the loop that empties one queue into a track.
--   Cluster/Node         internal/cluster/node.go, errors.go: what a node says of itself; error codes.
--   Cluster/Registry     internal/cluster/registry.go (InMemoryNodeRegistry): nodes and heartbeats.
--   Cluster/Rooms        internal/cluster/routing_room_locator.go (InMemoryRoomLocator): owners of rooms.
--   Cluster/Participants internal/cluster/routing_participant_locator.go: where participants are.
--   Cluster/Load         internal/cluster/health_load.go: load reports and room assignments.
--   Cluster/Detector     internal/cluster/recovery_failure_detector.go: which nodes have failed.
--   Cluster/Policy       internal/cluster/routing_roomrouter.go, LeastLoadedPolicy: scores.
--   Cluster/Router       the same file, roomRouter: on which node a new room is made. It reads the
--                        registry and the load store and asks the policy.
--   Cluster/Recovery     internal/cluster/recovery_manager.go: takes rooms over from failed nodes. It reads
--                        the detector, asks the router (a parameter `select`), changes the locator by
--                        compare-and-recover, and removes the locations of lost participants.
--   Cluster/Dedup        internal/cluster/noderpc_dedup.go: request ids that were seen.
--   Cluster/Handler      internal/cluster/noderpc_message.go, noderpc_handler.go: messages of other nodes,
--                        checked, looked up in the cache of ids, and passed on.
--   Cluster/Media        internal/cluster/media_transport.go and media_conn.go: the wire format (Wire), one
--                        session (Conn), and the transport that finds sessions by id (Transport).
--   Cluster/MediaSession internal/cluster/media_session.go and media_remotetrack.go: the forwarders and
--                        mirrored tracks of one media session.
--   Signaling/Session    internal/signaling/session.go: logical sessions that outlive a connection.
--   Room/Manager         internal/room: the rooms of the signaling layer, as shared objects.
--   History/Recorder     internal/history/recorder.go and summary.go: the summaries of calls.
--   Auth                 internal/auth: errors.go and claims.go (Errors), ratelimit.go (RateLimit),
--                        token.go (Token), validator.go (Validate), permissions.go (Authorize).
--   Quality              internal/quality: scoring_status.go and scoring_hysteresis.go (Status),
--                        scoring_score.go (Score), history.go (Window), analyzer.go (Analyzer),
--                        engine.go, sample.go and events.go (Engine).
--   Prelude              shared names, maps, sorting, floating-point numbers and text.
--
-- How the code is modelled. Each operation of a part is one function, with the source's name in
-- lower case, from the state to its answer and the new state. An operation that runs under a mutex
-- is one step, one that gives up the lock is several, and an interleaving is a list of such steps;
-- a recovery takes as an argument what other nodes do to the rooms between its reading of the
-- owner and its compare-and-recover. A Go map is a list of entries with distinct keys, in the
-- order in which the source would range over it. A time is the number of nanoseconds since the
-- zero time, a duration a number of nanoseconds where 0 stands for every value that is not
-- positive, and `a.Sub(b) > d` reads `b + d < a`. `float64` is the interface `Floats`: values that
-- are not NaN, with the laws of IEEE 754 order that the proofs use, and the natural numbers as an
-- instance for tests. Counters do not overflow: they are 64 bits wide in the source. A hook or a
-- component that may be nil is an Option. Encodings, JSON and keyed hashes of Go's library are the
-- interface `Codec`; the delivery of messages to local participants is the interface
-- `LocalDelivery`. Loops are structural recursion on the lists they range over, so no fuel is
-- used. Packets, node ids and session ids of the media transport are lists of bytes, and
-- HMAC-SHA256 is a parameter, of which the theorems on the handshake use only that its value has 32
-- bytes. What a step of the transport sends, delivers or counts is its list of events. The write
-- loop reads a list of rounds, each with what the write answers; the negotiations that the history
-- counts and the ids that UUIDs give are arguments.
--
-- Not modelled: logs, most metrics and the messages of errors that are meant for people;
-- goroutines that only wait for a timer; the Redis variants of the cluster's stores, the HTTP
-- transport and the sockets, with the buffer of 2048 bytes that a datagram is read into; the
-- WebSocket protocol, the rest of the SFU and its use of the Pion library; averages in the
-- history; configuration, the API and the load-test tools.
pub mod Auth
pub mod Cluster
pub mod History
pub mod Prelude
pub mod Quality
pub mod Room
pub mod Sfu
pub mod Signaling
