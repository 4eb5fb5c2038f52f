-- ===== src/Cluster/Media/Tests.antt =====
-- internal/cluster/media_transport.go and media_conn.go: runs on concrete datagrams.
use pulse_rtc.Prelude.{
  ◌+◌, ◌*◌, ◌≡◌, refl, true, false, none, some, List, [], ◌∷◌, ◌++◌, arith, length, string_eq,
}
use pulse_rtc.Prelude.Map.{lookup, insert}
use pulse_rtc.Prelude.{replicate, length-replicate}
use pulse_rtc.Cluster.Media.Wire.{
  Bytes, bytes_eq, encode_frame, decode_frame, encode_keyed, decode_keyed, hello_payload,
  parse_hello, parse_dst, frame_rtp,
}
use pulse_rtc.Cluster.Media.Wire.RoundTrip.{decode_frame-encode_frame}
use pulse_rtc.Cluster.Media.Conn.{
  Addr, MediaConfig, MediaConn, metric, rtp, rtp_sent, rtp_received, new_conn, enqueue, send_hello,
  send_rtp, deliver_rtp,
}
use pulse_rtc.Cluster.Media.Transport.{
  MediaTransport, size_metric, new_transport, accept_conn, accept_session, dial, handle_datagram,
  handle_parsed, handle_hello, handle_known, handle_session, handle_frame, handle_keyed,
}
use pulse_rtc.Cluster.Media.Transport.Runs.{Op, datagram, accept_op, handlers, step, run, heard}
use pulse_rtc.Cluster.Media.Transport.Delivery.{handle_datagram-heard}
use pulse_rtc.Cluster.Media.Transport.Handshake.{Peers, established, handle_datagram-send_rtp}
use pulse_rtc.Cluster.Media.Transport.Volley.{
  hello_at, reply, flush, sent, volley, volley_lem, handshake_lem,
}

abbrev mac : Bytes → Bytes → Bytes
mac k m = replicate 32 ((length k * 7 + length m))

mac_length : (k m : Bytes) → length (mac k m) ≡ 32
mac_length k m = length-replicate 32 (length k * 7 + length m)

abbrev session : Bytes
session = replicate 16 5

abbrev node_a : MediaConfig
node_a = record {
  secret = 9 ∷ [];
  self_id = 65 ∷ [];
  max_packet_size = 1500;
  send_queue = 4;
  session_timeout = 0;
}

abbrev node_b : MediaConfig
node_b = record {
  secret = 9 ∷ [];
  self_id = 66 ∷ (66 ∷ []);
  max_packet_size = 1500;
  send_queue = 4;
  session_timeout = 0;
}

abbrev addr_a : Addr
addr_a = record { ip = 10 ∷ (0 ∷ (0 ∷ (1 ∷ []))); port = 4000 }

abbrev addr_b : Addr
addr_b = record { ip = 10 ∷ (0 ∷ (0 ∷ (2 ∷ []))); port = 4000 }

abbrev conn_a : MediaConn
conn_a = record (new_conn session (66 ∷ (66 ∷ [])) (some addr_b) 0) {
  auth_ok = true;
  src_ok = true;
}

abbrev conn_b : MediaConn
conn_b = record (new_conn session (65 ∷ []) (some addr_a) 0) {
  auth_ok = true;
  src_ok = true;
  on_rtp = true;
}

abbrev side : MediaConn → MediaTransport
side c = record { conns = (session, c) ∷ []; closed = false }

abbrev peers : Peers node_a node_b session
peers = record {
  same_secret = refl;
  a_fits = omega arith;
  b_fits = omega arith;
  session_fits = refl;
}

abbrev ops : List Op
ops =
    accept_op session (65 ∷ []) none 0
    ∷ (handlers session true true false
        ∷ (datagram 1 addr_a (hello_at mac node_a session (66 ∷ (66 ∷ []))) ∷ []))

abbrev packet_frame : Bytes
packet_frame = encode_frame frame_rtp session (encode_keyed (1 ∷ (2 ∷ [])) (7 ∷ (8 ∷ [])))

decode_frame-encode_frame_example :
    decode_frame (encode_frame 3 session (1 ∷ (2 ∷ [])) ++ (9 ∷ []))
    ≡ some (record { kind = 3; session_id = session; payload = 1 ∷ (2 ∷ []) })
decode_frame-encode_frame_example =
    decode_frame-encode_frame 3 session (1 ∷ (2 ∷ [])) (9 ∷ []) refl (omega arith)

handle_datagram-heard_example : heard mac node_b session addr_a ops ≡ true
unfolding run step accept_session accept_conn new_conn handle_datagram handle_parsed handle_hello
    handle_known send_hello enqueue hello_payload encode_frame decode_frame parse_hello parse_dst
    lookup insert handle_session handle_frame handle_keyed deliver_rtp encode_keyed decode_keyed
handle_datagram-heard_example =
    handle_datagram-heard mac node_b ops 2 addr_a packet_frame session refl

handle_datagram-send_rtp_example :
    (frame : Bytes) × (send_rtp node_a (1 ∷ (2 ∷ [])) (7 ∷ (8 ∷ [])) conn_a
      ≡ (record conn_a { send_ch = frame ∷ [] }, (none, metric rtp_sent ∷ [])))
    × ((handle_datagram mac node_b 3 addr_a frame (side conn_b)).1
        ≡ size_metric node_b frame
          ++ (metric rtp_received ∷ (rtp session (1 ∷ (2 ∷ [])) (7 ∷ (8 ∷ [])) ∷ [])))
unfolding new_conn lookup
handle_datagram-send_rtp_example =
    handle_datagram-send_rtp mac node_a node_b 3 addr_a (1 ∷ (2 ∷ [])) (7 ∷ (8 ∷ [])) conn_a conn_b
      (side conn_b) refl refl refl (omega arith) refl (omega arith) (omega arith) refl refl refl
      refl

volley_lem_example :
    length (
      volley mac 7 node_a node_b 3 addr_a addr_b session
        (hello_at mac node_a session (66 ∷ (66 ∷ [])))
        (side conn_a)
        (side conn_b))
    ≡ 7
unfolding new_conn lookup
volley_lem_example =
    volley_lem mac mac_length 7 node_a node_b 3 addr_a addr_b session (side conn_a) (side conn_b)
      peers (conn_a, refl, refl, refl, refl) (conn_b, refl, refl, refl, refl)

handshake_lem_example :
    let d = (dial mac node_a session (66 ∷ (66 ∷ [])) (some addr_b) 1 new_transport).0 in
    let a1 = flush session d (lookup session d.conns) in
    let b1 = (accept_session session (65 ∷ []) none 1 new_transport).0 in
    let b2 = reply mac node_b 1 addr_a (sent a1.1) session b1 in
    let a2 = reply mac node_a 1 addr_b (sent b2.1) session a1.0 in
    (established addr_a (lookup session b2.0.conns) ≡ true)
    × (established addr_b (lookup session a2.0.conns) ≡ true)
unfolding lookup
handshake_lem_example =
    handshake_lem mac mac_length node_a node_b addr_a addr_b 1 session new_transport new_transport
      peers refl refl refl refl
