-- ===== src/Cluster/Media/Conn.antt =====
-- internal/cluster/media_conn.go: one session between two media nodes. Its queue is a list of
-- frames; its handlers are those that were set, and what they are called with is an event.
use pulse_rtc.Prelude.{
  ℕ, ◌≡◌, ◌↔◌, Bool, true, false, ◌&&◌, not, Option, none, some, List, [], ◌∷◌, ◌++◌, arith, ltb,
  ◌==◌, if◌then◌else◌, length, Eq, ◌=?◌, string_eq,
}
use pulse_rtc.Cluster.Node.{
  Error, error, media_transport_closed, media_session_invalid, media_packet_too_large,
}
use pulse_rtc.Cluster.Media.Wire.{
  Bytes, bytes_eq, encode_frame, encode_keyed, hello_payload, frame_hello, frame_rtp, frame_rtcp,
  frame_bye,
}

-- An address of the network, its IP in the form that `IP.Equal` compares.
pub record Addr : Type 0 where
  pub ip : Bytes
  pub port : ℕ

abbrev pub addr_beq : Addr → Addr → Bool
addr_beq a b = a.ip =? b.ip && a.port == b.port

pub addr_beq_iff : (a b : Addr) → (addr_beq a b ≡ true) ↔ (a ≡ b)
addr_beq_iff a b = ground (arith, bytes_eq.beq_iff a.ip b.ip)

instance abbrev pub addr_eq : Eq Addr
addr_eq = record { beq = addr_beq; beq_iff = addr_beq_iff }

-- The part of `MediaConfig` that the transport reads, the shared secret and the node's own id.
pub record MediaConfig : Type 0 where
  pub secret : Bytes
  pub self_id : Bytes
  pub max_packet_size : ℕ
  pub send_queue : ℕ
  pub session_timeout : ℕ

pub data Metric : Type 0 where
  rtp_invalid oversized auth_failed rtp_received rtcp_received session_failed : Metric
  rtp_dropped rtcp_dropped rtp_sent rtcp_sent : Metric

-- What an operation does beside changing the state, in order.
pub data Event : Type 0 where
  metric : Metric → Event
  rtp : Bytes → Bytes → Bytes → Event
  rtcp : Bytes → Bytes → Bytes → Event
  lost : Bytes → Event
  wire : Addr → Bytes → Event

pub record MediaConn : Type 0 where
  pub session_id : Bytes
  pub remote_node_id : Bytes
  pub remote_addr : Option Addr
  pub src_ok : Bool
  pub auth_ok : Bool
  pub closed : Bool
  pub last_rx : ℕ
  pub on_rtp : Bool
  pub on_rtcp : Bool
  pub lost_handler : Bool
  pub send_ch : List Bytes

unfoldable pub new_conn : Bytes → Bytes → Option Addr → ℕ → MediaConn
new_conn session_id remote_node_id raddr now = record {
  session_id = session_id;
  remote_node_id = remote_node_id;
  remote_addr = raddr;
  src_ok = false;
  auth_ok = false;
  closed = false;
  last_rx = now;
  on_rtp = false;
  on_rtcp = false;
  lost_handler = false;
  send_ch = [];
}

abbrev pub depth : MediaConfig → ℕ
depth cfg = if cfg.send_queue == 0 then 1024 else cfg.send_queue

abbrev pub mark_rx : ℕ → MediaConn → MediaConn
mark_rx now c = record c { last_rx = now }

abbrev pub confirm_source : Addr → MediaConn → MediaConn
confirm_source src c = record c { remote_addr = some src; src_ok = true }

abbrev pub mark_authenticated : MediaConn → MediaConn
mark_authenticated c = record c { auth_ok = true }

abbrev pub is_addr : Option Addr → Addr → Bool
is_addr none src = false
is_addr (some a) src = a =? src

abbrev pub matches_source : MediaConn → Addr → Bool
matches_source c src = c.src_ok && is_addr c.remote_addr src

-- The new connection, and whether the frame was taken.
unfoldable pub enqueue : MediaConfig → Bytes → MediaConn → MediaConn × Bool
enqueue cfg frame c =
    if ltb (length c.send_ch) (depth cfg)
    then (record c { send_ch = c.send_ch ++ (frame ∷ []) }, true)
    else (c, false)

-- `hmac` is HMAC-SHA256, of the key and the bytes that are written to it.
module _ (hmac : Bytes → Bytes → Bytes) where
  abbrev pub hello_mac : Bytes → Bytes → Bytes → Bytes → Bytes
  hello_mac secret session_id src dst = hmac secret (session_id ++ (src ++ (0 ∷ dst)))

  abbrev pub hello_frame : MediaConfig → MediaConn → Bytes
  hello_frame cfg c = encode_frame frame_hello c.session_id (
      hello_payload cfg.self_id c.remote_node_id
        (hello_mac cfg.secret c.session_id cfg.self_id c.remote_node_id))

  unfoldable pub send_hello : MediaConfig → MediaConn → MediaConn
  send_hello cfg c = (enqueue cfg (hello_frame cfg c) c).0

abbrev pub too_large : MediaConfig → Bytes → Bool
too_large cfg packet = ltb 0 cfg.max_packet_size && ltb cfg.max_packet_size (length packet)

-- `sendKeyed`; `is_rtp` chooses the metric. No error is `none`.
unfoldable pub send_keyed :
    MediaConfig → ℕ → Bytes → Bytes → Bool → MediaConn → MediaConn × (Option Error × List Event)
send_keyed cfg kind key packet is_rtp c =
    if c.closed
    then (c, (some (error media_transport_closed), []))
    else if not c.auth_ok
    then (c, (some (error media_session_invalid), []))
    else if too_large cfg packet
    then (c, (some (error media_packet_too_large), metric oversized ∷ []))
    else let r = enqueue cfg (encode_frame kind c.session_id (encode_keyed key packet)) c in
      if r.1
      then (r.0, (none, metric (if is_rtp then rtp_sent else rtcp_sent) ∷ []))
      else (r.0, (none, metric (if is_rtp then rtp_dropped else rtcp_dropped) ∷ []))

abbrev pub send_rtp :
    MediaConfig → Bytes → Bytes → MediaConn → MediaConn × (Option Error × List Event)
send_rtp cfg key packet c = send_keyed cfg frame_rtp key packet true c

abbrev pub send_rtcp :
    MediaConfig → Bytes → Bytes → MediaConn → MediaConn × (Option Error × List Event)
send_rtcp cfg key packet c = send_keyed cfg frame_rtcp key packet false c

-- One round of `sendLoop` that finds a frame: `writeTo` the address, where there is one.
abbrev pub write_to : Option Addr → Bytes → List Event
write_to none frame = []
write_to (some a) frame = wire a frame ∷ []

unfoldable pub send_frames : MediaConn → List Bytes → MediaConn × List Event
send_frames c [] = (c, [])
send_frames c (frame ∷ frames) = (record c { send_ch = frames }, write_to c.remote_addr frame)

unfoldable pub send_step : MediaConn → MediaConn × List Event
unfolding send_frames
send_step c = send_frames c c.send_ch

unfoldable pub deliver_rtp : MediaConn → Bytes → Bytes → List Event
deliver_rtp c key pkt = if c.on_rtp then rtp c.session_id key pkt ∷ [] else []

unfoldable pub deliver_rtcp : MediaConn → Bytes → Bytes → List Event
deliver_rtcp c key pkt = if c.on_rtcp then rtcp c.session_id key pkt ∷ [] else []

abbrev pub notify_lost : MediaConn → List Event
notify_lost c = if c.lost_handler then lost c.session_id ∷ [] else []

abbrev pub bye : MediaConn → List Event
bye c = if c.auth_ok then write_to c.remote_addr (encode_frame frame_bye c.session_id []) else []
