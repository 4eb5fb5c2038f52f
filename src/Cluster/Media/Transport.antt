-- ===== src/Cluster/Media/Transport.antt =====
-- internal/cluster/media_transport.go: the node's one socket, and the sessions that share it. A
-- session is found by its id; an object that `Close` took out is no longer reachable from here.
-- A datagram is given whole: the buffer of 2048 bytes into which `readLoop` reads is left out.
-- The lock is held for each step; what a step sends or delivers is its list of events, in order.
pub mod Runs
mod Trust
pub mod Delivery
pub mod Handshake
pub mod Volley
use pulse_rtc.Prelude.{
  ℕ, zero, suc, ◌+◌, ◌-◌, ◌*◌, ◌≤◌, ◌<◌, ◌≡◌, ◌≢◌, ◌↔◌, ◌⊎◌, inl, inr, refl, sym, ap, ◌∙◌, Bool,
  true, false, ◌&&◌, ◌||◌, not, Option, none, some, List, [], ◌∷◌, ◌++◌, map, String, arith, ltb,
  leb, ◌==◌, if◌then◌else◌, Bool-cases, Option-cases, length, length-append, take, drop, Eq, ◌=?◌,
  string_eq, All, All-append, is_some,
}
use pulse_rtc.Prelude.Map.{
  Map, lookup, insert, delete, lookup-insert, lookup-delete, Distinct, insert-Distinct,
  delete-Distinct, beq_self, lookup-insert_self, lookup-delete_self, map_laws, length-delete-le,
}
use pulse_rtc.Cluster.Node.{Error, error, media_transport_closed, media_node_unavailable}
use pulse_rtc.Cluster.Media.Wire.{
  Bytes, bytes_eq, ParsedFrame, Hello, encode_frame, decode_frame, decode_keyed, parse_hello,
  frame_hello, frame_heartbeat, frame_rtp, frame_rtcp, frame_bye,
}
use pulse_rtc.Cluster.Media.Conn.{
  Addr, MediaConfig, MediaConn, Event, metric, Metric, rtp_invalid, oversized, auth_failed,
  rtp_received, rtcp_received, session_failed, new_conn, mark_rx, confirm_source,
  mark_authenticated, matches_source, enqueue, hello_mac, send_hello, deliver_rtp, deliver_rtcp,
  notify_lost, bye,
}

pub record MediaTransport : Type 0 where
  pub conns : Map Bytes MediaConn
  pub closed : Bool

abbrev pub new_transport : MediaTransport
new_transport = record { conns = []; closed = false }

abbrev pub put_conn : MediaConn → MediaTransport → MediaTransport
put_conn c t = record t { conns = insert c.session_id c t.conns }

-- `removeConn`.
abbrev pub remove_conn : Bytes → MediaTransport → MediaTransport
remove_conn session_id t = record t { conns = delete session_id t.conns }

-- `Close` of a connection, which `once` lets act once.
unfoldable pub close_conn : MediaConn → MediaTransport → MediaTransport × List Event
close_conn c t = if c.closed then (t, []) else (remove_conn c.session_id t, bye c)

unfoldable pub peer_closed : MediaConn → MediaTransport → MediaTransport × List Event
peer_closed c t = let r = close_conn c t in (r.0, notify_lost c ++ r.1)

-- `acceptSession`, with the address already resolved.
unfoldable pub accept_conn :
    Bytes → Bytes → Option Addr → ℕ → MediaTransport → Option MediaConn → MediaTransport
accept_conn session_id remote_node_id raddr now t (some c) = t
accept_conn session_id remote_node_id raddr now t none =
    put_conn (new_conn session_id remote_node_id raddr now) t

unfoldable pub accept_session :
    Bytes → Bytes → Option Addr → ℕ → MediaTransport → MediaTransport × Option Error
accept_session session_id remote_node_id raddr now t =
    if t.closed
    then (t, some (error media_transport_closed))
    else (accept_conn session_id remote_node_id raddr now t (lookup session_id t.conns), none)

-- The frames that every session but a HELLO must be authenticated for.
unfoldable pub handle_keyed : Bool → ParsedFrame → MediaConn → Option (Bytes × Bytes) → List Event
handle_keyed is_rtp f c none = metric rtp_invalid ∷ []
handle_keyed is_rtp f c (some (key, pkt)) =
    if is_rtp
    then metric rtp_received ∷ deliver_rtp c key pkt
    else metric rtcp_received ∷ deliver_rtcp c key pkt

unfoldable pub handle_frame : ParsedFrame → MediaConn → MediaTransport → MediaTransport × List Event
handle_frame f c t =
    if f.kind == frame_bye
    then peer_closed c t
    else if f.kind == frame_rtp
    then (t, handle_keyed true f c (decode_keyed f.payload))
    else if f.kind == frame_rtcp
    then (t, handle_keyed false f c (decode_keyed f.payload))
    else (t, [])

unfoldable pub handle_session :
    ℕ → Addr → ParsedFrame → MediaTransport → Option MediaConn → MediaTransport × List Event
handle_session now src f t none = (t, metric rtp_invalid ∷ [])
handle_session now src f t (some c) =
    if not (c.auth_ok && matches_source c src)
    then (t, metric rtp_invalid ∷ [])
    else handle_frame f (mark_rx now c) (put_conn (mark_rx now c) t)

abbrev pub size_metric : MediaConfig → Bytes → List Event
size_metric cfg b =
    if ltb 0 cfg.max_packet_size && ltb (cfg.max_packet_size + 21) (length b)
    then metric oversized ∷ []
    else []

abbrev pub read_size : MediaConfig → Bytes → Option ParsedFrame → List Event
read_size cfg b none = []
read_size cfg b (some f) = size_metric cfg b

-- The timeout of 0 is 10 s.
abbrev pub timeout_of : MediaConfig → ℕ
timeout_of cfg = if cfg.session_timeout == 0 then 10000000000 else cfg.session_timeout

-- `hmac` is HMAC-SHA256, of the key and the bytes that are written to it.
module _ (hmac : Bytes → Bytes → Bytes) where
  -- `Dial`, with the address already resolved: `none` where that failed.
  unfoldable pub dial_conn :
      MediaConfig → Bytes → Bytes → Addr → ℕ → MediaTransport → Option MediaConn → MediaTransport
  dial_conn cfg session_id node_id raddr now t (some c) = t
  dial_conn cfg session_id node_id raddr now t none =
      put_conn (send_hello hmac cfg (new_conn session_id node_id (some raddr) now)) t

  unfoldable pub dial :
      MediaConfig → Bytes → Bytes → Option Addr → ℕ → MediaTransport → MediaTransport × Option Error
  dial cfg session_id node_id none now t = (t, some (error media_node_unavailable))
  dial cfg session_id node_id (some raddr) now t =
      if t.closed
      then (t, some (error media_transport_closed))
      else (dial_conn cfg session_id node_id raddr now t (lookup session_id t.conns), none)

  -- The code is right, and the HELLO is for this node.
  abbrev pub hello_valid : MediaConfig → Bytes → Hello → Bool
  hello_valid cfg session_id h =
      h.mac =? hello_mac hmac cfg.secret session_id h.src h.dst && h.dst =? cfg.self_id

  abbrev pub answer_hello : MediaConfig → ℕ → Addr → MediaConn → MediaConn
  answer_hello cfg now src c =
      send_hello hmac cfg (mark_rx now (mark_authenticated (confirm_source src c)))

  unfoldable pub handle_known :
      MediaConfig
      → ℕ
      → Addr
      → Hello
      → MediaTransport
      → Option MediaConn
      → MediaTransport × List Event
  handle_known cfg now src h t none = (t, metric auth_failed ∷ [])
  handle_known cfg now src h t (some c) =
      if c.remote_node_id =? h.src
      then (put_conn (answer_hello cfg now src c) t, [])
      else (t, metric auth_failed ∷ [])

  unfoldable pub handle_hello :
      MediaConfig
      → ℕ
      → Addr
      → ParsedFrame
      → MediaTransport
      → Option Hello
      → MediaTransport × List Event
  handle_hello cfg now src f t none = (t, metric auth_failed ∷ [])
  handle_hello cfg now src f t (some h) =
      if hello_valid cfg f.session_id h
      then handle_known cfg now src h t (lookup f.session_id t.conns)
      else (t, metric auth_failed ∷ [])

  unfoldable pub handle_parsed :
      MediaConfig → ℕ → Addr → MediaTransport → Option ParsedFrame → MediaTransport × List Event
  handle_parsed cfg now src t none = (t, metric rtp_invalid ∷ [])
  handle_parsed cfg now src t (some f) =
      if f.kind == frame_hello
      then handle_hello cfg now src f t (parse_hello f.payload)
      else handle_session now src f t (lookup f.session_id t.conns)

  unfoldable pub handle_datagram :
      MediaConfig → ℕ → Addr → Bytes → MediaTransport → MediaTransport × List Event
  handle_datagram cfg now src b t =
      let f = decode_frame b in
      let r = handle_parsed cfg now src t f in (r.0, read_size cfg b f ++ r.1)

  -- One tick of `heartbeatLoop` on a connection that is not stopped.
  unfoldable pub heartbeat_conn :
      MediaConfig → ℕ → MediaTransport → Option MediaConn → MediaTransport × List Event
  heartbeat_conn cfg now t none = (t, [])
  heartbeat_conn cfg now t (some c) =
      if ltb (timeout_of cfg) (now - c.last_rx)
      then (let r = peer_closed c t in (r.0, metric session_failed ∷ r.1))
      else if c.auth_ok
      then (put_conn (enqueue cfg (encode_frame frame_heartbeat c.session_id []) c).0 t, [])
      else (put_conn (send_hello hmac cfg c) t, [])

  unfoldable pub heartbeat : MediaConfig → ℕ → Bytes → MediaTransport → MediaTransport × List Event
  heartbeat cfg now session_id t = heartbeat_conn cfg now t (lookup session_id t.conns)

-- `Close` of the transport.
unfoldable pub close_all : List (Bytes × MediaConn) → MediaTransport → MediaTransport × List Event
close_all [] t = (t, [])
close_all ((k, c) ∷ cs) t = let r = close_conn c t in let s = close_all cs r.0 in (s.0, r.1 ++ s.1)

unfoldable pub close : MediaTransport → MediaTransport × List Event
close t = if t.closed then (t, []) else close_all t.conns (record t { closed = true })
