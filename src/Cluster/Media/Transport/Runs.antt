-- ===== src/Cluster/Media/Transport/Runs.antt =====
-- internal/cluster/media_transport.go and media_conn.go: runs of the transport as lists of steps.
use pulse_rtc.Prelude.{
  ℕ, Bool, false, ◌&&◌, ◌||◌, Option, none, some, List, [], ◌∷◌, ◌++◌, ◌==◌, if◌then◌else◌, ◌=?◌,
  string_eq,
}
use pulse_rtc.Prelude.Map.{lookup}
use pulse_rtc.Cluster.Media.Wire.{
  Bytes, bytes_eq, ParsedFrame, Hello, decode_frame, parse_hello, frame_hello,
}
use pulse_rtc.Cluster.Media.Conn.{
  Addr, addr_eq, MediaConfig, MediaConn, send_rtp, send_rtcp, send_step,
}
use pulse_rtc.Cluster.Media.Transport.{
  MediaTransport, put_conn, close_conn, accept_session, dial, handle_datagram, heartbeat, close,
}

-- What happens to the transport: a datagram from the socket, calls from outside, a tick of a
-- session's ticker, a round of its send loop, and calls on a session that `conns` still has.
pub data Op : Type 0 where
  datagram : (now : ℕ) → Addr → Bytes → Op
  dial_op : Bytes → Bytes → Option Addr → (now : ℕ) → Op
  accept_op : Bytes → Bytes → Option Addr → (now : ℕ) → Op
  tick : (now : ℕ) → Bytes → Op
  send_op : (is_rtp : Bool) → Bytes → (key packet : Bytes) → Op
  send_loop : Bytes → Op
  handlers : Bytes → (on_rtp on_rtcp lost_handler : Bool) → Op
  bye_op : Bytes → Op
  close_op : Op

abbrev pub over : (MediaConn → MediaConn) → MediaTransport → Option MediaConn → MediaTransport
over f t none = t
over f t (some c) = put_conn (f c) t

abbrev pub close_found : MediaTransport → Option MediaConn → MediaTransport
close_found t none = t
close_found t (some c) = (close_conn c t).0

abbrev pub set_handlers : Bool → Bool → Bool → MediaConn → MediaConn
set_handlers a b l c = record c { on_rtp = a; on_rtcp = b; lost_handler = l }

module _ (hmac : Bytes → Bytes → Bytes) where
  unfoldable pub step : MediaConfig → Op → MediaTransport → MediaTransport
  step cfg (datagram now src b) t = (handle_datagram hmac cfg now src b t).0
  step cfg (dial_op s n a now) t = (dial hmac cfg s n a now t).0
  step cfg (accept_op s n a now) t = (accept_session s n a now t).0
  step cfg (tick now s) t = (heartbeat hmac cfg now s t).0
  step cfg (send_op is_rtp s key packet) t =
      over (λ c. if is_rtp then (send_rtp cfg key packet c).0 else (send_rtcp cfg key packet c).0) t
        (lookup s t.conns)
  step cfg (send_loop s) t = over (λ c. (send_step c).0) t (lookup s t.conns)
  step cfg (handlers s a b l) t = over (set_handlers a b l) t (lookup s t.conns)
  step cfg (bye_op s) t = close_found t (lookup s t.conns)
  step cfg close_op t = (close t).0

  unfoldable pub run : MediaConfig → List Op → MediaTransport → MediaTransport
  run cfg [] t = t
  run cfg (o ∷ os) t = run cfg os (step cfg o t)

  abbrev pub hello_in : MediaConfig → Bytes → Option Hello → Bool
  hello_in cfg s none = false
  hello_in cfg s (some h) =
      h.mac =? hmac cfg.secret (s ++ (h.src ++ (0 ∷ h.dst))) && h.dst =? cfg.self_id

  abbrev pub frame_in : MediaConfig → Bytes → Option ParsedFrame → Bool
  frame_in cfg s none = false
  frame_in cfg s (some f) =
      f.kind == frame_hello && f.session_id =? s && hello_in cfg s (parse_hello f.payload)

  -- The step is a datagram from that address with a valid HELLO of that session.
  unfoldable pub is_hello : MediaConfig → Bytes → Addr → Op → Bool
  is_hello cfg s a (datagram now src b) = src =? a && frame_in cfg s (decode_frame b)
  is_hello cfg s a (dial_op _ _ _ _) = false
  is_hello cfg s a (accept_op _ _ _ _) = false
  is_hello cfg s a (tick _ _) = false
  is_hello cfg s a (send_op _ _ _ _) = false
  is_hello cfg s a (send_loop _) = false
  is_hello cfg s a (handlers _ _ _ _) = false
  is_hello cfg s a (bye_op _) = false
  is_hello cfg s a close_op = false

  unfoldable pub heard : MediaConfig → Bytes → Addr → List Op → Bool
  heard cfg s a [] = false
  heard cfg s a (o ∷ os) = is_hello cfg s a o || heard cfg s a os
