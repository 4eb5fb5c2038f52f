-- ===== src/Cluster/Media/Transport/Handshake.antt =====
-- internal/cluster/media_transport.go and media_conn.go: what one node sends, another that shares
-- the secret and expects it takes.
use pulse_rtc.Prelude.{
  ℕ, ◌+◌, ◌≤◌, ◌<◌, ◌≡◌, refl, sym, ap, ◌∙◌, Bool, true, false, ◌&&◌, Option, none, some, List, [],
  ◌∷◌, ◌++◌, arith, ltb, ◌==◌, if◌then◌else◌, length, length-append, ◌=?◌, string_eq,
}
use pulse_rtc.Prelude.Map.{lookup}
use pulse_rtc.Cluster.Media.Wire.{
  Bytes, bytes_eq, ParsedFrame, Hello, encode_frame, decode_frame, encode_keyed, decode_keyed,
  parse_hello, frame_hello, frame_rtp,
}
use pulse_rtc.Cluster.Media.Conn.{
  Addr, addr_eq, MediaConfig, MediaConn, Event, metric, rtp, auth_failed, enqueue, send_rtp,
  send_keyed, deliver_rtp, matches_source, hello_frame, depth,
}
use pulse_rtc.Cluster.Media.Transport.{
  size_metric, MediaTransport, put_conn, handle_keyed, handle_frame, handle_session, hello_valid,
  answer_hello, handle_known, handle_hello, handle_parsed, handle_datagram, read_size,
}
use Prim.Native.Nat.{◌%◌}
use mathlib.Core.List.{append-nil}
use pulse_rtc.Cluster.Media.Conn.{rtp_received, rtp_sent, too_large, hello_mac}
use pulse_rtc.Cluster.Media.Wire.{hello_payload}
use pulse_rtc.Cluster.Media.Wire.RoundTrip.{
  decode_frame-encode_frame, parse_hello-hello_payload, decode_keyed-encode_keyed,
}

-- A frame on its own is read back.
read_frame :
    (kind : ℕ) (s payload : Bytes)
    → length s ≡ 16
    → length payload ≤ 65535
    → decode_frame (encode_frame kind s payload)
      ≡ some (record { kind = kind; session_id = s; payload = payload })
read_frame kind s payload hs hp =
    ap decode_frame (sym (append-nil (encode_frame kind s payload)))
    ∙ decode_frame-encode_frame kind s payload [] hs hp

length-encode_keyed :
    (key packet : Bytes)
    → length key ≤ 255
    → length (encode_keyed key packet) ≡ 1 + length key + length packet
unfolding encode_keyed
length-encode_keyed key packet h =
    let e : ltb 255 (length key) ≡ false = ground arith in
    rw e (omega (arith, length-append key packet))

length-hello_payload :
    (a b m : Bytes) → length (hello_payload a b m) ≡ 2 + length a + length b + length m
unfolding hello_payload
length-hello_payload a b m =
    ground (arith, length-append a ((length b % 256) ∷ (b ++ m)), length-append b m)

-- The session is authenticated, and bound to that address.
abbrev pub established : Addr → Option MediaConn → Bool
established a none = false
established a (some c) = c.auth_ok && matches_source c a

handle_datagram-frame :
    (hmac : Bytes → Bytes → Bytes) (cfg : MediaConfig) (now : ℕ) (src : Addr) (b : Bytes)
    (f : ParsedFrame) (t : MediaTransport)
    → decode_frame b ≡ some f
    → (f.kind == frame_hello) ≡ false
    → (handle_datagram hmac cfg now src b t).1
      ≡ size_metric cfg b ++ (handle_session now src f t (lookup f.session_id t.conns)).1
unfolding handle_datagram handle_parsed
handle_datagram-frame hmac cfg now src b f t e k =
    ap (λ o. read_size cfg b o ++ (handle_parsed hmac cfg now src t o).1) e
    ∙ ap
        (λ q.
          size_metric cfg b
          ++ (if q
              then handle_hello hmac cfg now src f t (parse_hello f.payload)
              else handle_session now src f t (lookup f.session_id t.conns)).1)
        k

handle_session-rtp :
    (now : ℕ) (src : Addr) (f : ParsedFrame) (d : MediaConn) (t : MediaTransport)
    (key packet : Bytes)
    → f.kind ≡ frame_rtp
    → established src (some d) ≡ true
    → d.on_rtp ≡ true
    → decode_keyed f.payload ≡ some (key, packet)
    → (handle_session now src f t (some d)).1
      ≡ metric rtp_received ∷ (rtp d.session_id key packet ∷ [])
unfolding handle_session handle_frame handle_keyed deliver_rtp
handle_session-rtp now src f d t key packet k he hr e = ground (arith, k, e)

-- Where an authenticated session whose queue has room sends an RTP packet, with a key of at most
-- 255 bytes and within the limits on size, the call returns no error and queues one datagram. At a
-- node where the session is established with the address that it comes from, that datagram hands
-- the key and the packet, unchanged, to the handler for RTP and to nothing else.
pub handle_datagram-send_rtp :
    (hmac : Bytes → Bytes → Bytes) (cfg_a cfg_b : MediaConfig) (now : ℕ) (src : Addr)
    (key packet : Bytes) (c d : MediaConn) (t : MediaTransport)
    → c.closed ≡ false
    → c.auth_ok ≡ true
    → too_large cfg_a packet ≡ false
    → length c.send_ch < depth cfg_a
    → length c.session_id ≡ 16
    → length key ≤ 255
    → length key + length packet < 65535
    → lookup c.session_id t.conns ≡ some d
    → d.session_id ≡ c.session_id
    → established src (some d) ≡ true
    → d.on_rtp ≡ true
    → (frame : Bytes) × (send_rtp cfg_a key packet c
        ≡ (record c { send_ch = c.send_ch ++ (frame ∷ []) }, (none, metric rtp_sent ∷ [])))
      × ((handle_datagram hmac cfg_b now src frame t).1
          ≡ size_metric cfg_b frame ++ (metric rtp_received ∷ (rtp c.session_id key packet ∷ [])))
unfolding send_keyed enqueue
handle_datagram-send_rtp hmac cfg_a cfg_b now src key packet c d t hc ha hl hq hs hk hp hd hsid he
      hr =
    let s = c.session_id in
    let frame : Bytes = encode_frame frame_rtp s (encode_keyed key packet) in
    let fits : length (encode_keyed key packet) ≤ 65535 =
      omega (arith, length-encode_keyed key packet hk) in
    let back = read_frame frame_rtp s (encode_keyed key packet) hs fits in
    let whole = decode_keyed-encode_keyed key packet hk in
    let f : ParsedFrame = record {
      kind = frame_rtp;
      session_id = s;
      payload = encode_keyed key packet;
    } in
    let x = handle_datagram-frame hmac cfg_b now src frame f t back refl in
    let y = handle_session-rtp now src f d t key packet refl he hr whole in
    (
      frame,
      ground arith,
      x
          ∙ ap (λ r. size_metric cfg_b frame ++ r)
              (ap (λ o. (handle_session now src f t o).1) hd
                ∙ y
                ∙ ap (λ k. metric rtp_received ∷ (rtp k key packet ∷ [])) hsid),
    )

-- Nodes that share the secret, with ids and a session that the format can carry.
pub record Peers (cfg_a cfg_b : MediaConfig) (s : Bytes) : Type 0 where
  pub same_secret : cfg_a.secret ≡ cfg_b.secret
  pub a_fits : length cfg_a.self_id ≤ 255
  pub b_fits : length cfg_b.self_id ≤ 255
  pub session_fits : length s ≡ 16

module _ (hmac : Bytes → Bytes → Bytes) (mac_length : (k m : Bytes) → length (hmac k m) ≡ 32) where
  pub handle_datagram-hello_frame :
      (cfg_a cfg_b : MediaConfig) (now : ℕ) (src : Addr) (c d : MediaConn) (t : MediaTransport)
      → Peers cfg_a cfg_b c.session_id
      → c.remote_node_id ≡ cfg_b.self_id
      → d.remote_node_id ≡ cfg_a.self_id
      → d.session_id ≡ c.session_id
      → lookup c.session_id t.conns ≡ some d
      → (handle_datagram hmac cfg_b now src (hello_frame hmac cfg_a c) t).0
        ≡ put_conn (answer_hello hmac cfg_b now src d) t
  unfolding handle_datagram handle_parsed handle_hello handle_known
  handle_datagram-hello_frame cfg_a cfg_b now src c d t p hc hd hs hl =
      let s = c.session_id in
      let mac = hello_mac hmac cfg_a.secret s cfg_a.self_id c.remote_node_id in
      let payload = hello_payload cfg_a.self_id c.remote_node_id mac in
      let fits : length payload ≤ 65535 = ground (
        arith,
        length-hello_payload cfg_a.self_id c.remote_node_id mac,
        mac_length cfg_a.secret (s ++ (cfg_a.self_id ++ (0 ∷ c.remote_node_id))),
        p.a_fits,
        p.b_fits,
      ) in
      let back = read_frame frame_hello s payload p.session_fits fits in
      let whole =
        parse_hello-hello_payload cfg_a.self_id c.remote_node_id mac p.a_fits
          (ground (arith, p.b_fits)) (mac_length _ _) in
      let f : ParsedFrame = record { kind = frame_hello; session_id = s; payload = payload } in
      let h : Hello = record { src = cfg_a.self_id; dst = c.remote_node_id; mac = mac } in
      let known : Option MediaConn → MediaTransport =
        λ o. (handle_known hmac cfg_b now src h t o).0 in
      let answered : MediaTransport = put_conn (answer_hello hmac cfg_b now src d) t in
      let stay : MediaTransport × List Event = (t, metric auth_failed ∷ []) in
      let go : MediaTransport × List Event = (answered, []) in
      let valid : hello_valid hmac cfg_b s h ≡ true =
        let v1 : (mac =? hello_mac hmac cfg_b.secret s cfg_a.self_id c.remote_node_id) ≡ true =
          (bytes_eq.beq_iff _ _).1
            (ap (λ k. hello_mac hmac k s cfg_a.self_id c.remote_node_id) p.same_secret) in
        let v2 : (c.remote_node_id =? cfg_b.self_id) ≡ true = (bytes_eq.beq_iff _ _).1 hc in
        rw (v1, v2) refl in
      let expected : (d.remote_node_id =? cfg_a.self_id) ≡ true = (bytes_eq.beq_iff _ _).1 hd in
      ap (λ o. (handle_parsed hmac cfg_b now src t o).0) back
      ∙ ap (λ o. (handle_hello hmac cfg_b now src f t o).0) whole
      ∙ ap (λ q. (if q then handle_known hmac cfg_b now src h t (lookup s t.conns) else stay).0)
          valid
      ∙ ap known hl
      ∙ ap (λ q. (if q then go else stay).0) expected
