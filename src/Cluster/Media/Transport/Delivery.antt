-- ===== src/Cluster/Media/Transport/Delivery.antt =====
-- internal/cluster/media_transport.go: what is delivered, and who is heard.
use pulse_rtc.Prelude.{
  ℕ, ◌≡◌, refl, ap, Bool, true, false, ◌||◌, Option, none, some, List, [], ◌∷◌, ◌++◌, arith, ◌==◌,
  ◌=?◌, string_eq, All,
}
use pulse_rtc.Prelude.Map.{lookup, beq_self}
use mathlib.Core.Path.{subst}
use pulse_rtc.Cluster.Media.Wire.{
  Bytes, bytes_eq, ParsedFrame, Hello, encode_frame, decode_frame, decode_keyed, parse_hello,
  frame_hello, frame_bye, frame_rtp, frame_rtcp,
}
use pulse_rtc.Cluster.Media.Conn.{
  Addr, addr_eq, MediaConfig, MediaConn, Event, metric, rtp, rtcp, lost, wire, send_step,
  deliver_rtp, deliver_rtcp, is_addr, matches_source, mark_rx, write_to, notify_lost,
}
use pulse_rtc.Cluster.Media.Transport.{
  MediaTransport, new_transport, put_conn, close_conn, peer_closed, handle_keyed, handle_frame,
  handle_session, hello_valid, handle_known, handle_hello, handle_parsed, handle_datagram,
  heartbeat, read_size,
}
use pulse_rtc.Cluster.Media.Transport.Runs.{
  close_found, Op, step, run, is_hello, heard, hello_in, frame_in, datagram, dial_op, accept_op,
  tick, send_op, send_loop, handlers, bye_op, close_op,
}
use pulse_rtc.Cluster.Media.Transport.Trust.{
  Trusted, if-Trusted, close_conn-Trusted, over-Trusted, close-Trusted, dial-Trusted,
  accept_session-Trusted, heartbeat_conn-Trusted, handle_session-Trusted, handle_known-Trusted,
  send_keyed-Keeps, send_frames-Keeps,
}

module _ (hmac : Bytes → Bytes → Bytes) (P : Bytes → Addr → Type 0) where
  -- A valid HELLO in the step is one that `P` allows.
  abbrev Allowed : MediaConfig → Op → Type 0
  Allowed cfg o = (s : Bytes) (a : Addr) → is_hello hmac cfg s a o ≡ true → P s a

  handle_hello-Trusted :
      (cfg : MediaConfig) (now : ℕ) (src : Addr) (f : ParsedFrame) (t : MediaTransport)
      (o : Option Hello)
      → (hello_in hmac cfg f.session_id o ≡ true → P f.session_id src)
      → Trusted P t
      → Trusted P (handle_hello hmac cfg now src f t o).0
  unfolding handle_hello
  handle_hello-Trusted cfg now src f t none p ht = ht
  handle_hello-Trusted cfg now src f t (some h) p ht =
      if-Trusted P (hello_valid hmac cfg f.session_id h) _ _
        (λ q.
          handle_known-Trusted hmac P cfg now src f.session_id h t (lookup f.session_id t.conns)
            refl (p q) ht)
        λ q. ht

  handle_parsed-Trusted :
      (cfg : MediaConfig) (now : ℕ) (src : Addr) (t : MediaTransport) (o : Option ParsedFrame)
      → ((s : Bytes) → frame_in hmac cfg s o ≡ true → P s src)
      → Trusted P t
      → Trusted P (handle_parsed hmac cfg now src t o).0
  unfolding handle_parsed
  handle_parsed-Trusted cfg now src t none p ht = ht
  handle_parsed-Trusted cfg now src t (some f) p ht =
      if-Trusted P (f.kind == frame_hello) _ _
        (λ q.
          handle_hello-Trusted cfg now src f t (parse_hello f.payload)
            (λ r. p f.session_id (rw (q, beq_self f.session_id) r)) ht)
        λ q. handle_session-Trusted hmac P now src f t (lookup f.session_id t.conns) refl ht

  step-Trusted :
      (cfg : MediaConfig) (o : Op) (t : MediaTransport)
      → Allowed cfg o
      → Trusted P t
      → Trusted P (step hmac cfg o t)
  unfolding step is_hello handle_datagram heartbeat send_step
  step-Trusted cfg (datagram now src b) t p ht =
      handle_parsed-Trusted cfg now src t (decode_frame b)
        (λ s q. p s src (rw (beq_self src, q) refl)) ht
  step-Trusted cfg (dial_op s n a now) t p ht = dial-Trusted hmac P cfg s n a now t ht
  step-Trusted cfg (accept_op s n a now) t p ht = accept_session-Trusted hmac P s n a now t ht
  step-Trusted cfg (tick now s) t p ht =
      heartbeat_conn-Trusted hmac P cfg now s t (lookup s t.conns) refl ht
  step-Trusted cfg (send_op true s key packet) t p ht =
      over-Trusted hmac P _ s t (lookup s t.conns)
        (λ c. send_keyed-Keeps cfg frame_rtp key packet true c) refl ht
  step-Trusted cfg (send_op false s key packet) t p ht =
      over-Trusted hmac P _ s t (lookup s t.conns)
        (λ c. send_keyed-Keeps cfg frame_rtcp key packet false c) refl ht
  step-Trusted cfg (send_loop s) t p ht =
      over-Trusted hmac P _ s t (lookup s t.conns) (λ c. send_frames-Keeps c c.send_ch) refl ht
  step-Trusted cfg (handlers s a b l) t p ht =
      over-Trusted hmac P _ s t (lookup s t.conns) (λ c. (refl, refl, refl)) refl ht
  step-Trusted cfg (bye_op s) t p ht = close_found-Trusted (lookup s t.conns)
    where
      close_found-Trusted : (o : Option MediaConn) → Trusted P (close_found t o)
      close_found-Trusted none = ht
      close_found-Trusted (some c) = close_conn-Trusted P c t ht
  step-Trusted cfg close_op t p ht = close-Trusted hmac P t ht

-- The event hands something of session `s` to the layer above.
abbrev pub concerns : Bytes → Event → Bool
concerns s (metric _) = false
concerns s (rtp r _ _) = r =? s
concerns s (rtcp r _ _) = r =? s
concerns s (lost r) = r =? s
concerns s (wire _ _) = false

abbrev pub any_concerns : Bytes → List Event → Bool
any_concerns s [] = false
any_concerns s (e ∷ es) = concerns s e || any_concerns s es

any_concerns-append :
    (s : Bytes) (xs ys : List Event)
    → any_concerns s (xs ++ ys) ≡ (any_concerns s xs || any_concerns s ys)
any_concerns-append s [] ys = refl
any_concerns-append s (x ∷ xs) ys = ground (arith, any_concerns-append s xs ys)

write_to-quiet : (s : Bytes) (a : Option Addr) (b : Bytes) → any_concerns s (write_to a b) ≡ false
write_to-quiet s none b = refl
write_to-quiet s (some a) b = refl

handle_keyed-concerns :
    (s : Bytes) (is_rtp : Bool) (f : ParsedFrame) (c : MediaConn) (o : Option (Bytes × Bytes))
    → any_concerns s (handle_keyed is_rtp f c o) ≡ true
    → (c.session_id =? s) ≡ true
unfolding handle_keyed deliver_rtp deliver_rtcp
handle_keyed-concerns s is_rtp f c none h = ground arith
handle_keyed-concerns s true f c (some (key, pkt)) h = ground arith
handle_keyed-concerns s false f c (some (key, pkt)) h = ground arith

peer_closed-concerns :
    (s : Bytes) (c : MediaConn) (t : MediaTransport)
    → any_concerns s (peer_closed c t).1 ≡ true
    → (c.session_id =? s) ≡ true
unfolding peer_closed close_conn
peer_closed-concerns s c t h = ground (
  arith,
  any_concerns-append s (notify_lost c) (close_conn c t).1,
  write_to-quiet s c.remote_addr (encode_frame frame_bye c.session_id []),
)

handle_frame-concerns :
    (s : Bytes) (f : ParsedFrame) (c : MediaConn) (t : MediaTransport)
    → any_concerns s (handle_frame f c t).1 ≡ true
    → (c.session_id =? s) ≡ true
unfolding handle_frame
handle_frame-concerns s f c t h = ground (
  arith,
  peer_closed-concerns s c t,
  handle_keyed-concerns s true f c (decode_keyed f.payload),
  handle_keyed-concerns s false f c (decode_keyed f.payload),
)

handle_session-concerns :
    (now : ℕ) (src : Addr) (s : Bytes) (f : ParsedFrame) (t : MediaTransport) (o : Option MediaConn)
    → any_concerns s (handle_session now src f t o).1 ≡ true
    → (c : MediaConn) × (o ≡ some c)
      × ((c.session_id =? s) ≡ true)
      × (c.auth_ok ≡ true)
      × (matches_source c src ≡ true)
unfolding handle_session
handle_session-concerns now src s f t none h = absurd (let no : ⊥ = ground arith in no)
handle_session-concerns now src s f t (some c) h =
    let sid = handle_frame-concerns s f (mark_rx now c) (put_conn (mark_rx now c) t) in
    (c, refl, ground (arith, sid), ground arith, ground arith)

is_addr_lem : (o : Option Addr) (a : Addr) → is_addr o a ≡ true → o ≡ some a
is_addr_lem none a h = ground arith
is_addr_lem (some b) a h = ap some ((addr_eq.beq_iff b a).0 h)

module _ (hmac : Bytes → Bytes → Bytes) where
  handle_known-quiet :
      (cfg : MediaConfig) (now : ℕ) (src : Addr) (s : Bytes) (h : Hello) (t : MediaTransport)
      (o : Option MediaConn)
      → any_concerns s (handle_known hmac cfg now src h t o).1 ≡ false
  unfolding handle_known
  handle_known-quiet cfg now src s h t none = refl
  handle_known-quiet cfg now src s h t (some c) = ground arith

  handle_hello-quiet :
      (cfg : MediaConfig) (now : ℕ) (src : Addr) (s : Bytes) (f : ParsedFrame) (t : MediaTransport)
      (o : Option Hello)
      → any_concerns s (handle_hello hmac cfg now src f t o).1 ≡ false
  unfolding handle_hello
  handle_hello-quiet cfg now src s f t none = refl
  handle_hello-quiet cfg now src s f t (some h) =
      ground (arith, handle_known-quiet cfg now src s h t (lookup f.session_id t.conns))

  handle_parsed-concerns :
      (P : Bytes → Addr → Type 0) (cfg : MediaConfig) (now : ℕ) (src : Addr) (s : Bytes)
      (t : MediaTransport) (o : Option ParsedFrame)
      → Trusted P t
      → any_concerns s (handle_parsed hmac cfg now src t o).1 ≡ true
      → P s src
  unfolding handle_parsed
  handle_parsed-concerns P cfg now src s t none ht h = absurd (let no : ⊥ = ground arith in no)
  handle_parsed-concerns P cfg now src s t (some f) ht h =
      let quiet = handle_hello-quiet cfg now src s f t (parse_hello f.payload) in
      let r =
        handle_session-concerns now src s f t (lookup f.session_id t.conns)
          (ground (arith, quiet)) in
      let b = ht f.session_id r.0 r.1 in
      let a = b.1 r.3 in
      let there : is_addr r.0.remote_addr src ≡ true = ground (arith, r.4) in
      let here : a.0 ≡ src = ground (arith, is_addr_lem r.0.remote_addr src there, a.1) in
      let same : f.session_id ≡ s =
        ground (arith, b.0, (bytes_eq.beq_iff r.0.session_id s).0 r.2) in
      subst (λ x. P s x) here (subst (λ k. P k a.0) same a.2)

  heard-Allowed :
      (cfg : MediaConfig) (ops : List Op) (P : Bytes → Addr → Type 0)
      → ((s : Bytes) (a : Addr) → heard hmac cfg s a ops ≡ true → P s a)
      → All (Allowed hmac P cfg) ops
  unfolding heard
  heard-Allowed cfg [] P h = tt
  heard-Allowed cfg (o ∷ ops) P h = (
    λ s a e. h s a (ground (arith, e)),
    heard-Allowed cfg ops P λ s a e. h s a (ground (arith, e)),
  )

  run-Trusted :
      (P : Bytes → Addr → Type 0) (cfg : MediaConfig) (ops : List Op) (t : MediaTransport)
      → All (Allowed hmac P cfg) ops
      → Trusted P t
      → Trusted P (run hmac cfg ops t)
  unfolding run
  run-Trusted P cfg [] t h ht = ht
  run-Trusted P cfg (o ∷ ops) t h ht =
      run-Trusted P cfg ops (step hmac cfg o t) h.1 (step-Trusted hmac P cfg o t h.0 ht)

  new-Trusted : (P : Bytes → Addr → Type 0) → Trusted P new_transport
  unfolding lookup
  new-Trusted P s c e = absurd (let no : ⊥ = ground arith in no)

  -- Whatever has happened to a transport since it was made, a datagram by which it hands an RTP or
  -- RTCP packet of a session to the layer above, or the loss of a session, comes from an address
  -- from which an earlier datagram brought a HELLO of that session that is meant for this node and
  -- has the right code under the shared secret.
  pub handle_datagram-heard :
      (cfg : MediaConfig) (ops : List Op) (now : ℕ) (src : Addr) (b : Bytes) (s : Bytes)
      → any_concerns s (handle_datagram hmac cfg now src b (run hmac cfg ops new_transport)).1
        ≡ true
      → heard hmac cfg s src ops ≡ true
  unfolding handle_datagram
  handle_datagram-heard cfg ops now src b s h =
      let P : Bytes → Addr → Type 0 = λ s a. heard hmac cfg s a ops ≡ true in
      let t = run hmac cfg ops new_transport in
      handle_parsed-concerns P cfg now src s t (decode_frame b)
        (run-Trusted P cfg ops new_transport (heard-Allowed cfg ops P λ s a e. e) (new-Trusted P))
        (read_size-quiet (decode_frame b) h)
    where
      read_size-quiet :
          (o : Option ParsedFrame)
          → any_concerns s (
              read_size cfg b o
              ++ (handle_parsed hmac cfg now src (run hmac cfg ops new_transport) o).1)
            ≡ true
          → any_concerns s (handle_parsed hmac cfg now src (run hmac cfg ops new_transport) o).1
            ≡ true
      read_size-quiet none q = q
      read_size-quiet (some f) q = ground (arith, q)
