-- ===== src/Cluster/Media/Transport/Volley.antt =====
-- internal/cluster/media_transport.go and media_conn.go: the handshake of two nodes, and what comes
-- after it.
use pulse_rtc.Prelude.{
  ℕ, zero, suc, ◌≡◌, refl, sym, ap, ◌∙◌, Bool, true, false, Option, none, some, List, [], ◌∷◌, ◌++◌,
  arith, ltb, if◌then◌else◌, length, string_eq,
}
use pulse_rtc.Prelude.Map.{lookup, lookup-insert, beq_self}
use mathlib.Core.Path.{subst}
use pulse_rtc.Cluster.Media.Wire.{Bytes, bytes_eq}
use pulse_rtc.Cluster.Media.Conn.{
  Addr, addr_eq, MediaConfig, MediaConn, Event, metric, rtp, rtcp, lost, wire, new_conn, enqueue,
  send_hello, send_step, send_frames, mark_rx, mark_authenticated, confirm_source, write_to,
  hello_frame, depth,
}
use pulse_rtc.Cluster.Media.Transport.{
  MediaTransport, put_conn, accept_conn, accept_session, dial_conn, dial, handle_datagram,
}
use pulse_rtc.Cluster.Node.{Error, error, media_transport_closed}
use pulse_rtc.Cluster.Media.Transport.Handshake.{Peers, established, handle_datagram-hello_frame}

-- `t` expects the peer in session `s`, and has nothing left to send in it.
abbrev pub Ready : MediaConfig → Bytes → MediaTransport → Type 0
Ready peer s t =
    (d : MediaConn) × (lookup s t.conns ≡ some d)
    × (d.session_id ≡ s)
    × (d.remote_node_id ≡ peer.self_id)
    × (d.send_ch ≡ [])

-- A datagram is handled, and the session's send loop then runs once.
abbrev pub flush : Bytes → MediaTransport → Option MediaConn → MediaTransport × List Event
flush s t none = (t, [])
flush s t (some c) = (put_conn (send_step c).0 t, (send_step c).1)

-- The bytes that were sent.
abbrev pub sent : List Event → Bytes
sent [] = []
sent (metric _ ∷ es) = sent es
sent (rtp _ _ _ ∷ es) = sent es
sent (rtcp _ _ _ ∷ es) = sent es
sent (lost _ ∷ es) = sent es
sent (wire _ b ∷ es) = b

module _ (hmac : Bytes → Bytes → Bytes) where
  unfoldable pub reply :
      MediaConfig → ℕ → Addr → Bytes → Bytes → MediaTransport → MediaTransport × List Event
  reply cfg now src b s t =
      let r = (handle_datagram hmac cfg now src b t).0 in flush s r (lookup s r.conns)

  abbrev pub hello_at : MediaConfig → Bytes → Bytes → Bytes
  hello_at cfg s peer = hello_frame hmac cfg (new_conn s peer none 0)

  -- The nodes hand each other what the other has just sent, `n` times, beginning with a datagram to
  -- the second; what they send.
  unfoldable pub volley :
      ℕ
      → MediaConfig
      → MediaConfig
      → ℕ
      → Addr
      → Addr
      → Bytes
      → Bytes
      → MediaTransport
      → MediaTransport
      → List Event
  volley zero cfg_a cfg_b now addr_a addr_b s b t u = []
  volley (suc n) cfg_a cfg_b now addr_a addr_b s b t u =
      let r = reply cfg_b now addr_a b s u in
      r.1 ++ volley n cfg_b cfg_a now addr_b addr_a s (sent r.1) r.0 t

Peers-sym : {cfg_a cfg_b : MediaConfig} {s : Bytes} → Peers cfg_a cfg_b s → Peers cfg_b cfg_a s
Peers-sym p = record {
  same_secret = sym p.same_secret;
  a_fits = p.b_fits;
  b_fits = p.a_fits;
  session_fits = p.session_fits;
}

module _ (hmac : Bytes → Bytes → Bytes) (mac_length : (k m : Bytes) → length (hmac k m) ≡ 32) where
  send_hello_empty :
      (cfg : MediaConfig) (c : MediaConn)
      → c.send_ch ≡ []
      → send_hello hmac cfg c ≡ record c { send_ch = hello_frame hmac cfg c ∷ [] }
  unfolding send_hello enqueue
  send_hello_empty cfg c h =
      let room : ltb (length c.send_ch) (depth cfg) ≡ true = ground (arith, h) in
      let full : MediaConn × Bool = (c, false) in
      let put : Bytes → MediaConn × Bool =
        λ b. (record c { send_ch = c.send_ch ++ (b ∷ []) }, true) in
      ap (λ q. (if q then put (hello_frame hmac cfg c) else full).0) room
      ∙ ap (λ (l : List Bytes). record c { send_ch = l ++ (hello_frame hmac cfg c ∷ []) }) h

  flush_put :
      (s : Bytes) (c : MediaConn) (t : MediaTransport) (src : Addr) (b : Bytes)
      → c.session_id ≡ s
      → c.remote_addr ≡ some src
      → flush s
          (put_conn (record c { send_ch = b ∷ [] }) t)
          (lookup s (put_conn (record c { send_ch = b ∷ [] }) t).conns)
        ≡ (
          put_conn (record c { send_ch = [] }) (put_conn (record c { send_ch = b ∷ [] }) t),
          wire src b ∷ [],
        )
  unfolding send_step send_frames
  flush_put s c t src b hs ha =
      let d : MediaConn = record c { send_ch = b ∷ [] } in
      let u : MediaTransport = put_conn d t in
      let found : lookup s u.conns ≡ some d =
        ground
          (arith, lookup-insert c.session_id s d t.conns, (bytes_eq.beq_iff c.session_id s).1 hs) in
      let quiet : MediaTransport = put_conn (record c { send_ch = [] }) u in
      ap (λ o. flush s u o) found ∙ ap (λ (o : Option Addr). (quiet, write_to o b)) ha

  put_conn-established :
      (s : Bytes) (src : Addr) (c : MediaConn) (t : MediaTransport)
      → c.session_id ≡ s
      → established src (some c) ≡ true
      → established src (lookup s (put_conn c t).conns) ≡ true
  put_conn-established s src c t hs he =
      let found : lookup s (put_conn c t).conns ≡ some c =
        ground
          (arith, lookup-insert c.session_id s c t.conns, (bytes_eq.beq_iff c.session_id s).1 hs) in
      rw found he

  put_conn-Ready :
      (peer : MediaConfig) (s : Bytes) (c : MediaConn) (t : MediaTransport)
      → c.session_id ≡ s
      → c.remote_node_id ≡ peer.self_id
      → c.send_ch ≡ []
      → Ready peer s (put_conn c t)
  put_conn-Ready peer s c t hs hp hq = (
    c,
    ground (arith, lookup-insert c.session_id s c t.conns, (bytes_eq.beq_iff c.session_id s).1 hs),
    hs,
    hp,
    hq,
  )

  -- A node that expects the sender answers its HELLO with a HELLO of its own to the address that
  -- the sender's came from; the session is then established with that address, and ready again.
  reply_lem :
      (cfg_a cfg_b : MediaConfig) (now : ℕ) (src : Addr) (s : Bytes) (t : MediaTransport)
      → Peers cfg_a cfg_b s
      → Ready cfg_a s t
      → ((reply hmac cfg_b now src (hello_at hmac cfg_a s cfg_b.self_id) s t).1
          ≡ wire src (hello_at hmac cfg_b s cfg_a.self_id) ∷ [])
        × Ready cfg_a s (reply hmac cfg_b now src (hello_at hmac cfg_a s cfg_b.self_id) s t).0
        × (established src (
              lookup s (reply hmac cfg_b now src (hello_at hmac cfg_a s cfg_b.self_id) s t).0.conns)
            ≡ true)
  unfolding reply new_conn
  reply_lem cfg_a cfg_b now src s t p r =
      let d = r.0 in
      let c : MediaConn = mark_rx now (mark_authenticated (confirm_source src d)) in
      let b = hello_frame hmac cfg_b c in
      let after : MediaTransport = put_conn (record c { send_ch = b ∷ [] }) t in
      let e1 =
        handle_datagram-hello_frame hmac mac_length cfg_a cfg_b now src
          (new_conn s cfg_b.self_id none 0) d t p refl r.3 r.2 r.1 in
      let e2 = send_hello_empty cfg_b c r.4 in
      let e =
        ap (λ u. flush s u (lookup s u.conns)) (e1 ∙ ap (λ x. put_conn x t) e2)
        ∙ flush_put s c t src b r.2 refl in
      let same : b ≡ hello_at hmac cfg_b s cfg_a.self_id =
        ap (λ k. hello_at hmac cfg_b k d.remote_node_id) r.2
        ∙ ap (λ n. hello_at hmac cfg_b s n) r.3 in
      (
        ap (λ x. x.1) e ∙ ap (λ k. wire src k ∷ []) same,
        subst (λ x. Ready cfg_a s x.0) (sym e)
            (put_conn-Ready cfg_a s (record c { send_ch = [] }) after r.2 r.3 refl),
        subst (λ x. established src (lookup s x.0.conns) ≡ true) (sym e)
            (put_conn-established s src (record c { send_ch = [] }) after r.2 (beq_self src)),
      )

  -- Two nodes that share the secret, with ids of at most 255 bytes and a session id of 16, and that
  -- expect each other answer each other's HELLOs without end: of however many
  -- datagrams that are handed over, beginning with a HELLO, each is answered by another.
  pub volley_lem :
      (n : ℕ) (cfg_a cfg_b : MediaConfig) (now : ℕ) (addr_a addr_b : Addr) (s : Bytes)
      (t u : MediaTransport)
      → Peers cfg_a cfg_b s
      → Ready cfg_b s t
      → Ready cfg_a s u
      → length
          (volley hmac n cfg_a cfg_b now addr_a addr_b s (hello_at hmac cfg_a s cfg_b.self_id) t u)
        ≡ n
  unfolding volley
  volley_lem zero cfg_a cfg_b now addr_a addr_b s t u p ht hu = refl
  volley_lem (suc n) cfg_a cfg_b now addr_a addr_b s t u p ht hu =
      let r = reply_lem cfg_a cfg_b now addr_a s u p hu in
      rw r.0 (
        ap suc (
          volley_lem n cfg_b cfg_a now addr_b addr_a s
            (reply hmac cfg_b now addr_a (hello_at hmac cfg_a s cfg_b.self_id) s u).0 t
            (Peers-sym p) r.1 ht))

  dial_lem :
      (cfg peer : MediaConfig) (s : Bytes) (a : Addr) (now : ℕ) (t : MediaTransport)
      → t.closed ≡ false
      → lookup s t.conns ≡ none
      → let d = (dial hmac cfg s peer.self_id (some a) now t).0 in
        ((flush s d (lookup s d.conns)).1 ≡ wire a (hello_at hmac cfg s peer.self_id) ∷ [])
        × Ready peer s (flush s d (lookup s d.conns)).0
  unfolding dial dial_conn new_conn
  dial_lem cfg peer s a now t open_ absent =
      let c = new_conn s peer.self_id (some a) now in
      let b = hello_at hmac cfg s peer.self_id in
      let after : MediaTransport = put_conn (record c { send_ch = b ∷ [] }) t in
      let refused : MediaTransport × Option Error = (t, some (error media_transport_closed)) in
      let e : (dial hmac cfg s peer.self_id (some a) now t).0 ≡ after =
        ap
          (λ q.
            (if q
              then refused
              else (dial_conn hmac cfg s peer.self_id a now t (lookup s t.conns), none)).0)
          open_
        ∙ ap (λ o. dial_conn hmac cfg s peer.self_id a now t o) absent
        ∙ ap (λ x. put_conn x t) (send_hello_empty cfg c refl) in
      let f = ap (λ u. flush s u (lookup s u.conns)) e ∙ flush_put s c t a b refl refl in
      (
        ap (λ x. x.1) f,
        subst (λ x. Ready peer s x.0) (sym f)
            (put_conn-Ready peer s (record c { send_ch = [] }) after refl refl refl),
      )

  accept_session_lem :
      (peer : MediaConfig) (s : Bytes) (a : Option Addr) (now : ℕ) (t : MediaTransport)
      → t.closed ≡ false
      → lookup s t.conns ≡ none
      → Ready peer s (accept_session s peer.self_id a now t).0
  unfolding accept_session accept_conn new_conn
  accept_session_lem peer s a now t open_ absent =
      let refused : MediaTransport × Option Error = (t, some (error media_transport_closed)) in
      let e =
        ap
          (λ q.
            (if q
              then refused
              else (accept_conn s peer.self_id a now t (lookup s t.conns), none)).0)
          open_
        ∙ ap (λ o. accept_conn s peer.self_id a now t o) absent in
      subst (λ x. Ready peer s x) (sym e)
        (put_conn-Ready peer s (new_conn s peer.self_id a now) t refl refl refl)

  -- Two nodes that share the secret, with ids of at most 255 bytes and a session id of 16, whose
  -- transports are open and know nothing of the session, the one dialling and the other accepting
  -- it with the address left open, have established it with each other's addresses once the
  -- dialler's HELLO and the HELLO that answers it have arrived.
  pub handshake_lem :
      (cfg_a cfg_b : MediaConfig) (addr_a addr_b : Addr) (now : ℕ) (s : Bytes)
      (t u : MediaTransport)
      → Peers cfg_a cfg_b s
      → t.closed ≡ false
      → lookup s t.conns ≡ none
      → u.closed ≡ false
      → lookup s u.conns ≡ none
      → let d = (dial hmac cfg_a s cfg_b.self_id (some addr_b) now t).0 in
        let a1 = flush s d (lookup s d.conns) in
        let b1 = (accept_session s cfg_a.self_id none now u).0 in
        let b2 = reply hmac cfg_b now addr_a (sent a1.1) s b1 in
        let a2 = reply hmac cfg_a now addr_b (sent b2.1) s a1.0 in
        (established addr_a (lookup s b2.0.conns) ≡ true)
        × (established addr_b (lookup s a2.0.conns) ≡ true)
  handshake_lem cfg_a cfg_b addr_a addr_b now s t u p ht lt_ hu lu =
      let da = dial_lem cfg_a cfg_b s addr_b now t ht lt_ in
      let ab = accept_session_lem cfg_a s none now u hu lu in
      let rb =
        reply_lem cfg_a cfg_b now addr_a s (accept_session s cfg_a.self_id none now u).0 p ab in
      let d = (dial hmac cfg_a s cfg_b.self_id (some addr_b) now t).0 in
      let ra =
        reply_lem cfg_b cfg_a now addr_b s (flush s d (lookup s d.conns)).0 (Peers-sym p) da.1 in
      rw (da.0, rb.0) (rb.2, ra.2)
