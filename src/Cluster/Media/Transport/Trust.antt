-- ===== src/Cluster/Media/Transport/Trust.antt =====
-- internal/cluster/media_transport.go: the address of every authenticated session, kept by each
-- operation.
use pulse_rtc.Prelude.{
  ℕ, ◌-◌, ◌≡◌, inl, inr, refl, sym, ◌∙◌, Bool, true, false, ◌&&◌, not, Option, none, some, List, [],
  ◌∷◌, arith, ltb, ◌==◌, if◌then◌else◌, Bool-cases, length, ◌=?◌, string_eq,
}
use pulse_rtc.Prelude.Map.{lookup, lookup-insert, lookup-delete}
use mathlib.Core.Path.{subst}
use pulse_rtc.Cluster.Media.Wire.{
  Bytes, bytes_eq, ParsedFrame, Hello, encode_frame, encode_keyed, frame_heartbeat, frame_bye,
  frame_rtp, frame_rtcp,
}
use pulse_rtc.Cluster.Media.Conn.{
  Addr, addr_eq, MediaConfig, MediaConn, new_conn, enqueue, send_hello, send_keyed, send_frames,
  matches_source, mark_rx, mark_authenticated, confirm_source, bye, hello_frame, depth,
}
use pulse_rtc.Cluster.Media.Transport.{
  timeout_of, MediaTransport, put_conn, remove_conn, close_conn, peer_closed, accept_conn,
  accept_session, handle_frame, handle_session, dial_conn, dial, handle_known, heartbeat_conn,
  close_all, close,
}
use pulse_rtc.Cluster.Media.Transport.Runs.{over}

module _ (P : Bytes → Addr → Type 0) where
  abbrev pub Backed : Bytes → MediaConn → Type 0
  Backed s c =
      (c.session_id ≡ s) × (c.auth_ok ≡ true → (a : Addr) × (c.remote_addr ≡ some a) × P s a)

  -- Every authenticated session has an address that `P` allows.
  abbrev pub Trusted : MediaTransport → Type 0
  Trusted t = (s : Bytes) (c : MediaConn) → lookup s t.conns ≡ some c → Backed s c

  pub if-Trusted {ℓ} :
      {R : Type ℓ} (b : Bool) (x y : MediaTransport × R)
      → (b ≡ true → Trusted x.0)
      → (b ≡ false → Trusted y.0)
      → Trusted (if b then x else y).0
  if-Trusted true x y hx hy = hx refl
  if-Trusted false x y hx hy = hy refl

  pub put_conn-Trusted :
      (c : MediaConn) (t : MediaTransport)
      → Backed c.session_id c
      → Trusted t
      → Trusted (put_conn c t)
  put_conn-Trusted c t hc ht s d e = elim (Bool-cases (c.session_id =? s)) [
    | inl q ↦
        let same : c.session_id ≡ s = ground (arith, bytes_eq.beq_iff c.session_id s) in
        let here : c ≡ d = ground (arith, lookup-insert c.session_id s c t.conns) in
        subst (λ x. Backed s x) here (subst (λ k. Backed k c) same hc)
    | inr q ↦ ht s d (ground (arith, lookup-insert c.session_id s c t.conns))
  ]

  pub remove_conn-Trusted : (k : Bytes) (t : MediaTransport) → Trusted t → Trusted (remove_conn k t)
  remove_conn-Trusted k t ht s d e = ht s d (ground (arith, lookup-delete k s t.conns))

  pub close_conn-Trusted :
      (c : MediaConn) (t : MediaTransport) → Trusted t → Trusted (close_conn c t).0
  unfolding close_conn
  close_conn-Trusted c t ht =
      if-Trusted c.closed (t, []) (remove_conn c.session_id t, bye c) (λ e. ht)
        λ e. remove_conn-Trusted c.session_id t ht

abbrev pub Keeps : MediaConn → MediaConn → Type 0
Keeps c d =
    (d.session_id ≡ c.session_id) × (d.auth_ok ≡ c.auth_ok) × (d.remote_addr ≡ c.remote_addr)

pub enqueue-Keeps :
    (cfg : MediaConfig) (frame : Bytes) (c : MediaConn) → Keeps c (enqueue cfg frame c).0
unfolding enqueue
enqueue-Keeps cfg frame c = elim (Bool-cases (ltb (length c.send_ch) (depth cfg))) [
  | inl q ↦ rw q (refl, refl, refl)
  | inr q ↦ rw q (refl, refl, refl)
]

pub send_keyed-Keeps :
    (cfg : MediaConfig) (kind : ℕ) (key packet : Bytes) (is_rtp : Bool) (c : MediaConn)
    → Keeps c (send_keyed cfg kind key packet is_rtp c).0
unfolding send_keyed
send_keyed-Keeps cfg kind key packet is_rtp c =
    ground (arith, enqueue-Keeps cfg (encode_frame kind c.session_id (encode_keyed key packet)) c)

pub send_frames-Keeps : (c : MediaConn) (l : List Bytes) → Keeps c (send_frames c l).0
unfolding send_frames
send_frames-Keeps c [] = (refl, refl, refl)
send_frames-Keeps c (frame ∷ frames) = (refl, refl, refl)

module _ (hmac : Bytes → Bytes → Bytes) (P : Bytes → Addr → Type 0) where
  pub Backed-Keeps : (s : Bytes) (c d : MediaConn) → Backed P s c → Keeps c d → Backed P s d
  Backed-Keeps s c d b k = (k.0 ∙ b.0, λ h. let r = b.1 (sym k.1 ∙ h) in (r.0, k.2 ∙ r.1, r.2))

  pub put_conn-Keeps :
      (s : Bytes) (c d : MediaConn) (t : MediaTransport)
      → Backed P s c
      → Keeps c d
      → Trusted P t
      → Trusted P (put_conn d t)
  put_conn-Keeps s c d t b k ht =
      let e : d.session_id ≡ s = k.0 ∙ b.0 in
      put_conn-Trusted P d t (subst (λ x. Backed P x d) (sym e) (Backed-Keeps s c d b k)) ht

  pub put_conn-fresh :
      (c : MediaConn) (t : MediaTransport)
      → c.auth_ok ≡ false
      → Trusted P t
      → Trusted P (put_conn c t)
  put_conn-fresh c t h ht =
      put_conn-Trusted P c t (refl, λ e. absurd (let no : ⊥ = ground arith in no)) ht

  pub over-Trusted :
      (f : MediaConn → MediaConn) (s : Bytes) (t : MediaTransport) (o : Option MediaConn)
      → ((c : MediaConn) → Keeps c (f c))
      → lookup s t.conns ≡ o
      → Trusted P t
      → Trusted P (over f t o)
  over-Trusted f s t none k e ht = ht
  over-Trusted f s t (some c) k e ht = put_conn-Keeps s c (f c) t (ht s c e) (k c) ht

  pub send_hello-Keeps : (cfg : MediaConfig) (c : MediaConn) → Keeps c (send_hello hmac cfg c)
  unfolding send_hello
  send_hello-Keeps cfg c = enqueue-Keeps cfg (hello_frame hmac cfg c) c

  pub dial_conn-Trusted :
      (cfg : MediaConfig) (s n : Bytes) (a : Addr) (now : ℕ) (t : MediaTransport)
      (o : Option MediaConn)
      → Trusted P t
      → Trusted P (dial_conn hmac cfg s n a now t o)
  unfolding dial_conn new_conn
  dial_conn-Trusted cfg s n a now t none ht =
      let c = new_conn s n (some a) now in
      put_conn-fresh (send_hello hmac cfg c) t (send_hello-Keeps cfg c).1 ht
  dial_conn-Trusted cfg s n a now t (some c) ht = ht

  pub dial-Trusted :
      (cfg : MediaConfig) (s n : Bytes) (a : Option Addr) (now : ℕ) (t : MediaTransport)
      → Trusted P t
      → Trusted P (dial hmac cfg s n a now t).0
  unfolding dial
  dial-Trusted cfg s n none now t ht = ht
  dial-Trusted cfg s n (some a) now t ht =
      if-Trusted P t.closed _ _ (λ e. ht)
        λ e. dial_conn-Trusted cfg s n a now t (lookup s t.conns) ht

  pub accept_conn-Trusted :
      (s n : Bytes) (a : Option Addr) (now : ℕ) (t : MediaTransport) (o : Option MediaConn)
      → Trusted P t
      → Trusted P (accept_conn s n a now t o)
  unfolding accept_conn new_conn
  accept_conn-Trusted s n a now t none ht = put_conn-fresh (new_conn s n a now) t refl ht
  accept_conn-Trusted s n a now t (some c) ht = ht

  pub accept_session-Trusted :
      (s n : Bytes) (a : Option Addr) (now : ℕ) (t : MediaTransport)
      → Trusted P t
      → Trusted P (accept_session s n a now t).0
  unfolding accept_session
  accept_session-Trusted s n a now t ht =
      if-Trusted P t.closed _ _ (λ e. ht) λ e. accept_conn-Trusted s n a now t (lookup s t.conns) ht

  pub heartbeat_conn-Trusted :
      (cfg : MediaConfig) (now : ℕ) (s : Bytes) (t : MediaTransport) (o : Option MediaConn)
      → lookup s t.conns ≡ o
      → Trusted P t
      → Trusted P (heartbeat_conn hmac cfg now t o).0
  unfolding heartbeat_conn peer_closed
  heartbeat_conn-Trusted cfg now s t none e ht = ht
  heartbeat_conn-Trusted cfg now s t (some c) e ht =
      if-Trusted P (ltb (timeout_of cfg) (now - c.last_rx)) _ _ (λ h. close_conn-Trusted P c t ht)
        λ h.
          if-Trusted P c.auth_ok _ _
            (λ h.
              put_conn-Keeps s c (enqueue cfg (encode_frame frame_heartbeat c.session_id []) c).0 t
                (ht s c e) (enqueue-Keeps cfg (encode_frame frame_heartbeat c.session_id []) c) ht)
            λ h. put_conn-Keeps s c (send_hello hmac cfg c) t (ht s c e) (send_hello-Keeps cfg c) ht

  pub close_all-Trusted :
      (l : List (Bytes × MediaConn)) (t : MediaTransport)
      → Trusted P t
      → Trusted P (close_all l t).0
  unfolding close_all
  close_all-Trusted [] t ht = ht
  close_all-Trusted ((k, c) ∷ l) t ht =
      close_all-Trusted l (close_conn c t).0 (close_conn-Trusted P c t ht)

  pub close-Trusted : (t : MediaTransport) → Trusted P t → Trusted P (close t).0
  unfolding close
  close-Trusted t ht =
      if-Trusted P t.closed (t, []) (close_all t.conns (record t { closed = true })) (λ e. ht)
        λ e. close_all-Trusted t.conns (record t { closed = true }) ht

  pub handle_frame-Trusted :
      (f : ParsedFrame) (c : MediaConn) (t : MediaTransport)
      → Trusted P t
      → Trusted P (handle_frame f c t).0
  unfolding handle_frame peer_closed
  handle_frame-Trusted f c t ht =
      if-Trusted P (f.kind == frame_bye) _ _ (λ e. close_conn-Trusted P c t ht)
        λ e.
          if-Trusted P (f.kind == frame_rtp) _ _ (λ e. ht)
            λ e. if-Trusted P (f.kind == frame_rtcp) _ _ (λ e. ht) λ e. ht

  pub handle_session-Trusted :
      (now : ℕ) (src : Addr) (f : ParsedFrame) (t : MediaTransport) (o : Option MediaConn)
      → lookup f.session_id t.conns ≡ o
      → Trusted P t
      → Trusted P (handle_session now src f t o).0
  unfolding handle_session
  handle_session-Trusted now src f t none e ht = ht
  handle_session-Trusted now src f t (some c) e ht =
      if-Trusted P (not (c.auth_ok && matches_source c src)) _ _ (λ h. ht)
        λ h. handle_frame-Trusted f (mark_rx now c) (put_conn (mark_rx now c) t) (
          put_conn-Keeps f.session_id c (mark_rx now c) t (ht f.session_id c e) (refl, refl, refl)
            ht)

  pub handle_known-Trusted :
      (cfg : MediaConfig) (now : ℕ) (src : Addr) (s : Bytes) (h : Hello) (t : MediaTransport)
      (o : Option MediaConn)
      → lookup s t.conns ≡ o
      → P s src
      → Trusted P t
      → Trusted P (handle_known hmac cfg now src h t o).0
  unfolding handle_known
  handle_known-Trusted cfg now src s h t none e p ht = ht
  handle_known-Trusted cfg now src s h t (some c) e p ht =
      let d : MediaConn = mark_rx now (mark_authenticated (confirm_source src c)) in
      if-Trusted P (c.remote_node_id =? h.src) _ _
        (λ q.
          put_conn-Keeps s d (send_hello hmac cfg d) t ((ht s c e).0, λ q. (src, refl, p))
            (send_hello-Keeps cfg d) ht)
        λ q. ht
