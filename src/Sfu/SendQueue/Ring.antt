-- ===== src/Sfu/SendQueue/Ring.antt =====
-- What the ring of a send queue holds after a burst of packets, and when a resync is signalled.
use pulse_rtc.Prelude.{
  ℕ, suc, ◌+◌, ◌≤◌, ◌<◌, ◌≡◌, refl, ap, sym, ◌∙◌, true, false, List, [], ◌∷◌, ◌++◌, length,
  length-append, arith, leb, if◌then◌else◌, map,
}
use mathlib.Core.List.{append_assoc, append-nil}
use pulse_rtc.Sfu.SendQueue.{
  audio, video, Packet, SendQueue, buf_of, tail, push, packet, pop, length-tail,
}

-- A burst: the packets are pushed one after the other, with no call of the consumer between them.
unfoldable pub push_all : List Packet → SendQueue → SendQueue
push_all [] q = q
push_all (p ∷ ps) q = push_all ps (push p q)

-- The last `n` entries of a list.
unfoldable pub last {ℓ} : {A : Type ℓ} → ℕ → List A → List A
last n [] = []
last n (x ∷ xs) = if leb (length (x ∷ xs)) n then x ∷ xs else last n xs

module _ {ℓ} {A : Type ℓ} where
  last_all : (n : ℕ) (xs : List A) → length xs ≤ n → last n xs ≡ xs
  unfolding last
  last_all n [] h = refl
  last_all n (x ∷ xs) h = ground arith

  last-append-last : (n : ℕ) (xs ys : List A) → last n (last n xs ++ ys) ≡ last n (xs ++ ys)
  unfolding last
  last-append-last n [] ys = refl
  last-append-last n (x ∷ xs) ys = ground (arith, last-append-last n xs ys, length-append xs ys)

  last_one : (n : ℕ) (x : A) (xs : List A) → length xs ≡ n → last n (x ∷ xs) ≡ xs
  unfolding last
  last_one n x xs h = ground (arith, last_all n xs)

record IsAudio (cap : ℕ) (q : SendQueue) : Type 0 where
  kind : q.kind ≡ audio
  cap_is : q.cap ≡ cap
  room : 0 < cap
  bounded : length q.ring ≤ cap
  open_now : q.closed ≡ false

audio_ring :
    (cap : ℕ) (r : List Packet) (b : Packet)
    → 0 < cap
    → length r ≤ cap
    → (if leb cap (length r) then tail r else r) ++ b ∷ [] ≡ last cap (r ++ b ∷ [])
unfolding last
audio_ring cap [] b c h = ground arith
audio_ring cap (p ∷ r) b c h = ground (arith, length-append r (b ∷ []), last_all cap (r ++ b ∷ []))

ring-push :
    (cap : ℕ) (q : SendQueue) (p : Packet)
    → IsAudio cap q
    → (push p q).ring ≡ (if leb cap (length q.ring) then tail q.ring else q.ring) ++ buf_of p ∷ []
unfolding push
ring-push cap q p v = ground arith

push-IsAudio : (cap : ℕ) (q : SendQueue) (p : Packet) → IsAudio cap q → IsAudio cap (push p q)
unfolding push
push-IsAudio cap q p v = ground (
  arith,
  length-append q.ring (buf_of p ∷ []),
  length-append (tail q.ring) (buf_of p ∷ []),
  length-tail q.ring,
)

ring-push_all-IsAudio :
    (cap : ℕ) (ps : List Packet) (q : SendQueue)
    → IsAudio cap q
    → (push_all ps q).ring ≡ last cap (q.ring ++ map buf_of ps)
unfolding push_all
ring-push_all-IsAudio cap [] q v = rw append-nil (sym (last_all cap q.ring v.bounded))
ring-push_all-IsAudio cap (p ∷ ps) q v =
    ring-push_all-IsAudio cap ps (push p q) (push-IsAudio cap q p v)
    ∙ rw (ring-push cap q p v, audio_ring cap q.ring (buf_of p) v.room v.bounded)
        (last-append-last cap (q.ring ++ buf_of p ∷ []) (map buf_of ps)
          ∙ ap (last cap) (append_assoc q.ring (buf_of p ∷ []) (map buf_of ps)))

-- An open audio queue that holds no more than its capacity, which is not 0: after a burst of any
-- length its ring holds the newest packets, as many as the capacity allows, of those that it held
-- and those that were pushed, in their order and each cut to the size of a buffer.
pub ring-push_all :
    (q : SendQueue) (ps : List Packet)
    → q.kind ≡ audio
    → 0 < q.cap
    → length q.ring ≤ q.cap
    → q.closed ≡ false
    → (push_all ps q).ring ≡ last q.cap (q.ring ++ map buf_of ps)
ring-push_all q ps k c b o =
    ring-push_all-IsAudio q.cap ps q
      (record { kind = k; cap_is = refl; room = c; bounded = b; open_now = o })

push_quiet :
    (q : SendQueue) (p : Packet)
    → q.closed ≡ false
    → length q.ring < q.cap
    → ((push p q).ring ≡ q.ring ++ buf_of p ∷ [])
      × ((push p q).resync ≡ q.resync)
      × ((push p q).closed ≡ false)
      × ((push p q).cap ≡ q.cap)
unfolding push
push_quiet q p o b = ground arith

push_all_quiet :
    (ps : List Packet) (q : SendQueue)
    → q.closed ≡ false
    → length q.ring + length ps ≤ q.cap
    → ((push_all ps q).ring ≡ q.ring ++ map buf_of ps) × ((push_all ps q).resync ≡ q.resync)
unfolding push_all
push_all_quiet [] q o b = (sym (append-nil q.ring), refl)
push_all_quiet (p ∷ ps) q o b = ground (
  arith,
  push_quiet q p o,
  push_all_quiet ps (push p q),
  length-append q.ring (buf_of p ∷ []),
  append_assoc q.ring (buf_of p ∷ []) (map buf_of ps),
)

pop_first :
    (q : SendQueue) (r : List Packet) (p : Packet)
    → q.ring ≡ p ∷ r
    → pop q ≡ (packet p q.resync, record q { ring = r; resync = false })
unfolding pop
pop_first q r p e = rw e

push_video_full :
    (q : SendQueue) (pkt : Packet)
    → q.kind ≡ video
    → q.closed ≡ false
    → q.cap ≤ length q.ring
    → ((push pkt q).ring ≡ buf_of pkt ∷ [])
      × ((push pkt q).resync ≡ true)
      × ((push pkt q).closed ≡ false)
      × ((push pkt q).cap ≡ q.cap)
      × ((push pkt q).drop_cnt ≡ q.drop_cnt + length q.ring)
unfolding push
push_video_full q pkt k o b = ground arith

-- An open video queue that is full: a push counts the whole backlog as dropped and leaves its own
-- packet alone in the ring; the next pop returns that packet with the resync flag; and after it, if
-- any number of packets from one to the capacity is pushed, the following pop returns the first of
-- them without the flag.
pub resync_once :
    (q : SendQueue) (pkt p : Packet) (ps : List Packet)
    → q.kind ≡ video
    → q.closed ≡ false
    → q.cap ≤ length q.ring
    → suc (length ps) ≤ q.cap
    → ((push pkt q).drop_cnt ≡ q.drop_cnt + length q.ring)
      × ((pop (push pkt q)).0 ≡ packet (buf_of pkt) true)
      × ((pop (push_all (p ∷ ps) (pop (push pkt q)).1)).0 ≡ packet (buf_of p) false)
resync_once q pkt p ps k o b n =
    let f = push_video_full q pkt k o b in
    let q₁ = push pkt q in
    let q₂ : SendQueue = record q₁ { ring = []; resync = false } in
    let e : pop q₁ ≡ (packet (buf_of pkt) q₁.resync, q₂) = pop_first q₁ [] (buf_of pkt) f.0 in
    let g = push_all_quiet (p ∷ ps) q₂ f.2 (omega (arith, f.3)) in
    let h = pop_first (push_all (p ∷ ps) q₂) (map buf_of ps) (buf_of p) g.0 in
    (
      f.4,
      ap (λ x. x.0) e ∙ ap (packet (buf_of pkt)) f.1,
      rw e (ap (λ x. x.0) h ∙ ap (packet (buf_of p)) g.1),
    )
