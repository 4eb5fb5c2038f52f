-- ===== src/Sfu/SendQueue/History.antt =====
-- The order of the packets of a send queue, over every sequence of calls.
use mathlib.Core.List.{Sublist, append_assoc, map-append, sublist-append_left}
use mathlib.Core.List.Sublist
use pulse_rtc.Prelude.{
  ℕ, ◌≡◌, refl, Bool, true, false, List, [], ◌∷◌, ◌++◌, arith, if◌then◌else◌, map, leb, length,
  Bool-cases, inl, inr,
}
use pulse_rtc.Sfu.SendQueue.{
  QueueKind, audio, video, Packet, BufPool, SendQueue, buf_of, new_send_queue, push, tail, overflow,
  make_room, get_buf, Popped, waits, drained, packet, pop_ring, pop, close,
}

-- The calls that move packets.
pub data Call : Type 0 where
  pushes : Packet → Call
  pops closes : Call

-- The queue beside the packets that it was given while it was open, and those that it handed out.
pub record Log : Type 0 where
  pub queue : SendQueue
  pub given : List Packet
  pub handed : List Packet

unfoldable pub popped : Log → Popped × SendQueue → Log
popped l (waits, q) = record l { queue = q }
popped l (drained, q) = record l { queue = q }
popped l (packet p r, q) = record l { queue = q; handed = l.handed ++ p ∷ [] }

unfoldable pub step : Log → Call → Log
step l (pushes p) = record l {
  queue = push p l.queue;
  given = if l.queue.closed then l.given else l.given ++ p ∷ [];
}
step l pops = popped l (pop l.queue)
step l closes = record l { queue = close l.queue }

unfoldable pub run : Log → List Call → Log
run l [] = l
run l (c ∷ cs) = run (step l c) cs

abbrev pub IsInOrder : Log → Type 0
IsInOrder l = Sublist (l.handed ++ l.queue.ring) (map buf_of l.given)

sublist_tail : (r : List Packet) → Sublist (tail r) r
sublist_tail [] = Sublist.refl []
sublist_tail (p ∷ r) = Sublist.cons p (Sublist.refl r)

nil_sublist : (r : List Packet) → Sublist [] r
nil_sublist r = sublist-append_left [] r

ring-overflow : (k : QueueKind) (q : SendQueue) → Sublist (overflow k q).ring q.ring
unfolding overflow
ring-overflow audio q = sublist_tail q.ring
ring-overflow video q = nil_sublist q.ring

ring-make_room : (q : SendQueue) → Sublist (make_room q).ring q.ring
unfolding make_room
ring-make_room q = elim (Bool-cases (leb q.cap (length q.ring))) [
  | inl full ↦ rw full (ring-overflow q.kind q)
  | inr free ↦ rw free (Sublist.refl q.ring)
]

-- One packet more at the end of both lists.
sublist_snoc :
    (hs : List Packet) {r r' : List Packet} (gs : List Packet) (b : Packet)
    → Sublist r' r
    → Sublist (hs ++ r) gs
    → Sublist (hs ++ r' ++ b ∷ []) (gs ++ b ∷ [])
sublist_snoc hs gs b s h =
    Sublist.append (Sublist.trans (Sublist.append (Sublist.refl hs) s) h) (Sublist.refl (b ∷ []))

push_open :
    (q : SendQueue) (p : Packet)
    → q.closed ≡ false
    → (push p q).ring ≡ (make_room (record q { pool = get_buf q.pool })).ring ++ buf_of p ∷ []
unfolding push make_room
push_open q p e = ground arith

push_closed : (q : SendQueue) (p : Packet) → q.closed ≡ true → (push p q).ring ≡ q.ring
unfolding push
push_closed q p e = ground arith

push-IsInOrder :
    (l : Log) (p : Packet) (b : Bool)
    → l.queue.closed ≡ b
    → IsInOrder l
    → Sublist
        (l.handed ++ (push p l.queue).ring)
        (map buf_of (if b then l.given else l.given ++ p ∷ []))
push-IsInOrder l p true e h = rw (push_closed l.queue p e) h
push-IsInOrder l p false e h =
    let q : SendQueue = record l.queue { pool = get_buf l.queue.pool } in
    rw (push_open l.queue p e, map-append, ← append_assoc)
      (sublist_snoc l.handed (map buf_of l.given) (buf_of p) (ring-make_room q) h)

popped-IsInOrder :
    (l : Log) (r : List Packet)
    → l.queue.ring ≡ r
    → IsInOrder l
    → IsInOrder (popped l (pop_ring r l.queue))
unfolding popped pop_ring
popped-IsInOrder l [] e h = elim (Bool-cases l.queue.closed) [
  | inl shut ↦ rw shut h
  | inr free ↦ rw free h
]
popped-IsInOrder l (p ∷ r) e h = rw append_assoc (rw e at h)

ring-close : (q : SendQueue) → Sublist (close q).ring q.ring
unfolding close
ring-close q = elim (Bool-cases q.closed) [
  | inl shut ↦ rw shut (Sublist.refl q.ring)
  | inr free ↦ rw free (nil_sublist q.ring)
]

step-IsInOrder : (l : Log) (c : Call) → IsInOrder l → IsInOrder (step l c)
unfolding step pop
step-IsInOrder l (pushes p) h = push-IsInOrder l p l.queue.closed refl h
step-IsInOrder l pops h = popped-IsInOrder l l.queue.ring refl h
step-IsInOrder l closes h =
    Sublist.trans (Sublist.append (Sublist.refl l.handed) (ring-close l.queue)) h

run-IsInOrder : (l : Log) (cs : List Call) → IsInOrder l → IsInOrder (run l cs)
unfolding run
run-IsInOrder l [] h = h
run-IsInOrder l (c ∷ cs) h = run-IsInOrder (step l c) cs (step-IsInOrder l c h)

-- After every sequence of calls of a new queue, of either kind: the packets handed to the consumer,
-- followed by those in the ring, are a subsequence of the packets that were pushed while the queue
-- was open, each cut to the size of a buffer. So no packet is reordered, repeated or made up.
pub run-new-IsInOrder :
    (k : QueueKind) (capacity : ℕ) (hooked : Bool) (pool : BufPool) (cs : List Call)
    → let l =
        run
          (record { queue = new_send_queue k capacity hooked pool; given = []; handed = [] })
          cs in
      Sublist (l.handed ++ l.queue.ring) (map buf_of l.given)
unfolding new_send_queue
run-new-IsInOrder k capacity hooked pool cs = run-IsInOrder _ cs (Sublist.refl [])
