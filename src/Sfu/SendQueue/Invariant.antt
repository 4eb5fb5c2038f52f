-- ===== src/Sfu/SendQueue/Invariant.antt =====
-- What holds of a send queue after every sequence of calls: its bound, and the account of its
-- buffers and packets.
use pulse_rtc.Prelude.{
  ℕ, ◌+◌, ◌-◌, ◌≤◌, ◌<◌, ◌≡◌, refl, Bool, true, ap, List, [], ◌∷◌, length, length-append, arith,
  leb, if◌then◌else◌,
}
use pulse_rtc.Sfu.SendQueue.{
  QueueKind, audio, video, Packet, BufPool, SendQueue, new_send_queue, buf_of, get_buf, overflow,
  make_room, push, Popped, waits, drained, packet, pop_ring, pop, release_buf, close, length-tail,
}

-- A call of the queue's owner, its producer or its consumer.
pub data Call : Type 0 where
  pushes : Packet → Call
  pops releases closes : Call

-- The queue beside what its calls did so far: the number of packets that an open queue took, that
-- were handed to the consumer, that `close` threw away, and the buffers that the consumer holds.
pub record Session : Type 0 where
  pub queue : SendQueue
  pub open queue use *
  pub taken : ℕ
  pub delivered : ℕ
  pub thrown : ℕ
  pub held : ℕ

unfoldable pub start : SendQueue → Session
start q = record { queue = q; taken = 0; delivered = 0; thrown = 0; held = 0 }

unfoldable pub popped : Session → Popped × SendQueue → Session
popped s (waits, q) = record s { queue = q }
popped s (drained, q) = record s { queue = q }
popped s (packet p r, q) = record s { queue = q; delivered = s.delivered + 1; held = s.held + 1 }

-- A consumer releases only a buffer that it holds.
unfoldable pub step : Session → Call → Session
unfolding push pop popped release_buf close
step s (pushes pkt) = record s {
  queue = push pkt s.queue;
  taken = if s.closed then s.taken else s.taken + 1;
}
step s pops = popped s (pop s.queue)
step s releases =
    if leb s.held 0 then s else record s { queue = release_buf s.queue; held = s.held - 1 }
step s closes = record s { queue = close s.queue; thrown = s.thrown + length s.ring }

unfoldable pub run : Session → List Call → Session
run s [] = s
run s (c ∷ cs) = run (step s c) cs

-- `gets₀` and `puts₀` are the counts of the buffer pool when the queue was made.
pub record IsValid (gets₀ puts₀ : ℕ) (s : Session) : Type 0 where
  pub room : 0 < s.cap
  pub bounded : length s.ring ≤ s.cap
  pub emptied : s.closed ≡ true → s.ring ≡ []
  pub buffers : s.pool.gets + puts₀ ≡ gets₀ + s.pool.puts + length s.ring + s.held
  pub packets : s.taken ≡ s.delivered + s.drop_cnt + s.thrown + length s.ring

-- What making room does to the parts that the accounts read.
record Roomier (q r : SendQueue) : Type 0 where
  room : length r.ring < r.cap
  gets : r.pool.gets ≡ q.pool.gets
  puts : r.pool.puts + length r.ring ≡ q.pool.puts + length q.ring
  drops : r.drop_cnt + length r.ring ≡ q.drop_cnt + length q.ring
  cap : r.cap ≡ q.cap
  closed : r.closed ≡ q.closed

overflow-Roomier :
    (k : QueueKind) (q : SendQueue)
    → 0 < q.cap
    → q.cap ≤ length q.ring
    → length q.ring ≤ q.cap
    → Roomier q (overflow k q)
unfolding overflow
overflow-Roomier audio q a b c = ground (arith, length-tail q.ring)
overflow-Roomier video q a b c = ground arith

make_room-Roomier : (q : SendQueue) → 0 < q.cap → length q.ring ≤ q.cap → Roomier q (make_room q)
unfolding make_room
make_room-Roomier q a b = ground (arith, overflow-Roomier q.kind q)

push-IsValid :
    (gets₀ puts₀ : ℕ) (s : Session) (pkt : Packet)
    → IsValid gets₀ puts₀ s
    → IsValid gets₀ puts₀ (step s (pushes pkt))
unfolding step
push-IsValid gets₀ puts₀ s pkt v =
    let q : SendQueue = record s.queue { pool = get_buf s.pool } in
    ground (arith, make_room-Roomier q, length-append (make_room q).ring (buf_of pkt ∷ []))

popped-IsValid :
    (gets₀ puts₀ : ℕ) (s : Session) (r : List Packet)
    → s.ring ≡ r
    → IsValid gets₀ puts₀ s
    → IsValid gets₀ puts₀ (popped s (pop_ring r s.queue))
unfolding popped pop_ring
popped-IsValid gets₀ puts₀ s [] e v = ground arith
popped-IsValid gets₀ puts₀ s (p ∷ ps) e v = ground (arith, ap length e)

-- Every call keeps the ring within its capacity, a closed queue empty, and both accounts.
pub step-IsValid :
    (gets₀ puts₀ : ℕ) (s : Session) (c : Call)
    → IsValid gets₀ puts₀ s
    → IsValid gets₀ puts₀ (step s c)
unfolding step
step-IsValid gets₀ puts₀ s (pushes pkt) v = push-IsValid gets₀ puts₀ s pkt v
step-IsValid gets₀ puts₀ s pops v = popped-IsValid gets₀ puts₀ s s.ring refl v
step-IsValid gets₀ puts₀ s releases v = ground arith
step-IsValid gets₀ puts₀ s closes v = ground arith

run-IsValid :
    (gets₀ puts₀ : ℕ) (s : Session) (cs : List Call)
    → IsValid gets₀ puts₀ s
    → IsValid gets₀ puts₀ (run s cs)
unfolding run
run-IsValid gets₀ puts₀ s [] v = v
run-IsValid gets₀ puts₀ s (c ∷ cs) v =
    run-IsValid gets₀ puts₀ (step s c) cs (step-IsValid gets₀ puts₀ s c v)

-- For every kind, capacity and sequence of calls of a new queue: the ring never holds more than the
-- capacity, which is at least 1; a closed queue is empty; every buffer taken from the pool was put
-- back, or stands in the ring, or is held by the consumer; and every packet that the open queue
-- took was delivered, counted as dropped, thrown away by `close`, or stands in the ring.
pub run-new-IsValid :
    (k : QueueKind) (capacity : ℕ) (hooked : Bool) (p : BufPool) (cs : List Call)
    → IsValid p.gets p.puts (run (start (new_send_queue k capacity hooked p)) cs)
unfolding start new_send_queue
run-new-IsValid k capacity hooked p cs = run-IsValid p.gets p.puts _ cs (ground arith)
