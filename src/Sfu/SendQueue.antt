-- ===== src/Sfu/SendQueue.antt =====
-- internal/sfu/sendqueue.go: the bounded packet queue between the ingest loop of a publication and
-- the writer of one subscription.
pub mod History
pub mod Invariant
pub mod Ring
mod Tests
use pulse_rtc.Prelude.{
  ℕ, zero, suc, ◌+◌, ◌-◌, Bool, true, false, ◌&&◌, not, List, [], ◌∷◌, ◌++◌, length, take, leb, ltb,
  if◌then◌else◌, arith, ◌<◌, ◌≡◌,
}

pub data QueueKind : Type 0 where
  audio video : QueueKind

-- The bytes of a packet.
abbrev pub Packet : Type 0
Packet = List ℕ

abbrev pub max_rtp_packet_size : ℕ
max_rtp_packet_size = 1500

-- The buffers of `rtpBufPool`: how often one was taken from it, and how often one was put back.
pub record BufPool : Type 0 where
  pub gets : ℕ
  pub puts : ℕ

-- `calls` are the arguments with which `onDrop` was called; it is never called if it is not set.
pub record OnDrop : Type 0 where
  pub is_set : Bool
  pub calls : List ℕ

pub record SendQueue : Type 0 where
  pub kind : QueueKind
  pub cap : ℕ
  pub ring : List Packet
  pub closed : Bool
  pub resync : Bool
  pub drop_cnt : ℕ
  pub on_drop : OnDrop
  pub pool : BufPool

-- `copy` into a buffer of 1500 bytes keeps what fits.
abbrev pub buf_of : Packet → Packet
buf_of pkt = take max_rtp_packet_size pkt

abbrev pub get_buf : BufPool → BufPool
get_buf p = record p { gets = p.gets + 1 }

-- `releaseBuf`, for `n` buffers.
abbrev pub release_bufs : ℕ → BufPool → BufPool
release_bufs n p = record p { puts = p.puts + n }

pub new_send_queue : QueueKind → ℕ → Bool → BufPool → SendQueue
new_send_queue kind capacity hooked pool = record {
  kind = kind;
  cap = if ltb capacity 1 then 1 else capacity;
  ring = [];
  closed = false;
  resync = false;
  drop_cnt = 0;
  on_drop = record { is_set = hooked; calls = [] };
  pool = pool;
}

pub report_drop : OnDrop → ℕ → OnDrop
report_drop h n = if h.is_set then record h { calls = h.calls ++ n ∷ [] } else h

-- The counters that an overflow moves, in the order of the code.
pub count_drop : ℕ → SendQueue → SendQueue
unfolding report_drop
count_drop n q = record q { drop_cnt = q.drop_cnt + n; on_drop = report_drop q.on_drop n }

-- The oldest packet, where the ring is full and so not empty.
abbrev pub tail : List Packet → List Packet
tail [] = []
tail (p ∷ ps) = ps

-- The drop policy.
pub overflow : QueueKind → SendQueue → SendQueue
unfolding count_drop
overflow video q =
    count_drop (length q.ring)
      (record q { pool = release_bufs (length q.ring) q.pool; ring = []; resync = true })
overflow audio q = count_drop 1 (record q { pool = release_bufs 1 q.pool; ring = tail q.ring })

pub make_room : SendQueue → SendQueue
unfolding overflow
make_room q = if leb q.cap (length q.ring) then overflow q.kind q else q

pub push : Packet → SendQueue → SendQueue
unfolding make_room
push pkt q =
    if q.closed
    then record q { pool = release_bufs 1 (get_buf q.pool) }
    else (let room = make_room (record q { pool = get_buf q.pool }) in
        record room { ring = room.ring ++ buf_of pkt ∷ [] })

-- What a call of `pop` finds: it waits, it ends, or it has a packet.
pub data Popped : Type 0 where
  waits : Popped
  drained : Popped
  packet : Packet → Bool → Popped

pub pop_ring : List Packet → SendQueue → Popped × SendQueue
pop_ring [] q = (if q.closed then drained else waits, q)
pop_ring (p ∷ ps) q = (packet p q.resync, record q { ring = ps; resync = false })

pub pop : SendQueue → Popped × SendQueue
unfolding pop_ring
pop q = pop_ring q.ring q

-- The consumer hands a popped buffer back.
pub release_buf : SendQueue → SendQueue
release_buf q = record q { pool = release_bufs 1 q.pool }

pub close : SendQueue → SendQueue
close q =
    if q.closed
    then q
    else record q { closed = true; pool = release_bufs (length q.ring) q.pool; ring = [] }

pub dropped : SendQueue → ℕ
dropped q = q.drop_cnt

pub length-tail : (r : List Packet) → 0 < length r → length (tail r) + 1 ≡ length r
length-tail [] h = omega arith
length-tail (p ∷ r) h = omega arith
