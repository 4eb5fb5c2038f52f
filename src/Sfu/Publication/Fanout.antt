-- ===== src/Sfu/Publication/Fanout.antt =====
-- internal/sfu/publication.go: every subscriber's queue is served as if it were the only one.
use pulse_rtc.Prelude.{
  ℕ, ◌≤◌, ◌≢◌, Option, none, some, List, [], ◌∷◌, ◌==◌, if◌then◌else◌, string_eq,
}
use pulse_rtc.Sfu.SendQueue.{SendQueue, Packet, push, pop}
use pulse_rtc.Sfu.Publication.{Publication, SubSink, attach_sink, detach, write_rtp}

-- What happens to the subscribers of a publication. A subscriber's loop takes from its queue.
pub data Op : Type 0 where
  attach_op : SendQueue → Op
  detach_op : ℕ → Op
  packet_op : Packet → Op
  take_op : ℕ → Op

abbrev take_from : ℕ → List SubSink → List SubSink
take_from id [] = []
take_from id (e ∷ es) = (if e.id == id then record e { q = (pop e.q).1 } else e) ∷ take_from id es

unfoldable pub step : Op → Publication → Publication
step (attach_op q) p = (attach_sink q p).0
step (detach_op id) p = detach id p
step (packet_op pkt) p = write_rtp pkt p
step (take_op id) p = record p { sub_sinks = take_from id p.sub_sinks }

unfoldable pub run : List Op → Publication → Publication
run [] p = p
run (o ∷ os) p = run os (step o p)

abbrev pub queue_of : ℕ → List SubSink → Option SendQueue
queue_of id [] = none
queue_of id (e ∷ es) = if e.id == id then some e.q else queue_of id es

-- The same on one queue alone: the packets, and what the subscriber with that id takes.
unfoldable pub serve : ℕ → Op → SendQueue → SendQueue
serve id (attach_op _) q = q
serve id (detach_op _) q = q
serve id (packet_op pkt) q = push pkt q
serve id (take_op j) q = if j == id then (pop q).1 else q

unfoldable pub serve_all : ℕ → List Op → SendQueue → SendQueue
serve_all id [] q = q
serve_all id (o ∷ os) q = serve_all id os (serve id o q)

abbrev pub Stays : ℕ → Op → Type 0
Stays id (attach_op _) = Unit
Stays id (detach_op j) = j ≢ id
Stays id (packet_op _) = Unit
Stays id (take_op _) = Unit

-- No id has been given out that is above the counter.
abbrev pub Bounded : ℕ → List SubSink → Type 0
Bounded n [] = Unit
Bounded n (e ∷ es) = (e.id ≤ n) × Bounded n es
