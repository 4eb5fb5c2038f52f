-- ===== src/Sfu/SendQueue/Tests.antt =====
-- Runs of the send queue, and the theorems about it at concrete inputs.
use mathlib.Core.List.{Sublist}
use pulse_rtc.Prelude.{◌+◌, ◌≡◌, refl, true, false, List, [], ◌∷◌, ◌++◌, arith, map, length}
use pulse_rtc.Sfu.SendQueue.{
  audio, video, BufPool, SendQueue, new_send_queue, buf_of, push, packet, pop, close,
}
use pulse_rtc.Sfu.SendQueue.Invariant
use pulse_rtc.Sfu.SendQueue.Invariant.{pushes, pops, releases, closes, start, run-new-IsValid}
use pulse_rtc.Sfu.SendQueue.History
use pulse_rtc.Sfu.SendQueue.History.{run-new-IsInOrder}
use pulse_rtc.Sfu.SendQueue.Ring.{push_all, last, ring-push_all, resync_once}

abbrev idle : BufPool
idle = record { gets = 4; puts = 4 }

abbrev full : SendQueue
full = record {
  kind = video;
  cap = 2;
  ring = (1 ∷ []) ∷ (2 ∷ []) ∷ [];
  closed = false;
  resync = false;
  drop_cnt = 5;
  on_drop = record { is_set = true; calls = [] };
  pool = idle;
}

push_video : (push (3 ∷ []) full).on_drop.calls ≡ 2 ∷ []
unfolding push
push_video = refl

push_audio :
    (push_all ((1 ∷ []) ∷ (2 ∷ []) ∷ (3 ∷ []) ∷ []) (new_send_queue audio 2 true idle)).ring
    ≡ (2 ∷ []) ∷ (3 ∷ []) ∷ []
unfolding push_all push new_send_queue
push_audio = refl

close_twice : (close (close full)).pool.puts ≡ 6
unfolding close
close_twice = refl

abbrev traffic : List Invariant.Call
traffic = pushes (1 ∷ []) ∷ pushes (2 ∷ []) ∷ pushes (3 ∷ []) ∷ pops ∷ releases ∷ closes ∷ []

run-new-IsValid_example :
    Invariant.IsValid 4 4 (Invariant.run (start (new_send_queue video 2 true idle)) traffic)
run-new-IsValid_example = run-new-IsValid video 2 true idle traffic

run-new-IsInOrder_example :
    let l =
      History.run
        (record { queue = new_send_queue audio 1 false idle; given = []; handed = [] })
        (History.pushes (1 ∷ []) ∷ History.pops ∷ History.pushes (2 ∷ []) ∷ []) in
    Sublist (l.handed ++ l.queue.ring) (map buf_of l.given)
run-new-IsInOrder_example =
    run-new-IsInOrder audio 1 false idle
      (History.pushes (1 ∷ []) ∷ History.pops ∷ History.pushes (2 ∷ []) ∷ [])

abbrev talk : SendQueue
talk = record full { kind = audio }

ring-push_all_example :
    (push_all ((3 ∷ []) ∷ []) talk).ring ≡ last 2 (talk.ring ++ map buf_of ((3 ∷ []) ∷ []))
ring-push_all_example = ring-push_all talk ((3 ∷ []) ∷ []) refl (omega arith) (omega arith) refl

resync_once_example :
    ((push (3 ∷ []) full).drop_cnt ≡ full.drop_cnt + length full.ring)
    × ((pop (push (3 ∷ []) full)).0 ≡ packet (3 ∷ []) true)
    × ((pop (push_all ((4 ∷ []) ∷ []) (pop (push (3 ∷ []) full)).1)).0 ≡ packet (4 ∷ []) false)
resync_once_example = resync_once full (3 ∷ []) (4 ∷ []) [] refl refl (omega arith) (omega arith)
