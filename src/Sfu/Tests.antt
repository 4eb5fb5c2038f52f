-- ===== src/Sfu/Tests.antt =====
-- internal/sfu: runs of the write loop and of a publication on concrete packets.
use pulse_rtc.Prelude.{
  ℕ, ◌+◌, ◌-◌, ◌*◌, ◌≤◌, ◌≡◌, refl, Bool, true, false, List, [], ◌∷◌, ◌++◌, arith, leb, length,
  string_eq,
}
use pulse_rtc.Prelude.{replicate}
use pulse_rtc.Sfu.SendQueue.{SendQueue, video, new_send_queue}
use pulse_rtc.Sfu.WriteLoop.{written, failed, Round, popped, run_sub_write_loop, write_loop}
use pulse_rtc.Sfu.WriteLoop.Budget.{longest_streak, is_fatal, run_sub_write_loop-is_fatal}
use pulse_rtc.Sfu.Publication.{Publication, request_keyframe}
use pulse_rtc.Sfu.Publication.Fanout.{Op, attach_op, detach_op, packet_op, take_op, run}
use pulse_rtc.Sfu.Publication.Keyframe.{requests, requests-rate}
use pulse_rtc.Sfu.Negotiation
use pulse_rtc.Sfu.Negotiation.{
  Negotiation, new_negotiation, have_local_offer, have_remote_offer, remote_set,
}
use pulse_rtc.Sfu.Negotiation.{
  schedule_op, timer_op, negotiate_op, offer_op, reset_op, create_op, set_op, answering_op,
  answer_op,
}
use pulse_rtc.Sfu.Negotiation.OneOffer.{IsOrderly, run-new-IsOrderly}
use pulse_rtc.Sfu.Negotiation.Deferred.{run-deferred, run-lost}

abbrev failures : ℕ → List Round
failures n = replicate n (popped (1 ∷ []) false failed)

abbrev recovers : List Round
recovers = failures 49 ++ (popped (2 ∷ []) true written ∷ failures 3)

abbrev gives_up : List Round
gives_up = popped (2 ∷ []) true written ∷ failures 60

run_sub_write_loop-is_fatal_example :
    is_fatal (run_sub_write_loop true true gives_up).ending ≡ leb 50 (longest_streak 0 gives_up)
run_sub_write_loop-is_fatal_example = run_sub_write_loop-is_fatal true true gives_up

recovered : is_fatal (run_sub_write_loop true true recovers).ending ≡ false
unfolding run_sub_write_loop write_loop
recovered = refl

abbrev queue : SendQueue
queue = new_send_queue video 2 false (record { gets = 0; puts = 0 })

abbrev track : Publication
track = record {
  kind = video;
  ssrc = 77;
  source = "";
  remote = false;
  remote_rtcp_sink = false;
  publisher_here = true;
  last_keyframe = 0;
  remote_sinks = [];
  sink_seq = 0;
  sub_sinks = record { id = 1; q = queue } ∷ [];
  sub_seq = 3;
}

abbrev ops : List Op
ops =
    packet_op (5 ∷ []) ∷ (attach_op queue ∷ (packet_op (6 ∷ []) ∷ (detach_op 1 ∷ (take_op 4 ∷ []))))

abbrev asks : List (ℕ × Bool)
asks = (2000000000, true) ∷ ((2000000001, true) ∷ ((2500000000, false) ∷ ((3000000000, true) ∷ [])))

two_requests : length (requests asks track) ≡ 2
unfolding requests request_keyframe
two_requests = refl

requests-rate_example :
    length (requests asks track) * 1000000000 ≤ (3000000000 - 2000000000) + 1000000000
requests-rate_example =
    requests-rate 2000000000 3000000000 asks track (omega arith)
      (omega arith, (omega arith, (omega arith, (omega arith, omega arith))))

abbrev offering_out : Negotiation
offering_out = record new_negotiation {
  making_offer = true;
  signaling = have_local_offer;
  negotiate_timer = true;
  offers = 1;
}

abbrev being_answered : Negotiation
being_answered = record new_negotiation {
  signaling = have_remote_offer;
  answering = remote_set;
  negotiate_timer = true;
}

abbrev rest : List Negotiation.Op
rest =
    answering_op true
    ∷ (answering_op true
        ∷ (timer_op ∷ (negotiate_op ∷ (offer_op ∷ (answer_op true ∷ (reset_op ∷ []))))))

run-deferred_example :
    let q =
      Negotiation.run
        (timer_op
          ∷ (negotiate_op
              ∷ (answer_op true
                  ∷ (reset_op ∷ (negotiate_op ∷ (create_op true ∷ (set_op true ∷ [])))))))
        offering_out in
    (q.offers ≡ 2) × (q.signaling ≡ have_local_offer) × (q.need_negotiate ≡ false)
run-deferred_example = run-deferred offering_out refl refl refl refl refl refl refl

run-lost_example :
    let q = Negotiation.run (timer_op ∷ (negotiate_op ∷ [])) being_answered in
    (q.need_negotiate ≡ true) × ((Negotiation.run rest q).offers ≡ 0)
run-lost_example =
    run-lost being_answered rest refl refl refl refl refl refl refl
      (tt, (tt, (tt, (tt, (tt, (tt, (tt, tt)))))))

abbrev two_calls : List Negotiation.Op
two_calls =
    schedule_op
    ∷ (timer_op
        ∷ (schedule_op
            ∷ (timer_op ∷ (negotiate_op ∷ (negotiate_op ∷ (create_op true ∷ (set_op true ∷ [])))))))

run-new-IsOrderly_example : IsOrderly (Negotiation.run two_calls new_negotiation)
run-new-IsOrderly_example = run-new-IsOrderly two_calls
