-- ===== src/Sfu/Negotiation/Deferred.antt =====
-- internal/sfu/core_participant.go: what becomes of a negotiation that is put off.
use pulse_rtc.Prelude.{
  ℕ, suc, ◌≡◌, refl, sym, ap, ◌∙◌, Bool, true, false, ◌||◌, not, List, [], ◌∷◌, arith,
  if◌then◌else◌, string_eq, All,
}
use mathlib.Core.Path.{subst}
use pulse_rtc.Sfu.Negotiation.{
  stable, have_local_offer, have_remote_offer, is_stable, is_local, Answering, no_answer, accepted,
  remote_set, answer_made, answer_set, Negotiation, negotiate, negotiate_from, timer_fires,
  create_from, create_offer, set_from, set_offer, offer_arrives, handle_offer, answer_from,
  answer_step, answer_arrives, handle_answer, reset_from, reset_offer, close, close_connection, Op,
  schedule_op, timer_op, negotiate_op, offer_op, reset_op, close_op, close_connection_op, create_op,
  set_op, answering_op, answer_op, step, run,
}
use pulse_rtc.Sfu.Negotiation.OneOffer.{is_answer_set}

abbrev put_off : Negotiation → Negotiation
put_off p = record p { negotiate_timer = false; calls = 0; need_negotiate = true }

-- The timer fires and its call of `negotiate` finds the connection busy.
negotiate-timer_fires :
    (p : Negotiation)
    → p.closed ≡ false
    → (p.making_offer || not (is_stable p.signaling)) ≡ true
    → p.negotiate_timer ≡ true
    → p.calls ≡ 0
    → negotiate (timer_fires p) ≡ put_off p
unfolding timer_fires negotiate
negotiate-timer_fires p hc hm ht hn =
    let q : Negotiation = record p { negotiate_timer = false; calls = suc p.calls } in
    let late : Negotiation = record p {
      negotiate_timer = false;
      calls = p.calls;
      need_negotiate = true;
    } in
    let r : Negotiation = record q { calls = p.calls } in
    let start : Negotiation = record r { making_offer = true; creating = suc r.creating } in
    let open_ : Negotiation =
      if r.making_offer || not (is_stable r.signaling) then late else start in
    ap (λ (b : Bool). negotiate (if b then q else p)) ht
    ∙ ap (λ (b : Bool). if b then r else open_) hc
    ∙ ap (λ (b : Bool). if b then late else start) hm
    ∙ ap (λ (n : ℕ). record late { calls = n }) hn

-- A negotiation that is asked for while an offer is with the browser is made up for: once the
-- answer is applied a new offer goes out, where the Pion library does not fail, the participant
-- stays and no other call of `negotiate` or `HandleOffer` is under way.
pub run-deferred :
    (p : Negotiation)
    → p.closed ≡ false
    → p.signaling ≡ have_local_offer
    → p.answering ≡ no_answer
    → p.calls ≡ 0
    → p.creating ≡ 0
    → p.setting ≡ 0
    → p.negotiate_timer ≡ true
    → let q =
        run
          (timer_op
            ∷ (negotiate_op
                ∷ (answer_op true
                    ∷ (reset_op ∷ (negotiate_op ∷ (create_op true ∷ (set_op true ∷ [])))))))
          p in
      (q.offers ≡ suc p.offers) × (q.signaling ≡ have_local_offer) × (q.need_negotiate ≡ false)
unfolding run step handle_answer reset_offer negotiate create_offer set_offer
run-deferred p hc hs ha hn hm ho ht =
    let busy : (p.making_offer || not (is_stable p.signaling)) ≡ true = ground (arith, hs) in
    let late : Negotiation = put_off p in
    let rest : Negotiation → Negotiation =
      λ x. set_offer true (create_offer true (negotiate (reset_offer x))) in
    let answered : Negotiation = record late {
      signaling = stable;
      answering = answer_set;
      answers = suc late.answers;
    } in
    let free : Negotiation = record answered {
      making_offer = false;
      need_negotiate = false;
      answering = no_answer;
      calls = 0;
    } in
    let again : Negotiation = record free { making_offer = true; creating = suc free.creating } in
    let start : Negotiation = record free { making_offer = true; creating = 1; setting = 0 } in
    let e =
      ap (λ x. rest (handle_answer true x)) (negotiate-timer_fires p hc busy ht hn)
      ∙ ap (λ a. rest (answer_arrives a true late)) ha
      ∙ ap (λ s. rest (if is_local s then answered else late)) hs
      ∙ ap (λ (b : Bool). set_offer true (create_offer true (if b then free else again))) hc
      ∙ ap (λ (n : ℕ). set_offer true (create_offer true (record again { creating = suc n }))) hm
      ∙ ap
          (λ (n : ℕ).
            set_offer true (create_offer true (record again { creating = 1; setting = n })))
          ho in
    (
      ap (λ (x : Negotiation). x.offers) e,
      ap (λ (x : Negotiation). x.signaling) e,
      ap (λ (x : Negotiation). x.need_negotiate) e,
    )

-- Nothing but a new request can start an offer.
abbrev Idle : Negotiation → Type 0
Idle p =
    (p.creating ≡ 0)
    × (p.setting ≡ 0)
    × (p.calls ≡ 0)
    × (p.negotiate_timer ≡ false)
    × (is_local p.signaling ≡ false)
    × (is_answer_set p.answering ≡ false)

abbrev pub Unasked : Op → Type 0
Unasked schedule_op = ⊥
Unasked timer_op = Unit
Unasked negotiate_op = Unit
Unasked offer_op = Unit
Unasked reset_op = Unit
Unasked close_op = Unit
Unasked close_connection_op = Unit
Unasked (create_op _) = Unit
Unasked (set_op _) = Unit
Unasked (answering_op _) = Unit
Unasked (answer_op _) = Unit

-- Still idle, and no further offer sent.
abbrev Rests : Negotiation → Negotiation → Type 0
Rests p q = Idle q × (q.offers ≡ p.offers)

offer_arrives-Idle : (a : Answering) (p : Negotiation) → Idle p → Rests p (offer_arrives a p)
offer_arrives-Idle no_answer p h = ground (arith, h)
offer_arrives-Idle accepted p h = (h, refl)
offer_arrives-Idle remote_set p h = (h, refl)
offer_arrives-Idle answer_made p h = (h, refl)
offer_arrives-Idle answer_set p h = (h, refl)

answer_from-Idle :
    (a : Answering) (ok : Bool) (p : Negotiation) → Idle p → Rests p (answer_from a ok p)
answer_from-Idle no_answer ok p h = (h, refl)
answer_from-Idle accepted ok p h = ground (arith, h)
answer_from-Idle remote_set ok p h = ground (arith, h)
answer_from-Idle answer_made ok p h = ground (arith, h)
answer_from-Idle answer_set ok p h = (h, refl)

answer_arrives-Idle :
    (a : Answering) (ok : Bool) (p : Negotiation) → Idle p → Rests p (answer_arrives a ok p)
answer_arrives-Idle no_answer ok p h = ground (arith, h)
answer_arrives-Idle accepted ok p h = (h, refl)
answer_arrives-Idle remote_set ok p h = (h, refl)
answer_arrives-Idle answer_made ok p h = (h, refl)
answer_arrives-Idle answer_set ok p h = (h, refl)

reset_from-Idle :
    (a : Answering) (p : Negotiation) → is_answer_set a ≡ false → Idle p → Rests p (reset_from a p)
reset_from-Idle no_answer p n h = (h, refl)
reset_from-Idle accepted p n h = (h, refl)
reset_from-Idle remote_set p n h = (h, refl)
reset_from-Idle answer_made p n h = (h, refl)
reset_from-Idle answer_set p n h = cc

step-Idle : (o : Op) (p : Negotiation) → Unasked o → Idle p → Rests p (step o p)
unfolding step timer_fires negotiate create_offer set_offer handle_offer answer_step handle_answer
    reset_offer close close_connection
step-Idle schedule_op p u h = elim u [ ]
step-Idle timer_op p u h = ground (arith, h)
step-Idle negotiate_op p u h = subst (λ n. Rests p (negotiate_from n p)) (sym h.2) (h, refl)
step-Idle offer_op p u h = offer_arrives-Idle p.answering p h
step-Idle reset_op p u h = reset_from-Idle p.answering p h.5 h
step-Idle close_op p u h = ground (arith, h)
step-Idle close_connection_op p u h = ground (arith, h)
step-Idle (create_op ok) p u h = subst (λ n. Rests p (create_from n ok p)) (sym h.0) (h, refl)
step-Idle (set_op ok) p u h = subst (λ n. Rests p (set_from n ok p)) (sym h.1) (h, refl)
step-Idle (answering_op ok) p u h = answer_from-Idle p.answering ok p h
step-Idle (answer_op ok) p u h = answer_arrives-Idle p.answering ok p h

run-Idle : (os : List Op) (p : Negotiation) → All Unasked os → Idle p → (run os p).offers ≡ p.offers
unfolding run
run-Idle [] p u h = refl
run-Idle (o ∷ os) p u h = let s = step-Idle o p u.0 h in run-Idle os (step o p) u.1 s.0 ∙ s.1

-- A negotiation that is asked for while the SFU is answering an offer of the browser, and whose
-- timer fires before the answer is set, while no other call of `negotiate` is under way, is lost:
-- it is marked as needed, but however the answering and all that follows go, no offer is sent until
-- somebody asks again.
pub run-lost :
    (p : Negotiation) (os : List Op)
    → p.closed ≡ false
    → p.signaling ≡ have_remote_offer
    → is_answer_set p.answering ≡ false
    → p.calls ≡ 0
    → p.creating ≡ 0
    → p.setting ≡ 0
    → p.negotiate_timer ≡ true
    → All Unasked os
    → let q = run (timer_op ∷ (negotiate_op ∷ [])) p in
      (q.need_negotiate ≡ true) × ((run os q).offers ≡ p.offers)
unfolding run step
run-lost p os hc hs ha hn hm ho ht u =
    let busy : (p.making_offer || not (is_stable p.signaling)) ≡ true = ground (arith, hs) in
    let e = negotiate-timer_fires p hc busy ht hn in
    let idle : Idle (put_off p) = (hm, ho, refl, refl, ground (arith, hs), ha) in
    (
      ap (λ (x : Negotiation). x.need_negotiate) e,
      ap (λ x. (run os x).offers) e ∙ run-Idle os (put_off p) u idle,
    )
