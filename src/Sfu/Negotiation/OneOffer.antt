-- ===== src/Sfu/Negotiation/OneOffer.antt =====
-- internal/sfu/core_participant.go: no second offer before the first is answered.
use pulse_rtc.Prelude.{
  ℕ, zero, suc, ◌+◌, ◌≤◌, ◌≡◌, ◌⊎◌, inl, inr, refl, sym, ap, ◌∙◌, Bool, true, false, ◌&&◌, ◌||◌,
  not, List, [], ◌∷◌, arith, if◌then◌else◌, string_eq,
}
use pulse_rtc.Sfu.Negotiation.{
  SignalingState, stable, have_local_offer, have_remote_offer, pc_closed, is_stable, is_local,
  Answering, no_answer, accepted, remote_set, answer_made, answer_set, Negotiation, new_negotiation,
  schedule_negotiate, negotiate, negotiate_from, negotiate_locked, timer_fires, create_from,
  create_offer, set_from, set_offer, collision, offer_arrives, handle_offer, is_remote, answer_from,
  answer_step, answer_arrives, handle_answer, reset_from, reset_offer, close, close_connection, Op,
  schedule_op, timer_op, negotiate_op, offer_op, reset_op, close_op, close_connection_op, create_op,
  set_op, answering_op, answer_op, step, run,
}

abbrev pub is_shut : SignalingState → Bool
is_shut stable = false
is_shut have_local_offer = false
is_shut have_remote_offer = false
is_shut pc_closed = true

abbrev pub is_answer_set : Answering → Bool
is_answer_set no_answer = false
is_answer_set accepted = false
is_answer_set remote_set = false
is_answer_set answer_made = false
is_answer_set answer_set = true

abbrev pub one_if : Bool → ℕ
one_if true = 1
one_if false = 0

-- The offers in the making, with the browser, or just answered.
abbrev pub under_way : Negotiation → ℕ
under_way p =
    p.creating + p.setting + one_if (is_local p.signaling) + one_if (is_answer_set p.answering)

-- Until the connection is closed, the flag counts the offers under way; and no offer is open but
-- one that is with the browser.
pub record IsOrderly (p : Negotiation) : Type 0 where
  pub flag : is_shut p.signaling ≡ false → under_way p ≡ one_if p.making_offer
  pub open_offers : p.offers ≤ p.answers + one_if (is_local p.signaling || is_shut p.signaling)

signaling-cases :
    (s : SignalingState)
    → (s ≡ stable) ⊎ ((s ≡ have_local_offer) ⊎ ((s ≡ have_remote_offer) ⊎ (s ≡ pc_closed)))
signaling-cases stable = inl refl
signaling-cases have_local_offer = inr (inl refl)
signaling-cases have_remote_offer = inr (inr (inl refl))
signaling-cases pc_closed = inr (inr (inr refl))

if-IsOrderly :
    (b : Bool) (x y : Negotiation)
    → (b ≡ true → IsOrderly x)
    → (b ≡ false → IsOrderly y)
    → IsOrderly (if b then x else y)
if-IsOrderly true x y hx hy = hx refl
if-IsOrderly false x y hx hy = hy refl

-- What neither the flag nor an offer depends on.
same-IsOrderly :
    (p q : Negotiation)
    → (q.making_offer ≡ p.making_offer)
    → (q.signaling ≡ p.signaling)
    → (under_way q ≡ under_way p)
    → (q.offers ≡ p.offers)
    → (q.answers ≡ p.answers)
    → IsOrderly p
    → IsOrderly q
same-IsOrderly p q em es eu eo ea h = record {
  flag = λ e. eu ∙ h.flag (sym (ap is_shut es) ∙ e) ∙ sym (ap one_if em);
  open_offers = rw (es, eo, ea) h.open_offers;
}

schedule_negotiate-IsOrderly : (p : Negotiation) → IsOrderly p → IsOrderly (schedule_negotiate p)
unfolding schedule_negotiate
schedule_negotiate-IsOrderly p h =
    if-IsOrderly p.closed _ _ (λ e. h)
      λ e.
        if-IsOrderly p.negotiate_timer _ _ (λ f. h)
          λ f. same-IsOrderly p _ refl refl refl refl refl h

timer_fires-IsOrderly : (p : Negotiation) → IsOrderly p → IsOrderly (timer_fires p)
unfolding timer_fires
timer_fires-IsOrderly p h =
    if-IsOrderly p.negotiate_timer _ _ (λ e. same-IsOrderly p _ refl refl refl refl refl h) λ e. h

negotiate_locked-IsOrderly : (p : Negotiation) → IsOrderly p → IsOrderly (negotiate_locked p)
negotiate_locked-IsOrderly p h =
    if-IsOrderly p.closed _ _ (λ e. h)
      λ e.
        if-IsOrderly (p.making_offer || not (is_stable p.signaling)) _ _
          (λ f. same-IsOrderly p _ refl refl refl refl refl h)
          λ f. record { flag = λ o. ground (arith, f, h.flag o); open_offers = h.open_offers }

negotiate_from-IsOrderly : (n : ℕ) (p : Negotiation) → IsOrderly p → IsOrderly (negotiate_from n p)
negotiate_from-IsOrderly zero p h = h
negotiate_from-IsOrderly (suc n) p h =
    negotiate_locked-IsOrderly (record p { calls = n })
      (same-IsOrderly p _ refl refl refl refl refl h)

create_from-IsOrderly :
    (n : ℕ) (ok : Bool) (p : Negotiation)
    → p.creating ≡ n
    → IsOrderly p
    → IsOrderly (create_from n ok p)
create_from-IsOrderly zero ok p e h = h
create_from-IsOrderly (suc n) ok p e h =
    if-IsOrderly ok _ _ (λ f. same-IsOrderly p _ refl refl (ground (arith, e)) refl refl h)
      λ f. record { flag = λ o. ground (arith, e, h.flag o); open_offers = h.open_offers }

set_from-IsOrderly :
    (n : ℕ) (ok : Bool) (p : Negotiation)
    → p.setting ≡ n
    → IsOrderly p
    → IsOrderly (set_from n ok p)
set_from-IsOrderly zero ok p e h = h
set_from-IsOrderly (suc n) ok p e h =
    if-IsOrderly (ok && is_stable p.signaling) _ _
      (λ f. record {
        flag = λ o. ground (arith, e, h.flag, f, signaling-cases p.signaling);
        open_offers = ground (arith, h.open_offers, f, signaling-cases p.signaling);
      })
      λ f. record { flag = λ o. ground (arith, e, h.flag o); open_offers = h.open_offers }

offer_arrives-IsOrderly :
    (a : Answering) (p : Negotiation)
    → p.answering ≡ a
    → IsOrderly p
    → IsOrderly (offer_arrives a p)
offer_arrives-IsOrderly no_answer p e h =
    if-IsOrderly (collision p) _ _ (λ f. h)
      λ f. same-IsOrderly p _ refl refl (ground (arith, e)) refl refl h
offer_arrives-IsOrderly accepted p e h = h
offer_arrives-IsOrderly remote_set p e h = h
offer_arrives-IsOrderly answer_made p e h = h
offer_arrives-IsOrderly answer_set p e h = h

answer_from-IsOrderly :
    (a : Answering) (ok : Bool) (p : Negotiation)
    → p.answering ≡ a
    → IsOrderly p
    → IsOrderly (answer_from a ok p)
answer_from-IsOrderly no_answer ok p e h = h
answer_from-IsOrderly accepted ok p e h =
    if-IsOrderly (ok && is_stable p.signaling) _ _
      (λ f. record {
        flag = λ o. ground (arith, e, h.flag, f, signaling-cases p.signaling);
        open_offers = ground (arith, h.open_offers, f, signaling-cases p.signaling);
      })
      λ f. same-IsOrderly p _ refl refl (ground (arith, e)) refl refl h
answer_from-IsOrderly remote_set ok p e h =
    same-IsOrderly p _ refl refl (ground (arith, e)) refl refl h
answer_from-IsOrderly answer_made ok p e h =
    if-IsOrderly (ok && is_remote p.signaling) _ _
      (λ f. record {
        flag = λ o. ground (arith, e, h.flag, f, signaling-cases p.signaling);
        open_offers = ground (arith, h.open_offers, f, signaling-cases p.signaling);
      })
      λ f. same-IsOrderly p _ refl refl (ground (arith, e)) refl refl h
answer_from-IsOrderly answer_set ok p e h = h

answer_arrives-IsOrderly :
    (a : Answering) (ok : Bool) (p : Negotiation)
    → p.answering ≡ a
    → IsOrderly p
    → IsOrderly (answer_arrives a ok p)
answer_arrives-IsOrderly no_answer ok p e h =
    if-IsOrderly (ok && is_local p.signaling) _ _
      (λ f. record {
        flag = λ o. ground (arith, e, h.flag, f, signaling-cases p.signaling);
        open_offers = ground (arith, h.open_offers, f, signaling-cases p.signaling);
      })
      λ f. h
answer_arrives-IsOrderly accepted ok p e h = h
answer_arrives-IsOrderly remote_set ok p e h = h
answer_arrives-IsOrderly answer_made ok p e h = h
answer_arrives-IsOrderly answer_set ok p e h = h

reset_from-IsOrderly :
    (a : Answering) (p : Negotiation) → p.answering ≡ a → IsOrderly p → IsOrderly (reset_from a p)
reset_from-IsOrderly no_answer p e h = h
reset_from-IsOrderly accepted p e h = h
reset_from-IsOrderly remote_set p e h = h
reset_from-IsOrderly answer_made p e h = h
reset_from-IsOrderly answer_set p e h = record {
  flag = λ o. ground (arith, e, h.flag o);
  open_offers = h.open_offers;
}

close-IsOrderly : (p : Negotiation) → IsOrderly p → IsOrderly (close p)
unfolding close
close-IsOrderly p h =
    if-IsOrderly p.closed _ _ (λ e. h) λ e. same-IsOrderly p _ refl refl refl refl refl h

close_connection-IsOrderly : (p : Negotiation) → IsOrderly p → IsOrderly (close_connection p)
unfolding close_connection
close_connection-IsOrderly p h =
    if-IsOrderly p.closed _ _
      (λ e. record { flag = λ o. cc; open_offers = ground (arith, h.open_offers) }) λ e. h

step-IsOrderly : (o : Op) (p : Negotiation) → IsOrderly p → IsOrderly (step o p)
unfolding step negotiate create_offer set_offer handle_offer answer_step handle_answer reset_offer
step-IsOrderly schedule_op p h = schedule_negotiate-IsOrderly p h
step-IsOrderly timer_op p h = timer_fires-IsOrderly p h
step-IsOrderly negotiate_op p h = negotiate_from-IsOrderly p.calls p h
step-IsOrderly offer_op p h = offer_arrives-IsOrderly p.answering p refl h
step-IsOrderly reset_op p h = reset_from-IsOrderly p.answering p refl h
step-IsOrderly close_op p h = close-IsOrderly p h
step-IsOrderly close_connection_op p h = close_connection-IsOrderly p h
step-IsOrderly (create_op ok) p h = create_from-IsOrderly p.creating ok p refl h
step-IsOrderly (set_op ok) p h = set_from-IsOrderly p.setting ok p refl h
step-IsOrderly (answering_op ok) p h = answer_from-IsOrderly p.answering ok p refl h
step-IsOrderly (answer_op ok) p h = answer_arrives-IsOrderly p.answering ok p refl h

run-IsOrderly : (os : List Op) (p : Negotiation) → IsOrderly p → IsOrderly (run os p)
unfolding run
run-IsOrderly [] p h = h
run-IsOrderly (o ∷ os) p h = run-IsOrderly os (step o p) (step-IsOrderly o p h)

-- However the requests of subscriptions, the timers and the calls of `negotiate` that they start,
-- the browser's offers and answers, the failures of the Pion library and the end of the participant
-- are interleaved: until the connection is closed the flag is set exactly while one offer is being
-- made, is with the browser, or has its answer applied and the flag not yet reset, and there is
-- never a second such offer; and no offer is sent before an answer to the one before has been
-- applied.
pub run-new-IsOrderly : (os : List Op) → IsOrderly (run os new_negotiation)
run-new-IsOrderly os =
    run-IsOrderly os new_negotiation (record { flag = λ e. refl; open_offers = omega arith })
