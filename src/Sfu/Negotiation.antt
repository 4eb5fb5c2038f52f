-- ===== src/Sfu/Negotiation.antt =====
-- internal/sfu/core_participant.go: the negotiation of one participant, with the SFU as the
-- impolite peer. Several calls of `negotiate` may be under way, of timers and of `HandleAnswer`;
-- those at the same place are alike, so they are counted. Steps are what runs between two points at
-- which another goroutine may run. Whether a call of the Pion library succeeds is an argument; it
-- also needs the signaling state that its documentation asks for: a local or a remote offer wants a
-- stable connection, an answer an offer of the other side.
pub mod OneOffer
pub mod Deferred
use pulse_rtc.Prelude.{
  ℕ, zero, suc, ◌+◌, ◌-◌, ◌*◌, ◌≤◌, ◌<◌, ◌≡◌, ◌≢◌, ◌↔◌, ◌⊎◌, inl, inr, refl, sym, ap, ◌∙◌, Bool,
  true, false, ◌&&◌, ◌||◌, not, Option, none, some, List, [], ◌∷◌, ◌++◌, map, String, arith, ltb,
  leb, ◌==◌, if◌then◌else◌, Bool-cases, Option-cases, length, length-append, take, drop, Eq, ◌=?◌,
  string_eq, All, All-append, is_some,
}

pub data SignalingState : Type 0 where
  stable have_local_offer have_remote_offer pc_closed : SignalingState

abbrev pub is_stable : SignalingState → Bool
is_stable stable = true
is_stable have_local_offer = false
is_stable have_remote_offer = false
is_stable pc_closed = false

abbrev pub is_local : SignalingState → Bool
is_local stable = false
is_local have_local_offer = true
is_local have_remote_offer = false
is_local pc_closed = false

-- Where the client's reader is, which calls `HandleOffer` and `HandleAnswer` one after the other:
-- in neither; in `HandleOffer` past its guard, before `CreateAnswer`, before `SetLocalDescription`;
-- in `HandleAnswer` before the lock is taken.
pub data Answering : Type 0 where
  no_answer accepted remote_set answer_made answer_set : Answering

pub record Negotiation : Type 0 where
  pub making_offer : Bool
  pub need_negotiate : Bool
  pub negotiate_timer : Bool
  pub closed : Bool
  pub signaling : SignalingState
  -- The calls of `negotiate` that are before its lock, past its guard and before `CreateOffer`, and
  -- before `SetLocalDescription`.
  pub calls : ℕ
  pub creating : ℕ
  pub setting : ℕ
  pub answering : Answering
  -- The SFU's offers that were sent, and the answers to them that were applied.
  pub offers : ℕ
  pub answers : ℕ

abbrev pub new_negotiation : Negotiation
new_negotiation = record {
  making_offer = false;
  need_negotiate = false;
  negotiate_timer = false;
  closed = false;
  signaling = stable;
  calls = 0;
  creating = 0;
  setting = 0;
  answering = no_answer;
  offers = 0;
  answers = 0;
}

-- `scheduleNegotiate`.
unfoldable pub schedule_negotiate : Negotiation → Negotiation
schedule_negotiate p =
    if p.closed then p else if p.negotiate_timer then p else record p { negotiate_timer = true }

-- The part of `negotiate` under the lock.
abbrev pub negotiate_locked : Negotiation → Negotiation
negotiate_locked p =
    if p.closed
    then p
    else if p.making_offer || not (is_stable p.signaling)
    then record p { need_negotiate = true }
    else record p { making_offer = true; creating = suc p.creating }

-- One of the calls of `negotiate` takes the lock.
abbrev pub negotiate_from : ℕ → Negotiation → Negotiation
negotiate_from zero p = p
negotiate_from (suc n) p = negotiate_locked (record p { calls = n })

unfoldable pub negotiate : Negotiation → Negotiation
negotiate p = negotiate_from p.calls p

-- The function that the timer runs, up to its call of `negotiate`.
unfoldable pub timer_fires : Negotiation → Negotiation
timer_fires p =
    if p.negotiate_timer then record p { negotiate_timer = false; calls = suc p.calls } else p

abbrev pub clear_making_offer : Negotiation → Negotiation
clear_making_offer p = record p { making_offer = false }

-- `CreateOffer`, by one of the calls that are there.
abbrev pub create_from : ℕ → Bool → Negotiation → Negotiation
create_from zero ok p = p
create_from (suc n) ok p =
    if ok
    then record p { creating = n; setting = suc p.setting }
    else clear_making_offer (record p { creating = n })

unfoldable pub create_offer : Bool → Negotiation → Negotiation
create_offer ok p = create_from p.creating ok p

-- `SetLocalDescription`, and the offer that is sent.
abbrev pub set_from : ℕ → Bool → Negotiation → Negotiation
set_from zero ok p = p
set_from (suc n) ok p =
    if ok && is_stable p.signaling
    then record p { signaling = have_local_offer; setting = n; offers = suc p.offers }
    else clear_making_offer (record p { setting = n })

unfoldable pub set_offer : Bool → Negotiation → Negotiation
set_offer ok p = set_from p.setting ok p

abbrev pub collision : Negotiation → Bool
collision p = p.making_offer || not (is_stable p.signaling)

-- The guard of `HandleOffer`.
abbrev pub offer_arrives : Answering → Negotiation → Negotiation
offer_arrives no_answer p = if collision p then p else record p { answering = accepted }
offer_arrives accepted p = p
offer_arrives remote_set p = p
offer_arrives answer_made p = p
offer_arrives answer_set p = p

unfoldable pub handle_offer : Negotiation → Negotiation
handle_offer p = offer_arrives p.answering p

-- The rest of it: `SetRemoteDescription`, `CreateAnswer`, `SetLocalDescription`.
abbrev pub is_remote : SignalingState → Bool
is_remote stable = false
is_remote have_local_offer = false
is_remote have_remote_offer = true
is_remote pc_closed = false

abbrev pub answer_from : Answering → Bool → Negotiation → Negotiation
answer_from no_answer ok p = p
answer_from accepted ok p =
    if ok && is_stable p.signaling
    then record p { signaling = have_remote_offer; answering = remote_set }
    else record p { answering = no_answer }
answer_from remote_set ok p = record p { answering = if ok then answer_made else no_answer }
answer_from answer_made ok p =
    if ok && is_remote p.signaling
    then record p { signaling = stable; answering = no_answer }
    else record p { answering = no_answer }
answer_from answer_set ok p = p

unfoldable pub answer_step : Bool → Negotiation → Negotiation
answer_step ok p = answer_from p.answering ok p

-- The `SetRemoteDescription` of `HandleAnswer`.
abbrev pub answer_arrives : Answering → Bool → Negotiation → Negotiation
answer_arrives no_answer ok p =
    if ok && is_local p.signaling
    then record p { signaling = stable; answering = answer_set; answers = suc p.answers }
    else p
answer_arrives accepted ok p = p
answer_arrives remote_set ok p = p
answer_arrives answer_made ok p = p
answer_arrives answer_set ok p = p

unfoldable pub handle_answer : Bool → Negotiation → Negotiation
handle_answer ok p = answer_arrives p.answering ok p

-- The part of `HandleAnswer` under the lock, and its call of `negotiate`, which then goes on like
-- those of the timer.
abbrev pub reset_from : Answering → Negotiation → Negotiation
reset_from no_answer p = p
reset_from accepted p = p
reset_from remote_set p = p
reset_from answer_made p = p
reset_from answer_set p = record p {
  making_offer = false;
  need_negotiate = false;
  answering = no_answer;
  calls = if p.need_negotiate then suc p.calls else p.calls;
}

unfoldable pub reset_offer : Negotiation → Negotiation
reset_offer p = reset_from p.answering p

unfoldable pub close : Negotiation → Negotiation
close p = if p.closed then p else record p { closed = true; negotiate_timer = false }

-- `close` ends the connection after it has released the lock.
unfoldable pub close_connection : Negotiation → Negotiation
close_connection p = if p.closed then record p { signaling = pc_closed } else p

pub data Op : Type 0 where
  schedule_op timer_op negotiate_op offer_op reset_op close_op close_connection_op : Op
  create_op set_op answering_op answer_op : (ok : Bool) → Op

unfoldable pub step : Op → Negotiation → Negotiation
step schedule_op p = schedule_negotiate p
step timer_op p = timer_fires p
step negotiate_op p = negotiate p
step offer_op p = handle_offer p
step reset_op p = reset_offer p
step close_op p = close p
step close_connection_op p = close_connection p
step (create_op ok) p = create_offer ok p
step (set_op ok) p = set_offer ok p
step (answering_op ok) p = answer_step ok p
step (answer_op ok) p = handle_answer ok p

unfoldable pub run : List Op → Negotiation → Negotiation
run [] p = p
run (o ∷ os) p = run os (step o p)
