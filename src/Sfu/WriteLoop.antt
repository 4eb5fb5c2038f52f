-- ===== src/Sfu/WriteLoop.antt =====
-- internal/sfu/subscription.go: the loop that drains one subscriber's queue into its track.
pub mod Budget
use pulse_rtc.Prelude.{
  ℕ, zero, suc, ◌+◌, ◌-◌, ◌*◌, ◌≤◌, ◌<◌, ◌≡◌, ◌≢◌, ◌↔◌, ◌⊎◌, inl, inr, refl, sym, ap, ◌∙◌, Bool,
  true, false, ◌&&◌, ◌||◌, not, Option, none, some, List, [], ◌∷◌, ◌++◌, map, String, arith, ltb,
  leb, ◌==◌, if◌then◌else◌, Bool-cases, Option-cases, length, length-append, take, drop, Eq, ◌=?◌,
  string_eq, All, All-append, is_some,
}
use pulse_rtc.Sfu.SendQueue.{Packet}

abbrev pub sub_write_error_budget : ℕ
sub_write_error_budget = 50

-- What `w.Write` answers: no error, `io.ErrClosedPipe`, another error.
pub data Write : Type 0 where
  written closed_pipe failed : Write

-- What a round of the loop meets: the queue is closed, or a packet whose write has that answer.
pub data Round : Type 0 where
  queue_closed : Round
  popped : Packet → (resync : Bool) → Write → Round

pub data Call : Type 0 where
  write : Packet → Call
  release : Packet → Call
  on_resync on_fatal : Call

pub data Ending : Type 0 where
  closed gone fatal : Ending

-- The calls in order, and the way in which the loop has returned, if it has.
pub record Outcome : Type 0 where
  pub calls : List Call
  pub ending : Option Ending

abbrev pub after : List Call → Outcome → Outcome
after cs o = record { calls = cs ++ o.calls; ending = o.ending }

abbrev pub ends : List Call → Ending → Outcome
ends cs e = record { calls = cs; ending = some e }

abbrev pub called : Bool → Call → List Call
called b c = if b then c ∷ [] else []

abbrev pub handed : Packet → List Call
handed bp = write bp ∷ (release bp ∷ [])

-- The hooks are set or nil; the loop waits where the rounds end.
module _ (has_resync has_fatal : Bool) where
  unfoldable pub write_loop : ℕ → List Round → Outcome
  write_loop streak [] = record { calls = []; ending = none }
  write_loop streak (queue_closed ∷ rs) = ends [] closed
  write_loop streak (popped bp resync written ∷ rs) =
      after (handed bp ++ called (resync && has_resync) on_resync) (write_loop 0 rs)
  write_loop streak (popped bp resync closed_pipe ∷ rs) = ends (handed bp) gone
  write_loop streak (popped bp resync failed ∷ rs) =
      let rest = write_loop (suc streak) rs in
      if leb sub_write_error_budget (suc streak)
      then ends (handed bp ++ called has_fatal on_fatal) fatal
      else after (handed bp) rest

  unfoldable pub run_sub_write_loop : List Round → Outcome
  run_sub_write_loop rs = write_loop 0 rs
