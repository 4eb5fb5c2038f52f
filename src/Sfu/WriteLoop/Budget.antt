-- ===== src/Sfu/WriteLoop/Budget.antt =====
-- internal/sfu/subscription.go: when the error budget is used up, and what is called.
use pulse_rtc.Prelude.{
  ℕ, suc, ◌≤◌, ◌<◌, ◌≡◌, refl, Bool, true, false, ◌&&◌, Option, none, some, List, [], ◌∷◌, ◌++◌,
  arith, leb, if◌then◌else◌, string_eq,
}
use Prim.Native.Nat.{max}
use pulse_rtc.Sfu.SendQueue.{Packet}
use pulse_rtc.Sfu.WriteLoop.{
  written, closed_pipe, failed, Round, queue_closed, popped, Call, write, release, on_resync,
  on_fatal, Ending, closed, gone, fatal, Outcome, after, ends, called, handed, write_loop,
  run_sub_write_loop,
}

-- The longest run of failed writes before the queue is closed or the track is gone, with `n`
-- failures just before.
abbrev pub longest_streak : ℕ → List Round → ℕ
longest_streak n [] = n
longest_streak n (queue_closed ∷ rs) = n
longest_streak n (popped _ _ written ∷ rs) = max n (longest_streak 0 rs)
longest_streak n (popped _ _ closed_pipe ∷ rs) = n
longest_streak n (popped _ _ failed ∷ rs) = longest_streak (suc n) rs

le-longest_streak : (n : ℕ) (rs : List Round) → n ≤ longest_streak n rs
le-longest_streak n [] = omega arith
le-longest_streak n (queue_closed ∷ rs) = omega arith
le-longest_streak n (popped _ _ written ∷ rs) = omega arith
le-longest_streak n (popped _ _ closed_pipe ∷ rs) = omega arith
le-longest_streak n (popped _ _ failed ∷ rs) = omega (arith, le-longest_streak (suc n) rs)

abbrev pub is_fatal : Option Ending → Bool
is_fatal none = false
is_fatal (some closed) = false
is_fatal (some gone) = false
is_fatal (some fatal) = true

write_loop-is_fatal :
    (a b : Bool) (n : ℕ) (rs : List Round)
    → n < 50
    → is_fatal (write_loop a b n rs).ending ≡ leb 50 (longest_streak n rs)
unfolding write_loop
write_loop-is_fatal a b n [] h = ground arith
write_loop-is_fatal a b n (queue_closed ∷ rs) h = ground arith
write_loop-is_fatal a b n (popped _ _ written ∷ rs) h = ground (arith, write_loop-is_fatal a b 0 rs)
write_loop-is_fatal a b n (popped _ _ closed_pipe ∷ rs) h = ground arith
write_loop-is_fatal a b n (popped _ _ failed ∷ rs) h =
    ground (arith, write_loop-is_fatal a b (suc n) rs, le-longest_streak (suc n) rs)

-- The loop gives up on the subscription exactly when fifty writes in a row have failed before the
-- queue is closed or the track is gone.
pub run_sub_write_loop-is_fatal :
    (has_resync has_fatal : Bool) (rs : List Round)
    → is_fatal (run_sub_write_loop has_resync has_fatal rs).ending ≡ leb 50 (longest_streak 0 rs)
unfolding run_sub_write_loop
run_sub_write_loop-is_fatal has_resync has_fatal rs =
    write_loop-is_fatal has_resync has_fatal 0 rs (omega arith)

abbrev pub fatal_calls : List Call → ℕ
fatal_calls [] = 0
fatal_calls (on_fatal ∷ cs) = suc (fatal_calls cs)
fatal_calls (on_resync ∷ cs) = fatal_calls cs
fatal_calls (write _ ∷ cs) = fatal_calls cs
fatal_calls (release _ ∷ cs) = fatal_calls cs

-- Every packet that is written goes back to the pool straight after, and none else does.
abbrev pub Balanced : List Call → Type 0
Balanced [] = Unit
Balanced (write p ∷ (release q ∷ cs)) = (p ≡ q) × Balanced cs
Balanced (write p ∷ []) = ⊥
Balanced (write p ∷ (write q ∷ cs)) = ⊥
Balanced (write p ∷ (on_resync ∷ cs)) = ⊥
Balanced (write p ∷ (on_fatal ∷ cs)) = ⊥
Balanced (release p ∷ cs) = ⊥
Balanced (on_resync ∷ cs) = Balanced cs
Balanced (on_fatal ∷ cs) = Balanced cs

abbrev Accounted : Bool → Outcome → Type 0
Accounted b o = Balanced o.calls × (fatal_calls o.calls ≡ (if b && is_fatal o.ending then 1 else 0))

failed_round :
    (b c : Bool) (bp : Packet) (o : Outcome)
    → Accounted b o
    → Accounted b (if c then ends (handed bp ++ called b on_fatal) fatal else after (handed bp) o)
failed_round true true bp o h = ((refl, tt), refl)
failed_round false true bp o h = ((refl, tt), refl)
failed_round b false bp o h = ((refl, h.0), h.1)

write_loop-calls : (a b : Bool) (n : ℕ) (rs : List Round) → Accounted b (write_loop a b n rs)
unfolding write_loop
write_loop-calls a true n [] = (tt, refl)
write_loop-calls a false n [] = (tt, refl)
write_loop-calls a true n (queue_closed ∷ rs) = (tt, refl)
write_loop-calls a false n (queue_closed ∷ rs) = (tt, refl)
write_loop-calls a true n (popped _ _ closed_pipe ∷ rs) = ((refl, tt), refl)
write_loop-calls a false n (popped _ _ closed_pipe ∷ rs) = ((refl, tt), refl)
write_loop-calls true b n (popped _ true written ∷ rs) =
    let ih = write_loop-calls true b 0 rs in ((refl, ih.0), ih.1)
write_loop-calls false b n (popped _ true written ∷ rs) =
    let ih = write_loop-calls false b 0 rs in ((refl, ih.0), ih.1)
write_loop-calls a b n (popped _ false written ∷ rs) =
    let ih = write_loop-calls a b 0 rs in ((refl, ih.0), ih.1)
write_loop-calls a b n (popped bp _ failed ∷ rs) =
    failed_round b (leb 50 (suc n)) bp (write_loop a b (suc n) rs) (write_loop-calls a b (suc n) rs)

-- Every packet that the loop writes goes back to the pool straight after its write, whatever that
-- answered, and no other buffer does; the hook for a fatal end is called once if the loop gives up
-- and the hook is set, and never otherwise.
pub run_sub_write_loop-calls :
    (has_resync has_fatal : Bool) (rs : List Round)
    → Balanced (run_sub_write_loop has_resync has_fatal rs).calls
      × (fatal_calls (run_sub_write_loop has_resync has_fatal rs).calls ≡ (
          if has_fatal && is_fatal (run_sub_write_loop has_resync has_fatal rs).ending
          then 1
          else 0))
unfolding run_sub_write_loop
run_sub_write_loop-calls has_resync has_fatal rs = write_loop-calls has_resync has_fatal 0 rs
