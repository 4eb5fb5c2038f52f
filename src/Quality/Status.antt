-- ===== src/Quality/Status.antt =====
-- internal/quality/scoring_status.go, scoring_hysteresis.go: the verdicts, and how a verdict
-- becomes stable.
pub mod Streak
use pulse_rtc.Prelude.{
  ℕ, zero, suc, ◌+◌, ◌-◌, ◌*◌, ◌≤◌, ◌<◌, ◌≡◌, ◌≢◌, ◌↔◌, ◌⊎◌, inl, inr, refl, sym, ap, ◌∙◌, Bool,
  true, false, ◌&&◌, ◌||◌, not, Option, none, some, List, [], ◌∷◌, ◌++◌, map, String, arith, ltb,
  leb, ◌==◌, if◌then◌else◌, Bool-cases, Option-cases, length, length-append, take, drop, Eq, ◌=?◌,
  string_eq, All, All-append, is_some,
}

pub data Status : Type 0 where
  unknown good warning poor : Status

-- `rank`, one higher: the code's -1 is 0.
abbrev pub rank : Status → ℕ
rank unknown = 0
rank good = 1
rank warning = 2
rank poor = 3

unfoldable pub worst : Status → Status → Status
worst a b =
    if rank a == 0 then b else if rank b == 0 then a else if leb (rank b) (rank a) then a else b

-- Equality of statuses.
abbrev pub is : Status → Status → Bool
is a b = rank a == rank b

-- `candidate` is `none` where the source has the empty string, before the first verdict.
pub record Stabilizer : Type 0 where
  pub stable : Status
  pub candidate : Option Status
  pub streak : ℕ
  pub degrade : ℕ
  pub recover : ℕ

unfoldable pub new_stabilizer : ℕ → ℕ → Stabilizer
new_stabilizer degrade recover = record {
  stable = unknown;
  candidate = none;
  streak = 0;
  degrade = degrade;
  recover = recover;
}

abbrev pub is_candidate : Status → Option Status → Bool
is_candidate raw none = false
is_candidate raw (some c) = is raw c

-- The number of windows that a verdict must repeat for.
unfoldable pub need : Stabilizer → Status → ℕ
need s raw =
    if leb 1 (rank s.stable) && leb 1 (rank raw) && ltb (rank raw) (rank s.stable)
    then s.recover
    else s.degrade

unfoldable pub observe : Status → Stabilizer → (Status × Bool) × Stabilizer
unfolding need
observe raw s =
    if is raw s.stable
    then ((s.stable, false), record s { candidate = some s.stable; streak = 0 })
    else (let streak : ℕ = (if is_candidate raw s.candidate then s.streak + 1 else 1) in
        if leb (need s raw) streak
        then ((raw, true), record s { stable = raw; candidate = some raw; streak = 0 })
        else ((s.stable, false), record s { candidate = some raw; streak = streak }))
