-- ===== src/Prelude/Float.antt =====
-- `float64` as an interface: the operations that the program uses, on values that are not NaN, with
-- the laws of IEEE 754 comparison that its decisions rely on. `ℕ` is an instance for tests.
use Prim.Native.Nat.{ℕ, ◌+◌, ◌-◌, ◌*◌, ◌/◌, ◌≤◌}
use mathlib.Core.Bool.{Bool, true, false, not, ◌&&◌}
use mathlib.Core.Path.{◌≡◌}
use native.Mathlib.Omega.{arith}
use pulse_rtc.Prelude.Tests.{leb}

-- `round` is `math.Round` followed by a conversion to `int`, for values that are not negative.
pub record Floats : Type 1 where
  pub Float : Type 0
  pub of_ℕ : ℕ → Float
  pub add : Float → Float → Float
  pub sub : Float → Float → Float
  pub mul : Float → Float → Float
  pub div : Float → Float → Float
  pub le : Float → Float → Bool
  pub round : Float → ℕ
  -- Comparison is a total preorder: -0 and 0 are each at most the other.
  pub le_total : (a b : Float) → le a b ≡ false → le b a ≡ true
  pub le_trans : (a b c : Float) → le a b ≡ true → le b c ≡ true → le a c ≡ true
  pub add_mono : (a b c : Float) → le a b ≡ true → le (add a c) (add b c) ≡ true
  pub sub_le : (a b : Float) → le (of_ℕ 0) b ≡ true → le (sub a b) a ≡ true
  -- Small numbers are exact, and rounding to integers keeps the order; so does a sum in its first
  -- part.
  pub of_ℕ_mono : (m n : ℕ) → m ≤ n → le (of_ℕ m) (of_ℕ n) ≡ true
  pub round_mono : (a b : Float) → le a b ≡ true → round a ≤ round b
  pub round-of_ℕ : (n : ℕ) → n ≤ 9_007_199_254_740_992 → round (of_ℕ n) ≡ n

pub nat_le_total : (a b : ℕ) → leb a b ≡ false → leb b a ≡ true
nat_le_total a b h = ground arith

pub nat_le_trans : (a b c : ℕ) → leb a b ≡ true → leb b c ≡ true → leb a c ≡ true
nat_le_trans a b c h k = ground arith

pub nat_le_mono : (m n : ℕ) → m ≤ n → leb m n ≡ true
nat_le_mono m n h = ground arith

pub nat_add_mono : (a b c : ℕ) → leb a b ≡ true → leb (a + c) (b + c) ≡ true
nat_add_mono a b c h = ground arith

pub nat_sub_le : (a b : ℕ) → leb 0 b ≡ true → leb (a - b) a ≡ true
nat_sub_le a b h = ground arith

pub nat_round_mono : (a b : ℕ) → leb a b ≡ true → a ≤ b
nat_round_mono a b h = ground arith

pub nat_round : (n : ℕ) → n ≤ 9_007_199_254_740_992 → ◌≡◌ {A = ℕ} n n
nat_round n h = omega arith

abbrev pub nat_floats : Floats
nat_floats = record {
  Float = ℕ;
  of_ℕ = λ n. n;
  add = ◌+◌;
  sub = ◌-◌;
  mul = ◌*◌;
  div = ◌/◌;
  le = leb;
  round = λ n. n;
  le_total = nat_le_total;
  le_trans = nat_le_trans;
  add_mono = nat_add_mono;
  sub_le = nat_sub_le;
  of_ℕ_mono = nat_le_mono;
  round_mono = nat_round_mono;
  round-of_ℕ = nat_round;
}

module _ (fl : Floats) where
  abbrev pub lt : fl.Float → fl.Float → Bool
  lt a b = not (fl.le b a)

  abbrev pub equal : fl.Float → fl.Float → Bool
  equal a b = fl.le a b && fl.le b a

  abbrev pub half : fl.Float
  half = fl.div (fl.of_ℕ 1) (fl.of_ℕ 2)

  abbrev pub quarter : fl.Float
  quarter = fl.div (fl.of_ℕ 1) (fl.of_ℕ 4)
