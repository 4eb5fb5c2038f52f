-- ===== src/Prelude/Sort.antt =====
-- `sort.Slice` by a strict order, and Go's order of strings.
use Prim.Native.Char.{Char, code}
use Prim.Native.Nat.{Ordering, compare as compare_ℕ}
use Prim.Native.String.{String, compare, then as next}
use Prim.Native.String.compare
use mathlib.Core.Bool.{Bool, true, false}
use mathlib.Core.List.{List, [], ◌∷◌, Perm}
use mathlib.Core.List.Perm
use mathlib.Core.Logic.{◌⊎◌, inl, inr}
use mathlib.Core.Path.{◌≡◌, refl}
use native.Mathlib.Omega.{arith}
use text.Mathlib.Text.{is_lt}
use text.Mathlib.TextEquality.{Char-path}
use pulse_rtc.Prelude.Tests.{if◌then◌else◌, Bool-cases}
use pulse_rtc.Prelude.Defs.{All}

-- Go compares strings bytewise, which in UTF-8 is the order of the code points.
abbrev pub str_lt : String → String → Bool
str_lt a b = is_lt (compare a b)

cons-cons :
    (c d : Char) (s t : String)
    → compare (String.◌∷◌ c s) (String.◌∷◌ d t) ≡ next (compare_ℕ (code c) (code d)) (compare s t)
cons-cons c d s t = compare.cons-cons c d s t

nil-cons : (d : Char) (t : String) → compare "" (String.◌∷◌ d t) ≡ Ordering.lt
nil-cons d t = compare.nil-cons d t

cons-nil : (d : Char) (t : String) → compare (String.◌∷◌ d t) "" ≡ Ordering.gt
cons-nil d t = compare.cons-nil d t

pub str_lt_asymm : (a b : String) → str_lt a b ≡ true → str_lt b a ≡ false
str_lt_asymm String.[] String.[] h = refl
str_lt_asymm String.[] (String.◌∷◌ d t) h = ground (arith, cons-nil d t)
str_lt_asymm (String.◌∷◌ c s) String.[] h = ground (arith, cons-nil c s)
str_lt_asymm (String.◌∷◌ c s) (String.◌∷◌ d t) h =
    ground (arith, cons-cons c d s t, cons-cons d c t s, str_lt_asymm s t)

pub str_lt_total : (a b : String) → (str_lt a b ≡ true) ⊎ (str_lt b a ≡ true) ⊎ (a ≡ b)
str_lt_total String.[] String.[] = inr (inr refl)
str_lt_total String.[] (String.◌∷◌ d t) = ground (arith, nil-cons d t)
str_lt_total (String.◌∷◌ c s) String.[] = ground (arith, nil-cons c s)
str_lt_total (String.◌∷◌ c s) (String.◌∷◌ d t) =
    ground (arith, cons-cons c d s t, cons-cons d c t s, str_lt_total s t, Char-path c d)

pub str_lt_trans : (a b c : String) → str_lt a b ≡ true → str_lt b c ≡ true → str_lt a c ≡ true
str_lt_trans String.[] String.[] c h k = k
str_lt_trans String.[] (String.◌∷◌ d t) String.[] h k = ground (arith, cons-nil d t)
str_lt_trans String.[] (String.◌∷◌ d t) (String.◌∷◌ e u) h k = ground (arith, nil-cons e u)
str_lt_trans (String.◌∷◌ c s) String.[] u h k = ground (arith, cons-nil c s)
str_lt_trans (String.◌∷◌ c s) (String.◌∷◌ d t) String.[] h k = ground (arith, cons-nil d t)
str_lt_trans (String.◌∷◌ c s) (String.◌∷◌ d t) (String.◌∷◌ e u) h k =
    ground (arith, cons-cons c d s t, cons-cons d e t u, cons-cons c e s u, str_lt_trans s t u)

-- "Not greater" is transitive.
pub str_le_trans : (a b c : String) → str_lt b a ≡ false → str_lt c b ≡ false → str_lt c a ≡ false
str_le_trans a b c h k =
    ground (arith, str_lt_total a b, str_lt_total b c, str_lt_trans a b c, str_lt_asymm a c)

module _ {ℓ} {A : Type ℓ} (less : A → A → Bool) where
  -- Before the first entry that is not less than `x`.
  unfoldable pub insert_by : A → List A → List A
  insert_by x [] = x ∷ []
  insert_by x (y ∷ ys) = if less y x then y ∷ insert_by x ys else x ∷ y ∷ ys

  unfoldable pub sort_by : List A → List A
  unfolding insert_by
  sort_by [] = []
  sort_by (x ∷ xs) = insert_by x (sort_by xs)

  insert_by-perm : (x : A) (xs : List A) → Perm (insert_by x xs) (x ∷ xs)
  unfolding insert_by
  insert_by-perm x [] = Perm.refl (x ∷ [])
  insert_by-perm x (y ∷ ys) = elim (Bool-cases (less y x)) [
    | inl e ↦ rw e (Perm.trans (Perm.cons y (insert_by-perm x ys)) (Perm.swap x y ys))
    | inr e ↦ rw e (Perm.refl (x ∷ y ∷ ys))
  ]

  -- Sorting loses nothing and makes nothing up.
  pub sort_by-perm : (xs : List A) → Perm (sort_by xs) xs
  unfolding sort_by
  sort_by-perm [] = Perm.refl []
  sort_by-perm (x ∷ xs) = Perm.trans (insert_by-perm x (sort_by xs)) (Perm.cons x (sort_by-perm xs))

  -- No entry is less than one before it.
  abbrev pub IsSorted : List A → Type ℓ
  IsSorted [] = Unit
  IsSorted (x ∷ xs) = All (λ y. less y x ≡ false) xs × IsSorted xs

  pub All-insert_by {κ} :
      (P : A → Type κ) (x : A) (xs : List A) → P x → All P xs → All P (insert_by x xs)
  unfolding insert_by
  All-insert_by P x [] h hs = (h, tt)
  All-insert_by P x (y ∷ ys) h hs = elim (Bool-cases (less y x)) [
    | inl e ↦ rw e (hs.0, All-insert_by P x ys h hs.1)
    | inr e ↦ rw e (h, hs)
  ]

  pub All-sort_by {κ} : (P : A → Type κ) (xs : List A) → All P xs → All P (sort_by xs)
  unfolding sort_by
  All-sort_by P [] h = tt
  All-sort_by P (x ∷ xs) h = All-insert_by P x (sort_by xs) h.0 (All-sort_by P xs h.1)

  All-of-insert_by {κ} :
      (P : A → Type κ) (x : A) (xs : List A) → All P (insert_by x xs) → P x × All P xs
  unfolding insert_by
  All-of-insert_by P x [] h = (h.0, tt)
  All-of-insert_by P x (y ∷ ys) h = elim (Bool-cases (less y x)) [
    | inl e ↦
        let g : P y × All P (insert_by x ys) = rw e at h in
        let r = All-of-insert_by P x ys g.1 in (r.0, (g.0, r.1))
    | inr e ↦ let g : P x × (P y × All P ys) = rw e at h in (g.0, g.1)
  ]

  pub All-of-sort_by {κ} : (P : A → Type κ) (xs : List A) → All P (sort_by xs) → All P xs
  unfolding sort_by
  All-of-sort_by P [] h = tt
  All-of-sort_by P (x ∷ xs) h =
      let g = All-of-insert_by P x (sort_by xs) h in (g.0, All-of-sort_by P xs g.1)

module _ {ℓ} {A : Type ℓ} (less : A → A → Bool)
    (asymm : (x y : A) → less x y ≡ true → less y x ≡ false)
    (trans : (x y z : A) → less y x ≡ false → less z y ≡ false → less z x ≡ false) where
  All-after :
      (x y : A) (ys : List A)
      → less y x ≡ false
      → All (λ z. less z y ≡ false) ys
      → All (λ z. less z x ≡ false) ys
  All-after x y [] h hs = tt
  All-after x y (z ∷ zs) h hs = (trans x y z h hs.0, All-after x y zs h hs.1)

  insert_by-IsSorted :
      (x : A) (xs : List A) → IsSorted less xs → IsSorted less (insert_by less x xs)
  unfolding insert_by
  insert_by-IsSorted x [] s = (tt, tt)
  insert_by-IsSorted x (y ∷ ys) s = elim (Bool-cases (less y x)) [
    | inl e ↦ rw e (
      All-insert_by less (λ z. less z y ≡ false) x ys (asymm y x e) s.0,
      insert_by-IsSorted x ys s.1,
    )
    | inr e ↦ rw e ((e, All-after x y ys e s.0), s)
  ]

  pub sort_by-IsSorted : (xs : List A) → IsSorted less (sort_by less xs)
  unfolding sort_by
  sort_by-IsSorted [] = tt
  sort_by-IsSorted (x ∷ xs) = insert_by-IsSorted x (sort_by less xs) (sort_by-IsSorted xs)
