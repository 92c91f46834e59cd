-- ===== src/Base/Float.antt =====
-- Python's floats, as far as the risk scores use them: decimal literals, addition, subtraction and
-- comparison. Nothing is assumed of rounding but that the comparison is a total order, that literals
-- keep their order, that adding to 0 changes nothing, that addition is monotone, and that subtracting a
-- literal raises nothing, which IEEE 754 arithmetic on finite values satisfies.
use Prim.Native.Nat.{ℕ, ◌+◌, ◌-◌}
use mathlib.Core.Path.{◌≡◌, refl}
use mathlib.Core.Bool.{Bool, true, false}
use native.Mathlib.Omega.{arith}
use reserach.Base.Tests.{leb, if◌then◌else◌}

pub record Float : Type 1 where
  pub F : Type 0
  -- the literal n / 10000
  pub lit : ℕ → F
  pub le : F → F → Bool
  pub add : F → F → F
  pub sub : F → F → F
  pub le_refl : (a : F) → le a a ≡ true
  pub le_trans : (a b c : F) → le a b ≡ true → le b c ≡ true → le a c ≡ true
  pub le_total : (a b : F) → le a b ≡ false → le b a ≡ true
  pub le-lit : (m n : ℕ) → le (lit m) (lit n) ≡ leb m n
  pub zero_add : (n : ℕ) → add (lit 0) (lit n) ≡ lit n
  pub le-add : (a : F) (n : ℕ) → le a (add a (lit n)) ≡ true
  pub sub-le : (a : F) (n : ℕ) → le (sub a (lit n)) a ≡ true
  pub add-mono : (a b : F) (n : ℕ) → le a b ≡ true → le (add a (lit n)) (add b (lit n)) ≡ true

-- Python's `max(a, b)` and `min(a, b)` return the first of two equal values.
module _ (f : Float) where
  open f use {F, lit, le, le_refl, le_trans, le_total, le-lit}

  unfoldable pub fmax : F → F → F
  fmax a b = if le b a then a else b

  unfoldable pub fmin : F → F → F
  fmin a b = if le a b then a else b

  pub le-fmax_left : (a b : F) → le a (fmax a b) ≡ true
  unfolding fmax
  le-fmax_left a b = ground (arith, le_refl a, le_total b a)

  pub le-fmax_right : (a b : F) → le b (fmax a b) ≡ true
  unfolding fmax
  le-fmax_right a b = ground (arith, le_refl b)

  pub fmax-le : (a b c : F) → le a c ≡ true → le b c ≡ true → le (fmax a b) c ≡ true
  unfolding fmax
  fmax-le a b c h k = ground arith

  pub fmin-le_left : (a b : F) → le (fmin a b) a ≡ true
  unfolding fmin
  fmin-le_left a b = ground (arith, le_refl a, le_total a b)

  pub fmin-le_right : (a b : F) → le (fmin a b) b ≡ true
  unfolding fmin
  fmin-le_right a b = ground (arith, le_refl b)

  pub le-fmin : (a b c : F) → le c a ≡ true → le c b ≡ true → le c (fmin a b) ≡ true
  unfolding fmin
  le-fmin a b c h k = ground arith

-- Exact decimals in ten-thousandths.
pub decimal_le_refl : (a : ℕ) → leb a a ≡ true
decimal_le_refl a = ground arith

pub decimal_le_trans : (a b c : ℕ) → leb a b ≡ true → leb b c ≡ true → leb a c ≡ true
decimal_le_trans a b c h k = ground arith

pub decimal_le_total : (a b : ℕ) → leb a b ≡ false → leb b a ≡ true
decimal_le_total a b h = ground arith

pub decimal_le-add : (a n : ℕ) → leb a (a + n) ≡ true
decimal_le-add a n = ground arith

pub decimal_add_mono : (a b n : ℕ) → leb a b ≡ true → leb (a + n) (b + n) ≡ true
decimal_add_mono a b n h = ground arith

pub decimal_sub-le : (a n : ℕ) → leb (a - n) a ≡ true
decimal_sub-le a n = ground arith

-- An instance: exact decimals in ten-thousandths.
abbrev pub decimal : Float
decimal = record {
  F = ℕ;
  lit = λ n. n;
  le = leb;
  add = ◌+◌;
  sub = ◌-◌;
  le_refl = decimal_le_refl;
  le_trans = decimal_le_trans;
  le_total = decimal_le_total;
  le-lit = λ m n. refl;
  zero_add = λ n. omega arith;
  le-add = decimal_le-add;
  sub-le = decimal_sub-le;
  add-mono = decimal_add_mono;
}
