-- ===== src/Base/Int.antt =====
-- Python's integers where the code subtracts: `negsuc n` is -(n + 1).
use Prim.Native.Nat.{ℕ, suc, ◌+◌, ◌-◌, ◌≤◌}
use mathlib.Core.Path.{◌≡◌}
use mathlib.Core.Bool.{Bool}
use native.Mathlib.Omega.{arith}
use reserach.Base.Tests.{ltb, leb, if◌then◌else◌}

pub data ℤ : Type 0 where
  pos : ℕ → ℤ
  negsuc : ℕ → ℤ

abbrev pub pos_part : ℤ → ℕ
pos_part (pos n) = n
pos_part (negsuc n) = 0

abbrev pub neg_part : ℤ → ℕ
neg_part (pos n) = 0
neg_part (negsuc n) = suc n

-- a - b, as an integer.
abbrev pub sub_ℕ : ℕ → ℕ → ℤ
sub_ℕ a b = if leb b a then pos (a - b) else negsuc (b - a - 1)

infixl 65 ◌-ℤ◌
infix 50 ◌≤ℤ◌
unfoldable pub ◌-ℤ◌ : ℤ → ℤ → ℤ
a -ℤ b = sub_ℕ (pos_part a + neg_part b) (neg_part a + pos_part b)

abbrev pub ◌≤ℤ◌ : ℤ → ℤ → Type 0
a ≤ℤ b = pos_part a + neg_part b ≤ pos_part b + neg_part a

abbrev pub ltb_ℤ : ℤ → ℤ → Bool
ltb_ℤ a b = ltb (pos_part a + neg_part b) (pos_part b + neg_part a)

-- The tests that the code makes on differences of non-negative integers.
pub ltb_ℤ-sub : (a b c : ℕ) → ltb_ℤ (pos a -ℤ pos b) (pos c) ≡ ltb a (b + c)
unfolding ◌-ℤ◌
ltb_ℤ-sub a b c = ground arith

pub ltb_ℤ-sub-sub : (a b r c : ℕ) → ltb_ℤ (pos a -ℤ pos b -ℤ pos r) (pos c) ≡ ltb a (b + r + c)
unfolding ◌-ℤ◌
ltb_ℤ-sub-sub a b r c = ground arith
