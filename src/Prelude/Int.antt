-- ===== src/Prelude/Int.antt =====
-- Signed integers over the native numbers: return codes and JSON numbers.
use Prim.Native.Nat.{ℕ, suc, ◌+◌, ◌-◌, ◌≤◌}
use mathlib.Core.Path.{◌≡◌}
use mathlib.Core.Bool.{Bool, true}
use native.Mathlib.Omega.{arith}
use iot_lab_gateway.Prelude.Tests.{leb, ◌==◌, if◌then◌else◌}

-- `negsuc n` is -(n + 1).
pub data ℤ : Type 0 where
  pos : ℕ → ℤ
  negsuc : ℕ → ℤ

abbrev pub pos_part : ℤ → ℕ
pos_part (pos n) = n
pos_part (negsuc n) = 0

abbrev pub neg_part : ℤ → ℕ
neg_part (pos n) = 0
neg_part (negsuc n) = suc n

abbrev pub sub_ℕ : ℕ → ℕ → ℤ
sub_ℕ a b = if leb b a then pos (a - b) else negsuc (b - a - 1)

infixl 65 ◌+ℤ◌
unfoldable pub ◌+ℤ◌ : ℤ → ℤ → ℤ
a +ℤ b = sub_ℕ (pos_part a + pos_part b) (neg_part a + neg_part b)

infix 50 ◌==ℤ◌
abbrev pub ◌==ℤ◌ : ℤ → ℤ → Bool
a ==ℤ b = pos_part a + neg_part b == pos_part b + neg_part a

abbrev pub IsNonneg : ℤ → Type 0
IsNonneg a = neg_part a ≤ 0

-- A sum of two codes that are no less than 0 is 0 only if both are.
pub +ℤ-IsNonneg : (a b : ℤ) → IsNonneg a → IsNonneg b → IsNonneg (a +ℤ b)
unfolding ◌+ℤ◌
+ℤ-IsNonneg a b h k = ground arith

pub +ℤ-eq-zero : (a b : ℤ) → IsNonneg a → IsNonneg b → a +ℤ b ≡ pos 0 → (a ≡ pos 0) × (b ≡ pos 0)
unfolding ◌+ℤ◌
+ℤ-eq-zero a b h k e = ground arith

pub +ℤ-zero : (a : ℤ) → a +ℤ pos 0 ≡ a
unfolding ◌+ℤ◌
+ℤ-zero a = ground arith

pub ==ℤ-eq : (a b : ℤ) → (a ==ℤ b) ≡ true → a ≡ b
==ℤ-eq (pos a) (pos b) e = ground arith
==ℤ-eq (pos a) (negsuc b) e = ground arith
==ℤ-eq (negsuc a) (pos b) e = ground arith
==ℤ-eq (negsuc a) (negsuc b) e = ground arith

pub ==ℤ-refl : (a : ℤ) → (a ==ℤ a) ≡ true
==ℤ-refl (pos a) = ground arith
==ℤ-refl (negsuc a) = ground arith
