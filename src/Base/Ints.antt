-- ===== src/Base/Ints.antt =====
-- Signed integers: the source's `Int` where a value may be negative.
use Prim.Native.Nat.{ℕ, zero, suc, ◌+◌, ◌-◌}
use mathlib.Core.Path.{◌≡◌, sym, ap, ◌∙◌}
use mathlib.Core.Bool.{Bool, false}
use native.Mathlib.Omega.{arith}
use opt_solver.Base.Tests.{ltb, ◌==◌}

-- `negsuc n` is -(n + 1).
pub data ℤ : Type 0 where
  pos : ℕ → ℤ
  negsuc : ℕ → ℤ

abbrev pub pos_part : ℤ → ℕ
pos_part (pos n) = n
pos_part (negsuc n) = 0

abbrev pub neg_part : ℤ → ℕ
neg_part (pos n) = 0
neg_part (negsuc n) = suc n

abbrev pub ltz : ℤ → ℤ → Bool
ltz a b = ltb (pos_part a + neg_part b) (pos_part b + neg_part a)

abbrev pub eqz : ℤ → ℤ → Bool
eqz (pos a) (pos b) = a == b
eqz (pos a) (negsuc b) = false
eqz (negsuc a) (pos b) = false
eqz (negsuc a) (negsuc b) = a == b

-- k + 1
abbrev pub succ_z : ℤ → ℤ
succ_z (pos n) = pos (suc n)
succ_z (negsuc zero) = pos 0
succ_z (negsuc (suc n)) = negsuc n

-- The rounds of a loop from `a` up to `b`: b - a, or 0 where a is above b.
abbrev pub difference : ℤ → ℤ → ℕ
difference b a = pos_part b + neg_part a - (pos_part a + neg_part b)

pub pos_inj : {a b : ℕ} → pos a ≡ pos b → a ≡ b
pos_inj e = ap pos_part e

-- A number is not both negative and not.
pub not_both : {m t : ℕ} {z : ℤ} → z ≡ negsuc m → z ≡ pos t → ⊥
not_both {m} {t} e f = let g : negsuc m ≡ pos t = sym e ∙ f in ground arith
