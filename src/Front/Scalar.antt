-- ===== src/Front/Scalar.antt =====
-- The floating point operations that the front routines use. `lt a b` is a < b, `le a b` is a <= b.
use opt_solver.Base.{◌≡◌, Bool, true, false, if◌then◌else◌}

pub record Scalar (V : Type 0) : Type 0 where
  pub zero_value : V
  pub abs : V → V
  pub is_finite : V → Bool
  pub lt : V → V → Bool
  pub le : V → V → Bool
  pub add : V → V → V
  pub sub : V → V → V
  pub mul : V → V → V
  pub div : V → V → V

-- std::max(a, b)
abbrev pub max_v : {V : Type 0} → Scalar V → V → V → V
max_v s a b = if s.lt a b then b else a

-- What exact numbers satisfy and floating point numbers that are not NaN approximate.
pub record IsOrdered {V : Type 0} (s : Scalar V) : Type 0 where
  pub le_refl : (a : V) → s.le a a ≡ true
  pub le_trans : (a b c : V) → s.le a b ≡ true → s.le b c ≡ true → s.le a c ≡ true
  pub le_of_lt : (a b : V) → s.lt a b ≡ true → s.le a b ≡ true
  pub le_of_not_lt : (a b : V) → s.lt a b ≡ false → s.le b a ≡ true
  pub abs_nonneg : (a : V) → s.le s.zero_value (s.abs a) ≡ true
  pub mul_zero : (a : V) → s.mul a s.zero_value ≡ s.zero_value
  pub mul_mono :
      (u a b : V)
      → s.le s.zero_value u ≡ true
      → s.le a b ≡ true
      → s.le (s.mul u a) (s.mul u b) ≡ true
