-- ===== src/Front/Choose.antt =====
-- solver/src/pivoting.cpp and solver/include/smf/pivoting.hpp: choose_pivot, which reads the front
-- and changes nothing.
pub mod Maxima
pub mod Laws
mod Tests
use opt_solver.Base.{
  ℕ, zero, suc, ◌+◌, ◌-◌, Bool, true, false, not, ◌&&◌, ◌||◌, ltb, leb, ◌==◌, if◌then◌else◌, Option,
  some, none,
}
use opt_solver.Base.Ints.{ℤ, pos, negsuc}
use opt_solver.Front.Matrix.{Entries}
use opt_solver.Front.Scalar.{Scalar, max_v}

pub data PivotDecision : Type 0 where
  accept1x1 accept2x2 reject : PivotDecision

pub record PivotResult : Type 0 where
  pub decision : PivotDecision
  pub col0 : ℤ
  pub col1 : ℤ

abbrev pub rejected : PivotResult
rejected = record { decision = PivotDecision.reject; col0 = negsuc 0; col1 = negsuc 0 }

abbrev pub one_by_one : ℕ → PivotResult
one_by_one c = record { decision = PivotDecision.accept1x1; col0 = pos c; col1 = negsuc 0 }

abbrev pub two_by_two : ℕ → ℕ → PivotResult
two_by_two k r = record { decision = PivotDecision.accept2x2; col0 = pos k; col1 = pos r }

-- A maximum and the row it was found in.
pub record Maximum (V : Type 0) : Type 0 where
  pub value : V
  pub row : ℕ

module _ {V : Type 0} (s : Scalar V) where
  open s use {zero_value, abs, is_finite, lt, le, add, sub, mul, div}

  -- for i: v = |at(i)|; `none` if v is not finite, else the greater of v and m
  unfoldable pub finite_max : (ℕ → V) → ℕ → ℕ → V → Option V
  finite_max at zero i m = some m
  finite_max at (suc rounds) i m =
      let v = abs (at i) in
      let rest = finite_max at rounds (suc i) (if lt m v then v else m) in
      if not (is_finite v) then none else rest

  unfoldable pub front_max : Entries V → ℕ → ℕ → ℕ → V → Option V
  unfolding finite_max
  front_max f size zero j m = some m
  front_max f size (suc rounds) j m = elim (finite_max (λ i. f i j) (size - j) j m) [
    | none ↦ none
    | some m' ↦ front_max f size rounds (suc j) m'
  ]

  -- for i: v = |at(i)|; if (v > m) m = v
  unfoldable pub max_from : (ℕ → V) → ℕ → ℕ → V → V
  max_from at zero i m = m
  max_from at (suc rounds) i m =
      let v = abs (at i) in max_from at rounds (suc i) (if lt m v then v else m)

  -- The same, with the row of the maximum.
  unfoldable pub argmax_from : (ℕ → V) → ℕ → ℕ → Maximum V → Maximum V
  argmax_from at zero i m = m
  argmax_from at (suc rounds) i m =
      let v = abs (at i) in
      argmax_from at rounds (suc i) (if lt m.value v then record { value = v; row = i } else m)

  -- The same over the rows for which `skip` does not hold.
  unfoldable pub max_but : (ℕ → Bool) → (ℕ → V) → ℕ → ℕ → V → V
  max_but skip at zero i m = m
  max_but skip at (suc rounds) i m =
      let v = abs (at i) in
      max_but skip at rounds (suc i) (if skip i then m else if lt m v then v else m)

  unfoldable pub scaled_det_2x2 : V → V → V → V × V
  scaled_det_2x2 d00 d10 d11 =
      let m0 = abs d00 in
      let m1 = if lt m0 (abs d10) then abs d10 else m0 in
      let m = if lt m1 (abs d11) then abs d11 else m1 in
      let is_zero = le m zero_value && le zero_value m in
      let a = div d00 m in
      let b = div d10 m in
      let c = div d11 m in
      (if not (is_finite m) || is_zero then zero_value else sub (mul a c) (mul b b), m)

  module _ (f : Entries V) (front_size num_fs : ℕ) where
    -- Row i of column c, read in the stored triangle among the fully summed columns.
    abbrev pub entry : ℕ → ℕ → V
    entry c i = if ltb i num_fs then (if ltb i c then f c i else f i c) else f i c

    abbrev pub is_greater : V → Bool
    is_greater v = lt zero_value v

    unfoldable pub two_by_two_ok : ℕ → ℕ → V → V → V → Bool
    unfolding scaled_det_2x2 max_but
    two_by_two_ok k r u small eff_small =
        let d00 = f k k in
        let d10 = f r k in
        let d11 = f r r in
        let det = (scaled_det_2x2 d00 d10 d11).0 in
        let s2 = (scaled_det_2x2 d00 d10 d11).1 in
        let is_pivot : ℕ → Bool = λ i. i == k || i == r in
        let off_k = max_but is_pivot (entry k) (front_size - k) k zero_value in
        let off_r = max_but is_pivot (entry r) (front_size - k) k zero_value in
        let a = div (abs d00) s2 in
        let b = div (abs d10) s2 in
        let c = div (abs d11) s2 in
        let bound0 = div (add (mul c off_k) (mul b off_r)) s2 in
        let bound1 = div (add (mul b off_k) (mul a off_r)) s2 in
        if lt s2 eff_small || le (abs det) small
        then false
        else if (is_greater off_k || is_greater off_r)
            && lt (abs det) (mul u (max_v s bound0 bound1))
        then false
        else true

    abbrev pub effective_small : V → V → V
    effective_small max_abs small =
        if is_greater max_abs && lt max_abs small then mul small max_abs else small

    -- The choice at column k, once the front is known to be finite.
    unfoldable pub choose_finite : ℕ → V → V → V → PivotResult
    unfolding max_from argmax_from max_but two_by_two_ok
    choose_finite k u small eff_small =
        let first =
          argmax_from (λ i. f i k) (num_fs - (k + 1)) (k + 1)
            (record { value = zero_value; row = k + 1 }) in
        let omega1_ext = max_from (λ i. f i k) (front_size - num_fs) num_fs zero_value in
        let omega1_full = max_v s first.value omega1_ext in
        let akk = abs (f k k) in
        let r = first.row in
        let omega2_in =
          max_but (λ i. i == r) (λ i. if ltb i r then f r i else f i r) (num_fs - k) k zero_value in
        let omega2 = max_from (λ i. f i r) (front_size - num_fs) num_fs omega2_in in
        let arr = abs (f r r) in
        let none_below = le first.value zero_value && le zero_value first.value in
        if none_below || leb num_fs (k + 1)
        then (if lt akk eff_small || is_greater omega1_full && lt akk (mul u omega1_full)
            then rejected
            else one_by_one k)
        else if le eff_small akk && le (mul u omega1_full) akk
        then one_by_one k
        else if two_by_two_ok k r u small eff_small
        then two_by_two k r
        else if le eff_small arr && le (mul u omega2) arr
        then one_by_one r
        else rejected

    unfoldable pub choose_pivot : ℤ → V → V → PivotResult
    unfolding front_max choose_finite
    choose_pivot (negsuc k) u small = rejected
    choose_pivot (pos k) u small =
        let chosen : PivotResult = elim (front_max f front_size (num_fs - k) k zero_value) [
          | none ↦ rejected
          | some max_abs ↦ choose_finite k u small (effective_small max_abs small)
        ] in
        if leb num_fs k then rejected else chosen
