-- ===== src/Front/Eliminate.antt =====
-- solver/src/pivoting.cpp: solve_2x2_scaled, apply_pivot_1x1 and apply_pivot_2x2.
pub mod Laws
mod Tests
use opt_solver.Base.{ℕ, zero, suc, ◌+◌, ◌-◌, Bool, true, false, not, ◌&&◌, ◌||◌, if◌then◌else◌}
use opt_solver.Front.Matrix.{Entries, put}
use opt_solver.Front.Scalar.{Scalar, max_v}
use opt_solver.Front.Choose.{scaled_det_2x2}

-- y0, y1 and the returned flag.
pub record Solution (V : Type 0) : Type 0 where
  pub y0 : V
  pub y1 : V
  pub ok : Bool

module _ {V : Type 0} (s : Scalar V) (neg : V → V) where
  open s use {zero_value, abs, is_finite, le, add, sub, mul, div}

  -- v == 0.0
  abbrev pub is_zero : V → Bool
  is_zero v = le v zero_value && le zero_value v

  unfoldable pub solve_2x2_scaled : V → V → V → V → V → Solution V
  unfolding scaled_det_2x2
  solve_2x2_scaled d00 d10 d11 rhs0 rhs1 =
      let det = (scaled_det_2x2 s d00 d10 d11).0 in
      let scale = (scaled_det_2x2 s d00 d10 d11).1 in
      let rhs_scale = max_v s (abs rhs0) (abs rhs1) in
      let a = div d00 scale in
      let b = div d10 scale in
      let c = div d11 scale in
      let r0 = div rhs0 rhs_scale in
      let r1 = div rhs1 rhs_scale in
      let u0 = div (sub (mul c r0) (mul b r1)) det in
      let u1 = div (add (mul (neg b) r0) (mul a r1)) det in
      let ratio = div rhs_scale scale in
      if is_zero scale || (not (is_finite det) || is_zero det)
      then record { y0 = zero_value; y1 = zero_value; ok = false }
      else if not (is_finite rhs0) || not (is_finite rhs1)
      then record { y0 = rhs0; y1 = rhs1; ok = false }
      else if is_zero rhs_scale
      then record { y0 = zero_value; y1 = zero_value; ok = true }
      else record {
        y0 = mul u0 ratio;
        y1 = mul u1 ratio;
        ok = is_finite (mul u0 ratio) && is_finite (mul u1 ratio);
      }

  -- for i: at(i, k) /= d
  unfoldable pub divide_column : ℕ → V → ℕ → ℕ → Entries V → Entries V
  divide_column k d zero i f = f
  divide_column k d (suc rounds) i f = divide_column k d rounds (suc i) (put f i k (div (f i k) d))

  -- for i: at(i, j) -= change(at, i)
  unfoldable pub update_column : ℕ → (Entries V → ℕ → V) → ℕ → ℕ → Entries V → Entries V
  update_column j change zero i f = f
  update_column j change (suc rounds) i f =
      update_column j change rounds (suc i) (put f i j (sub (f i j) (change f i)))

  -- for j: w = weight(at, j), then the update of column j from row j on
  unfoldable pub update_columns :
      ℕ → (Entries V → ℕ → Entries V → ℕ → V) → ℕ → ℕ → Entries V → Entries V
  unfolding update_column
  update_columns front_size change zero j f = f
  update_columns front_size change (suc rounds) j f =
      update_columns front_size change rounds (suc j)
        (update_column j (change f j) (front_size - j) j f)

  -- l_ik * (d * l_jk)
  abbrev pub change_1x1 : ℕ → V → Entries V → ℕ → Entries V → ℕ → V
  change_1x1 k d f j g i = mul (g i k) (mul d (f j k))

  unfoldable pub apply_pivot_1x1 : ℕ → ℕ → ℕ → Entries V → Entries V
  unfolding divide_column update_columns
  apply_pivot_1x1 front_size k num_fs f =
      let d = f k k in
      update_columns front_size (change_1x1 k d) (num_fs - (k + 1)) (k + 1)
        (divide_column k d (front_size - (k + 1)) (k + 1) f)

  -- for i: the two entries of row i become the solution of the 2x2 system
  unfoldable pub solve_rows : ℕ → V → V → V → ℕ → ℕ → Entries V → Entries V
  unfolding solve_2x2_scaled
  solve_rows k d00 d10 d11 zero i f = f
  solve_rows k d00 d10 d11 (suc rounds) i f =
      let l = solve_2x2_scaled d00 d10 d11 (f i k) (f i (k + 1)) in
      solve_rows k d00 d10 d11 rounds (suc i) (put (put f i k l.y0) i (k + 1) l.y1)

  -- l_i0 * w_j0 + l_i1 * w_j1
  abbrev pub change_2x2 : ℕ → V → V → V → Entries V → ℕ → Entries V → ℕ → V
  change_2x2 k d00 d10 d11 f j g i =
      add (mul (g i k) (add (mul d00 (f j k)) (mul d10 (f j (k + 1)))))
        (mul (g i (k + 1)) (add (mul d10 (f j k)) (mul d11 (f j (k + 1)))))

  unfoldable pub apply_pivot_2x2 : ℕ → ℕ → ℕ → V → Entries V → Entries V
  unfolding scaled_det_2x2 solve_rows update_columns
  apply_pivot_2x2 front_size k num_fs small f =
      let d00 = f k k in
      let d10 = f (k + 1) k in
      let d11 = f (k + 1) (k + 1) in
      let det = (scaled_det_2x2 s d00 d10 d11).0 in
      let scale = (scaled_det_2x2 s d00 d10 d11).1 in
      let solved = solve_rows k d00 d10 d11 (front_size - (k + 2)) (k + 2) f in
      let updated =
        update_columns front_size (change_2x2 k d00 d10 d11) (num_fs - (k + 2)) (k + 2) solved in
      if is_zero scale || le (abs det) small then f else updated
