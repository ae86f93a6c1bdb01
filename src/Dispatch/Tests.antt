-- ===== src/Dispatch/Tests.antt =====
-- The choice of path for a tridiagonal and for a diagonal matrix.
use opt_solver.Base.{ℕ, zero, suc, ◌+◌, ◌≤◌, ◌<◌, ◌≡◌, refl, Bool, false, List, [], ◌∷◌, min}
use opt_solver.Matrix.Csc.{Lower}
use opt_solver.Matrix.Csc.Shape.{row}
use opt_solver.Dispatch.{NativePath, MatrixType, OrderingMethod, Control, select_native_path}
use opt_solver.Dispatch.Laws.{InColumn, select_native_path-banded}

-- start, start + step, ...
abbrev stepping : ℕ → ℕ → ℕ → List ℕ
stepping zero step start = start ∷ []
stepping (suc rounds) step start = start ∷ stepping rounds step (start + step)

-- The rows j and j + 1 of column j; the last column has its diagonal twice.
abbrev next_rows : ℕ → ℕ → List ℕ
next_rows zero j = []
next_rows (suc rounds) j = j ∷ min (j + 1) 99 ∷ next_rows rounds (j + 1)

abbrev tridiagonal : Lower ℕ
tridiagonal = record { n = 100; col_ptr = stepping 100 2 0; row_idx = next_rows 100 0; values = [] }

abbrev diagonal : Lower ℕ
diagonal = record { n = 17; col_ptr = stepping 17 1 0; row_idx = stepping 16 1 0; values = [] }

abbrev stored : ℕ → ℕ → ℕ
stored entries n = entries

abbrev never : ℕ → Bool
never d = false

abbrev definite : Control
definite = record {
  matrix_type = MatrixType.real_symmetric_positive_definite;
  ordering = OrderingMethod.auto_parallel;
  expected_refactors = 1;
}

abbrev repeated : Control
repeated = record {
  matrix_type = MatrixType.real_symmetric_indefinite;
  ordering = OrderingMethod.auto_serial;
  expected_refactors = 5;
}

tridiagonal_path :
    (select_native_path stored never tridiagonal definite 1).path ≡ NativePath.banded_spd
unfolding select_native_path
tridiagonal_path = refl

diagonal_path :
    (select_native_path stored never diagonal repeated 1).path ≡ NativePath.certified_quasi_definite
unfolding select_native_path
diagonal_path = refl

select_native_path-banded_example :
    (MatrixType.real_symmetric_positive_definite ≡ MatrixType.real_symmetric_positive_definite)
    × (100 ≤ 100)
    × ((j k : ℕ) → j < 100 → InColumn tridiagonal j k → row tridiagonal k ≤ j + 128)
select_native_path-banded_example =
    select_native_path-banded stored never tridiagonal definite 1 tridiagonal_path
