-- ===== src/Matrix/Csc/Tests.antt =====
-- The shape check on concrete matrices.
use opt_solver.Base.{ℕ, ◌≡◌, refl, List, [], ◌∷◌, some}
use opt_solver.Base.Ints.{pos, negsuc}
use opt_solver.Matrix.Csc.{ErrorCode, Lower, to_csc, validate_shape, nnz}
use opt_solver.Matrix.Csc.Shape.{Shaped}
use opt_solver.Matrix.Csc.Verdict.{Verdict, signed, validate_shape_lem}

-- The pattern [x . .; x x .; . x x] with the values 1 to 5.
abbrev sample : Lower ℕ
sample = record {
  n = 3;
  col_ptr = 0 ∷ 2 ∷ 4 ∷ 5 ∷ [];
  row_idx = 0 ∷ 1 ∷ 1 ∷ 2 ∷ 2 ∷ [];
  values = 1 ∷ 2 ∷ 3 ∷ 4 ∷ 5 ∷ [];
}

sample_passes : validate_shape (to_csc sample) ≡ some ErrorCode.success
unfolding validate_shape
sample_passes = refl

sample-nnz : nnz sample ≡ 5
unfolding nnz
sample-nnz = refl

abbrev seven : List ℕ
seven = 7 ∷ []

abbrev sevens : List ℕ
sevens = 7 ∷ 7 ∷ []

-- An upper entry, and a pointer that falls.
refusals :
    (validate_shape (signed 2 (pos 0 ∷ pos 1 ∷ pos 2 ∷ []) (pos 0 ∷ pos 0 ∷ []) sevens)
      ≡ some ErrorCode.illegal_value)
    × (validate_shape (signed 1 (pos 0 ∷ negsuc 0 ∷ []) [] sevens) ≡ some ErrorCode.illegal_value)
unfolding validate_shape
refusals = (refl, refl)

validate_shape_lem_example :
    Verdict
      (Shaped (signed 1 (pos 0 ∷ pos 1 ∷ []) (pos 0 ∷ []) seven))
      (validate_shape (signed 1 (pos 0 ∷ pos 1 ∷ []) (pos 0 ∷ []) seven))
validate_shape_lem_example = validate_shape_lem 1 (pos 0 ∷ pos 1 ∷ []) (pos 0 ∷ []) seven
