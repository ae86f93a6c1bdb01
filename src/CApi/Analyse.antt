-- ===== src/CApi/Analyse.antt =====
-- solver/src/smf_c.cpp: smf_analyse.
use opt_solver.Base.{ℕ, suc, not, ◌||◌, List, if◌then◌else◌, get_elem?, Option, some, none}
use opt_solver.Base.Ints.{ℤ, pos, negsuc, pos_part, ltz, eqz}
use opt_solver.Matrix.Csc.{ErrorCode, ◌>>=◌}
use opt_solver.CApi.{
  Status, ok, invalid_arg, internal, threshold, SolverCalls, CscArrays, Analysis, map_error,
  first_values, Returned, write_out,
}

module _ {V Keep F R : Type 0} (s : SolverCalls V Keep F R) where
  unfoldable pub analyse_result :
      ℤ → ℕ → Option (Option Keep × ErrorCode) → Returned (Analysis Keep)
  unfolding map_error
  analyse_result n nnz none = record { status = internal; out = none }
  analyse_result n nnz (some (none, code)) = record { status = map_error code; out = none }
  analyse_result n nnz (some (some keep, code)) = record {
    status = ok;
    out = some (record { keep = keep; n = n; nnz = nnz; pivoting = threshold });
  }

  abbrev pub bad_arrays : Returned (Analysis Keep)
  bad_arrays = record { status = invalid_arg; out = none }

  -- The body of smf_analyse on arrays that are there.
  unfoldable pub analyse_arrays : ℕ → List ℤ → List ℤ → List V → Option (Returned (Analysis Keep))
  unfolding analyse_result
  analyse_arrays n col_ptr row_idx values = do
    nnz ← get_elem? col_ptr n
    first ← get_elem? col_ptr 0
    if not (eqz first (pos 0)) || ltz nnz (pos 0) then some bad_arrays else (do
      cols ← first_values (suc n) col_ptr
      rows ← first_values (pos_part nnz) row_idx
      vals ← first_values (pos_part nnz) values
      some (
          analyse_result (pos n) (pos_part nnz)
            (s.analyse (record { n = pos n; col_ptr = cols; row_idx = rows; values = vals }))))

  unfoldable pub analyse_csc :
      ℤ → Option (List ℤ) → Option (List ℤ) → Option (List V) → Option (Returned (Analysis Keep))
  unfolding analyse_arrays
  analyse_csc (negsuc n) col_ptr row_idx values = some bad_arrays
  analyse_csc (pos n) none row_idx values = some bad_arrays
  analyse_csc (pos n) (some col_ptr) none values = some bad_arrays
  analyse_csc (pos n) (some col_ptr) (some row_idx) none = some bad_arrays
  analyse_csc (pos n) (some col_ptr) (some row_idx) (some values) =
      analyse_arrays n col_ptr row_idx values

  unfoldable pub smf_analyse :
      Option (CscArrays V)
      → Option (Option (Analysis Keep))
      → Option (Status × Option (Option (Analysis Keep)))
  unfolding analyse_csc
  smf_analyse none out = some (invalid_arg, out)
  smf_analyse (some csc) none = some (invalid_arg, none)
  smf_analyse (some csc) (some old) = do
    r ← analyse_csc csc.n csc.col_ptr csc.row_idx csc.values
    some (r.status, some (write_out r.out old))
