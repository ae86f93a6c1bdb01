-- ===== src/CApi/Tests.antt =====
-- solver/src/smf_c.cpp over a solver that records its calls, on a matrix with a duplicate entry.
use opt_solver.Base.{
  ℕ, ◌+◌, max, ◌≡◌, ◌≢◌, refl, Bool, true, false, List, [], ◌∷◌, length, some, none, arith,
}
use opt_solver.Base.Ints.{pos}
use opt_solver.Matrix.Csc.{ErrorCode, CscLower}
use opt_solver.Values.{
  ValueMaps, Arrays, Mapped, scatter_add, to_clean, store_clean, map_checked,
  map_values_to_permuted, all_finite, max_of,
}
use opt_solver.CApi.{
  ok, Pivoting, threshold, static, FactorStatus, Inertia, SolverCalls, CscArrays, Analysis,
  FactorHandle,
}
use opt_solver.CApi.Analyse.{analyse_result, analyse_arrays, analyse_csc, smf_analyse}
use opt_solver.CApi.Factor.{
  FactorCall, cleaned_values, set_values, factor_handle, by_status, factor_result, factor_checked,
  smf_factor,
}
use opt_solver.CApi.Solve.{refine_solved, solve_result, solve_checked, solve_sized, smf_solve}
use opt_solver.CApi.Outcome.{IsWritten, smf_factor-IsWritten, smf_analyse-IsWritten}
use opt_solver.CApi.Refine.{smf_factor-map_values_to_permuted}

abbrev entry_maps : ValueMaps
entry_maps = record {
  n = pos 2;
  orig_col_ptr = pos 0 ∷ pos 2 ∷ pos 3 ∷ [];
  orig_row_idx = pos 0 ∷ pos 0 ∷ pos 1 ∷ [];
  cleaned_col_ptr = pos 0 ∷ pos 1 ∷ pos 2 ∷ [];
  cleaned_row_idx = pos 0 ∷ pos 1 ∷ [];
  perm_col_ptr = 0 ∷ 1 ∷ 2 ∷ [];
  orig_to_clean_idx = pos 0 ∷ pos 0 ∷ pos 1 ∷ [];
  orig_to_perm_direct = pos 0 ∷ pos 0 ∷ pos 1 ∷ [];
  orig_to_perm_idx = [];
}

abbrev two_positive : Inertia
two_positive = record { positive = 2; negative = 0; zeros = 0 }

-- A factor is whether it was made by static pivoting, and a refinement marks the solution.
abbrev calls : SolverCalls ℕ ValueMaps Bool (List ℕ)
calls = record {
  zero_value = 0;
  add = λ a b. a + b;
  is_finite = λ v. true;
  max_with_abs = λ m v. max m v;
  analyse = λ a. some (some entry_maps, ErrorCode.success);
  factor = λ keep values type pivoting. (
    keep,
    some (record {
      result = FactorStatus.success;
      code = ErrorCode.success;
      inertia = two_positive;
      keep = elim pivoting [ threshold ↦ false | static ↦ true ];
    }),
  );
  solve = λ f b n nrhs job. (b, some (true, ErrorCode.success));
  refine = λ m f b x nrhs. (m, true);
  maps = λ keep. keep;
  static_path = λ f. f;
  refinement_advised = λ f. f;
  prepare_refine_matrix = λ keep. some (0 ∷ 0 ∷ []);
  set_refine_values = λ values m. values;
  slots = λ m. length m;
  order = λ m. pos 2;
}

abbrev analysis : Pivoting → Analysis ValueMaps
analysis p = record { keep = entry_maps; n = pos 2; nnz = 3; pivoting = p }

abbrev csc : CscArrays ℕ
csc = record {
  n = pos 2;
  col_ptr = some (pos 0 ∷ pos 2 ∷ pos 3 ∷ []);
  row_idx = some (pos 0 ∷ pos 0 ∷ pos 1 ∷ []);
  values = some (1 ∷ 1 ∷ 1 ∷ []);
}

analyses : smf_analyse calls (some csc) (some none) ≡ some (ok, some (some (analysis threshold)))
unfolding smf_analyse analyse_csc analyse_arrays analyse_result
analyses = refl

abbrev handle : FactorHandle Bool (List ℕ)
handle = record { keep = true; inertia = two_positive; refine = some (7 ∷ 5 ∷ []) }

abbrev static_call : FactorCall ValueMaps Bool (List ℕ)
static_call = record { status = ok; analysis = some (analysis static); out = some (some handle) }

factors :
    smf_factor calls (some (analysis static)) (some (3 ∷ 4 ∷ 5 ∷ [])) (pos 1) (some none)
    ≡ some static_call
unfolding smf_factor factor_checked factor_result by_status factor_handle cleaned_values set_values
    to_clean scatter_add
factors = refl

refines_solution :
    smf_solve calls (some (analysis static)) (some handle) (pos 1) (some (1 ∷ 2 ∷ [])) (pos 0)
    ≡ some (ok, some (7 ∷ 5 ∷ []))
unfolding smf_solve solve_sized solve_checked solve_result refine_solved
refines_solution = refl

forward_only :
    smf_solve calls (some (analysis static)) (some handle) (pos 1) (some (1 ∷ 2 ∷ [])) (pos 1)
    ≡ some (ok, some (1 ∷ 2 ∷ []))
unfolding smf_solve solve_sized solve_checked solve_result refine_solved
forward_only = refl

abbrev stored : List ℕ
stored = 7 ∷ 5 ∷ []

abbrev empty_arrays : Arrays ℕ
empty_arrays = record { clean_values = []; perm_values = [] }

abbrev mapped : Mapped ℕ
mapped = record {
  code = ErrorCode.success;
  ws = record { clean_values = 7 ∷ 5 ∷ []; perm_values = 0 ∷ 0 ∷ [] };
  max_abs = 5;
}

maps_values :
    map_values_to_permuted 0
      (λ a b. a + b)
      (λ v. true)
      (λ m v. max m v)
      entry_maps
      (record { array = some (3 ∷ 4 ∷ 5 ∷ []); original_layout = true })
      empty_arrays
      true
      true
    ≡ some mapped
unfolding map_values_to_permuted map_checked store_clean to_clean scatter_add all_finite max_of
maps_values = refl

analyse_reports :
    (a : CscLower ℕ) (code : ErrorCode)
    → calls.analyse a ≡ some (none, code)
    → code ≢ ErrorCode.success
analyse_reports a code e h = ground arith

smf_analyse-IsWritten_example : IsWritten ok (some none) (some (some (analysis threshold)))
smf_analyse-IsWritten_example =
    smf_analyse-IsWritten calls analyse_reports (some csc) (some none)
      (ok, some (some (analysis threshold))) analyses

smf_factor-IsWritten_example : IsWritten ok (some none) (some (some handle))
smf_factor-IsWritten_example =
    smf_factor-IsWritten calls (some (analysis static)) (some (3 ∷ 4 ∷ 5 ∷ [])) (pos 1) (some none)
      static_call factors

smf_factor-map_values_to_permuted_example :
    (m0 : List ℕ) × (calls.prepare_refine_matrix entry_maps ≡ some m0)
    × (stored ≡ calls.set_refine_values stored m0)
    × (2 ≡ length m0)
smf_factor-map_values_to_permuted_example =
    smf_factor-map_values_to_permuted calls (analysis static) (3 ∷ 4 ∷ 5 ∷ []) (pos 1) none
      (analysis static) handle (7 ∷ 5 ∷ []) (3 ∷ 4 ∷ 5 ∷ []) empty_arrays true mapped 1 factors refl
      refl refl maps_values refl
