-- ===== src/CApi.antt =====
-- solver/src/smf_c.cpp and solver/include/smf/smf_c.h: the C interface. The solver that it wraps is the
-- parameter `SolverCalls`; an exception is `none` there, and what a call has written before is kept. A null
-- pointer is `none`, and a `**` or `*` output argument is the value that it points to, before and after
-- the call. An array of the caller is a list, and a read past its end a fault, the `none` of the result.
pub mod Analyse
pub mod Factor
pub mod Solve
pub mod Outcome
pub mod Refine
pub mod Policy
mod Tests
use opt_solver.Base.{
  ℕ, zero, suc, ◌*◌, Bool, true, false, not, ◌&&◌, ◌||◌, List, [], ◌∷◌, leb, ◌==◌, if◌then◌else◌,
  length, get_elem?, take, Option, some, none,
}
use opt_solver.Base.Ints.{ℤ, pos, negsuc, pos_part, ltz, eqz}
use opt_solver.Matrix.Csc.{ErrorCode, CscLower, ◌>>=◌}
use opt_solver.Dispatch.{MatrixType}
use opt_solver.Values.{ValueMaps, to_clean}

pub data Status : Type 0 where
  ok invalid_arg singular internal : Status

pub data Pivoting : Type 0 where
  threshold static : Pivoting

pub data FactorStatus : Type 0 where
  success not_positive_definite singular max_pivot_delays inertia_exceeded : FactorStatus

pub data SolveJob : Type 0 where
  full forward backward : SolveJob

pub record Inertia : Type 0 where
  pub positive : ℕ
  pub negative : ℕ
  pub zeros : ℕ

-- What Solver::factor returns, writes into info and makes of the factor.
pub record Factored (FactorKeep : Type 0) : Type 0 where
  pub result : FactorStatus
  pub code : ErrorCode
  pub inertia : Inertia
  pub keep : FactorKeep

-- Solver, its kept data and the functions on a RefineMatrix, with the arithmetic on the values.
pub record SolverCalls (V Keep FactorKeep RefineMatrix : Type 0) : Type 0 where
  pub zero_value : V
  pub add : V → V → V
  pub is_finite : V → Bool
  pub max_with_abs : V → V → V
  -- The pointer returned and info.status.
  pub analyse : CscLower V → Option (Option Keep × ErrorCode)
  -- The analysis afterwards, to which a re-analysis may be attached.
  pub factor : Keep → List V → MatrixType → Pivoting → Keep × Option (Factored FactorKeep)
  -- The right-hand sides afterwards, whether 0 is returned and info.status.
  pub solve : FactorKeep → List V → ℤ → ℕ → SolveJob → List V × Option (Bool × ErrorCode)
  -- The solution afterwards, and whether the call returns.
  pub refine : RefineMatrix → FactorKeep → List V → List V → ℕ → List V × Bool
  pub maps : Keep → ValueMaps
  pub static_path : FactorKeep → Bool
  pub refinement_advised : FactorKeep → Bool
  -- prepare_refine_matrix on the cleaned pattern, none where it is not Success
  pub prepare_refine_matrix : Keep → Option RefineMatrix
  pub set_refine_values : List V → RefineMatrix → RefineMatrix
  pub slots : RefineMatrix → ℕ
  pub order : RefineMatrix → ℤ

-- smf_csc_t
pub record CscArrays (V : Type 0) : Type 0 where
  pub n : ℤ
  pub col_ptr : Option (List ℤ)
  pub row_idx : Option (List ℤ)
  pub values : Option (List V)

-- smf_analysis_s
pub record Analysis (Keep : Type 0) : Type 0 where
  pub keep : Keep
  pub n : ℤ
  pub nnz : ℕ
  pub pivoting : Pivoting

-- smf_factor_s
pub record FactorHandle (FactorKeep RefineMatrix : Type 0) : Type 0 where
  pub keep : FactorKeep
  pub inertia : Inertia
  pub refine : Option RefineMatrix

unfoldable pub map_error : ErrorCode → Status
map_error ErrorCode.success = ok
map_error ErrorCode.singular_matrix = Status.singular
map_error ErrorCode.not_positive_definite = Status.singular
map_error ErrorCode.illegal_value = invalid_arg
map_error ErrorCode.not_initialised = invalid_arg
map_error ErrorCode.allocation_error = internal
map_error ErrorCode.max_iterations = internal
map_error ErrorCode.ordering_failed = internal
map_error ErrorCode.feature_not_available = internal
map_error ErrorCode.inertia_exceeded = internal
map_error ErrorCode.work_limit_exceeded = internal
map_error ErrorCode.internal_error = internal

-- The first k values of a caller's array.
abbrev pub first_values : {A : Type 0} → ℕ → List A → Option (List A)
first_values k xs = if leb k (length xs) then some (take k xs) else none

-- SMF_PIVOTING_THRESHOLD is 0 and SMF_PIVOTING_STATIC 1.
unfoldable pub smf_set_pivoting :
    {Keep : Type 0} → Option (Analysis Keep) → ℤ → Status × Option (Analysis Keep)
smf_set_pivoting none pivoting = (invalid_arg, none)
smf_set_pivoting (some a) (pos zero) = (ok, some (record a { pivoting = threshold }))
smf_set_pivoting (some a) (pos (suc zero)) = (ok, some (record a { pivoting = static }))
smf_set_pivoting (some a) (pos (suc (suc p))) = (invalid_arg, some a)
smf_set_pivoting (some a) (negsuc p) = (invalid_arg, some a)

unfoldable pub smf_inertia :
    {F R : Type 0} → Option (FactorHandle F R) → Option Inertia → Status × Option Inertia
smf_inertia none inertia = (invalid_arg, inertia)
smf_inertia (some f) none = (invalid_arg, none)
smf_inertia (some f) (some i) = (ok, some f.inertia)

-- smf_free_analysis and smf_free_factor
unfoldable pub smf_free : {A : Type 0} → Option (Option A) → Option (Option A)
smf_free none = none
smf_free (some handle) = some none

-- What a call returns and the value of its output argument afterwards.
pub record Returned (A : Type 0) : Type 0 where
  pub status : Status
  pub out : Option A

-- *out = h
abbrev pub write_out : {A : Type 0} → Option A → Option A → Option A
write_out none old = old
write_out (some h) old = some h
