-- ===== src/CApi/Solve.antt =====
-- solver/src/smf_c.cpp: smf_solve.
use opt_solver.Base.{ℕ, zero, suc, ◌*◌, Bool, true, false, List, if◌then◌else◌, Option, some, none}
use opt_solver.Base.Ints.{ℤ, pos, negsuc, pos_part, eqz}
use opt_solver.Matrix.Csc.{ErrorCode, ◌>>=◌}
use opt_solver.CApi.{
  Status, ok, invalid_arg, internal, SolveJob, full, forward, backward, SolverCalls, Analysis,
  FactorHandle, first_values,
}

module _ {V Keep F R : Type 0} (s : SolverCalls V Keep F R) where
  -- SMF_SOLVE_FULL is 0, SMF_SOLVE_FORWARD 1 and SMF_SOLVE_BACKWARD 3.
  abbrev pub solve_job : ℤ → Option SolveJob
  solve_job (pos zero) = some full
  solve_job (pos (suc zero)) = some forward
  solve_job (pos (suc (suc zero))) = none
  solve_job (pos (suc (suc (suc zero)))) = some backward
  solve_job (pos (suc (suc (suc (suc j))))) = none
  solve_job (negsuc j) = none

  -- The matrix to refine against: a full solve with a factor that has one of the analyse_result order.
  abbrev pub refines : ℤ → SolveJob → Option R → Option R
  refines n full none = none
  refines n full (some m) = if eqz (s.order m) n then some m else none
  refines n forward m = none
  refines n backward m = none

  -- What follows the first call of Solver::solve; `b` is the copy of the right-hand sides.
  unfoldable pub refine_solved : F → ℕ → Option (R × List V) → List V → Status × List V
  refine_solved fkeep nrhs none x = (ok, x)
  refine_solved fkeep nrhs (some (m, b)) x =
      let done = s.refine m fkeep b x nrhs in (if done.1 then ok else internal, done.0)

  unfoldable pub solve_result :
      F → ℕ → Option (R × List V) → List V × Option (Bool × ErrorCode) → Status × List V
  unfolding refine_solved
  solve_result fkeep nrhs refinement (x, none) = (internal, x)
  solve_result fkeep nrhs refinement (x, some (true, code)) = refine_solved fkeep nrhs refinement x
  solve_result fkeep nrhs refinement (x, some (false, code)) =
      (elim code [ ErrorCode.illegal_value ↦ invalid_arg | _ ↦ internal ], x)

  -- b.assign(rhs, rhs + len)
  abbrev pub copy_for : ℕ → List V → Option R → Option (Option (R × List V))
  copy_for len rhs none = some none
  copy_for len rhs (some m) = do b ← first_values len rhs; some (some (m, b))

  unfoldable pub solve_checked :
      Analysis Keep → FactorHandle F R → ℕ → List V → SolveJob → Option (Status × List V)
  unfolding solve_result
  solve_checked a f nrhs rhs job = do
    refinement ← copy_for (pos_part a.n * nrhs) rhs (refines a.n job f.refine)
    some (solve_result f.keep nrhs refinement (s.solve f.keep rhs a.n nrhs job))

  unfoldable pub solve_sized :
      Analysis Keep → FactorHandle F R → ℤ → List V → ℤ → Option (Status × List V)
  unfolding solve_checked
  solve_sized a f (negsuc k) rhs job = some (invalid_arg, rhs)
  solve_sized a f (pos zero) rhs job = some (invalid_arg, rhs)
  solve_sized a f (pos (suc k)) rhs job = elim (solve_job job) [
    | none ↦ some (invalid_arg, rhs)
    | some j ↦ solve_checked a f (suc k) rhs j
  ]

  -- The right-hand sides are those behind the pointer, none for a null pointer.
  unfoldable pub smf_solve :
      Option (Analysis Keep)
      → Option (FactorHandle F R)
      → ℤ
      → Option (List V)
      → ℤ
      → Option (Status × Option (List V))
  unfolding solve_sized
  smf_solve none f nrhs rhs job = some (invalid_arg, rhs)
  smf_solve (some a) none nrhs rhs job = some (invalid_arg, rhs)
  smf_solve (some a) (some f) nrhs none job = some (invalid_arg, none)
  smf_solve (some a) (some f) nrhs (some rhs) job = do
    r ← solve_sized a f nrhs rhs job
    some (r.0, some r.1)
