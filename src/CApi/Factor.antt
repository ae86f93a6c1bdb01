-- ===== src/CApi/Factor.antt =====
-- solver/src/smf_c.cpp: smf_factor.
use opt_solver.Base.{
  is_empty, zero, suc, not, ◌&&◌, List, ◌==◌, if◌then◌else◌, length, Option, some, none,
}
use opt_solver.Base.Ints.{ℤ, pos, negsuc}
use opt_solver.Matrix.Csc.{ErrorCode, ◌>>=◌}
use opt_solver.Values.{ValueMaps, to_clean}
use opt_solver.Dispatch.{MatrixType}
use opt_solver.CApi.{
  Status, ok, invalid_arg, internal, Pivoting, threshold, FactorStatus, not_positive_definite,
  max_pivot_delays, Inertia, Factored, SolverCalls, Analysis, FactorHandle, first_values, Returned,
  write_out,
}

-- What smf_factor returns, with the analysis it may have changed.
pub record FactorCall (Keep F R : Type 0) : Type 0 where
  pub status : Status
  pub analysis : Option (Analysis Keep)
  pub out : Option (Option (FactorHandle F R))

module _ {V Keep F R : Type 0} (s : SolverCalls V Keep F R) where
  -- SMF_POSDEF is 0 and SMF_INDEF 1.
  abbrev pub matrix_type : ℤ → Option MatrixType
  matrix_type (pos zero) = some MatrixType.real_symmetric_positive_definite
  matrix_type (pos (suc zero)) = some MatrixType.real_symmetric_indefinite
  matrix_type (pos (suc (suc m))) = none
  matrix_type (negsuc m) = none

  -- Control::pivoting, whose default is Threshold.
  abbrev pub policy : MatrixType → Pivoting → Pivoting
  policy MatrixType.real_symmetric_positive_definite pivoting = threshold
  policy MatrixType.real_symmetric_indefinite pivoting = pivoting

  unfoldable pub factor_error : FactorStatus → ErrorCode → Status
  factor_error fs code = elim code [
    | ErrorCode.illegal_value ↦ invalid_arg
    | _ ↦ elim fs [
      | FactorStatus.singular ↦ Status.singular
      | not_positive_definite ↦ Status.singular
      | _ ↦ internal
    ]
  ]

  -- cv: the factor_result values in the cleaned pattern; an inner none is SMF_ERR_INTERNAL.
  unfoldable pub cleaned_values : ValueMaps → List V → Option (Option (List V))
  unfolding to_clean
  cleaned_values ak values =
      let summed = to_clean s.zero_value s.add s.is_finite s.max_with_abs ak values in
      if is_empty ak.orig_to_clean_idx
      then some (some values)
      else if not (length ak.orig_to_clean_idx == length values)
      then some none
      else (do cv ← summed; some (some cv))

  -- The factor_result matrix for the refinement of static-path factors.
  unfoldable pub set_values : Option (List V) → Option R → Option R
  set_values none m = none
  set_values (some cv) none = none
  set_values (some cv) (some m) =
      if length cv == s.slots m then some (s.set_refine_values cv m) else none

  -- The handle of a successful factorization, an inner none where it is SMF_ERR_INTERNAL.
  unfoldable pub factor_handle : Keep → List V → F → Inertia → Option (Option (FactorHandle F R))
  unfolding cleaned_values set_values
  factor_handle keep values fkeep inertia =
      let plain : FactorHandle F R = record { keep = fkeep; inertia = inertia; refine = none } in
      if s.static_path fkeep && s.refinement_advised fkeep
      then (do
        cv ← cleaned_values (s.maps keep) values
        some (elim (set_values cv (s.prepare_refine_matrix keep)) [
          | none ↦ none
          | some m ↦ some (record plain { refine = some m })
        ]))
      else some (some plain)

  abbrev pub give_handle : Option (FactorHandle F R) → Returned (FactorHandle F R)
  give_handle none = record { status = internal; out = none }
  give_handle (some h) = record { status = ok; out = some h }

  abbrev pub refuse : Status → Returned (FactorHandle F R)
  refuse status = record { status = status; out = none }

  -- On Success the handle, or the error of the status and of info.status.
  unfoldable pub by_status :
      FactorStatus → Keep → List V → Factored F → Option (Returned (FactorHandle F R))
  unfolding factor_error factor_handle
  by_status FactorStatus.success keep values f = do
    h ← factor_handle keep values f.keep f.inertia
    some (give_handle h)
  by_status not_positive_definite keep values f =
      some (refuse (factor_error not_positive_definite f.code))
  by_status FactorStatus.singular keep values f =
      some (refuse (factor_error FactorStatus.singular f.code))
  by_status max_pivot_delays keep values f = some (refuse (factor_error max_pivot_delays f.code))
  by_status FactorStatus.inertia_exceeded keep values f =
      some (refuse (factor_error FactorStatus.inertia_exceeded f.code))

  unfoldable pub factor_result :
      Keep → List V → Option (Factored F) → Option (Returned (FactorHandle F R))
  unfolding by_status
  factor_result keep values none = some (refuse internal)
  factor_result keep values (some f) = by_status f.result keep values f

  unfoldable pub factor_checked :
      Analysis Keep → List V → MatrixType → Option (FactorHandle F R) → Option (FactorCall Keep F R)
  unfolding factor_result
  factor_checked a values mtype old = do
    vals ← first_values a.nnz values
    let called = s.factor a.keep vals mtype (policy mtype a.pivoting)
    r ← factor_result called.0 vals called.1
    some (record {
      status = r.status;
      analysis = some (record a { keep = called.0 });
      out = some (write_out r.out old);
    })

  unfoldable pub smf_factor :
      Option (Analysis Keep)
      → Option (List V)
      → ℤ
      → Option (Option (FactorHandle F R))
      → Option (FactorCall Keep F R)
  unfolding factor_checked
  smf_factor none values mtype out =
      some (record { status = invalid_arg; analysis = none; out = out })
  smf_factor (some a) none mtype out =
      some (record { status = invalid_arg; analysis = some a; out = out })
  smf_factor (some a) (some values) mtype none =
      some (record { status = invalid_arg; analysis = some a; out = none })
  smf_factor (some a) (some values) mtype (some old) = elim (matrix_type mtype) [
    | none ↦ some (record { status = invalid_arg; analysis = some a; out = some old })
    | some type ↦ factor_checked a values type old
  ]
