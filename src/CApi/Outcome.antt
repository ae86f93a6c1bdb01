-- ===== src/CApi/Outcome.antt =====
-- solver/src/smf_c.cpp: the codes that smf_analyse and smf_factor return and when they give a handle.
use opt_solver.Base.{
  ℕ, zero, suc, not, ◌||◌, List, get_elem?, Option, some, none, Holds, if_both, ◌≡◌, ◌≢◌, ◌⊎◌, inl,
  inr, refl, ap, subst, arith,
}
use opt_solver.Base.Ints.{ℤ, pos, negsuc, pos_part, ltz, eqz}
use opt_solver.Matrix.Csc.{Holds-bind, ErrorCode, CscLower}
use opt_solver.Dispatch.{MatrixType}
use opt_solver.CApi.{
  Status, ok, invalid_arg, FactorStatus, not_positive_definite, max_pivot_delays, Factored,
  SolverCalls, CscArrays, Analysis, FactorHandle, map_error, first_values, Returned, write_out,
}
use opt_solver.CApi.Analyse.{analyse_result, bad_arrays, analyse_arrays, analyse_csc, smf_analyse}
use opt_solver.CApi.Factor.{
  FactorCall, policy, factor_error, factor_handle, give_handle, refuse, by_status, factor_result,
  factor_checked, smf_factor,
}

-- A handle is given with SMF_OK alone.
abbrev pub Gives : {A : Type 0} → Returned A → Type 0
Gives {A} r = ((r.status ≡ ok) × ((h : A) × (r.out ≡ some h))) ⊎ ((r.status ≢ ok) × (r.out ≡ none))

-- The output argument is written with SMF_OK alone.
abbrev pub IsWritten : {A : Type 0} → Status → Option (Option A) → Option (Option A) → Type 0
IsWritten {A} status old out =
    ((status ≡ ok) × ((h : A) × (out ≡ some (some h)))) ⊎ ((status ≢ ok) × (out ≡ old))

IsWritten-write_out :
    {A : Type 0} (r : Returned A) (old : Option A)
    → Gives r
    → IsWritten r.status (some old) (some (write_out r.out old))
IsWritten-write_out r old (inl (e, (h, f))) = inl (e, (h, ap (λ o. some (write_out o old)) f))
IsWritten-write_out r old (inr (e, f)) = inr (e, ap (λ o. some (write_out o old)) f)

invalid_not_ok : invalid_arg ≢ ok
invalid_not_ok e = ground arith

map_error_ok : (code : ErrorCode) → map_error code ≡ ok → code ≡ ErrorCode.success
unfolding map_error
map_error_ok code h = ground arith

module _ {V Keep F R : Type 0} (s : SolverCalls V Keep F R) where
  pub factor_error_not_ok : (fs : FactorStatus) (code : ErrorCode) → factor_error s fs code ≢ ok
  unfolding factor_error
  factor_error_not_ok fs code h = ground arith

  Gives-give_handle : (h : Option (FactorHandle F R)) → Gives (give_handle s h)
  Gives-give_handle none = inr (λ e. ground arith, refl)
  Gives-give_handle (some h) = inl (refl, (h, refl))

  Gives-refuse : (status : Status) → status ≢ ok → Gives (refuse s status)
  Gives-refuse status h = inr (h, refl)

  Gives-by_status :
      (fs : FactorStatus) (keep : Keep) (values : List V) (f : Factored F)
      → Holds Gives (by_status s fs keep values f)
  unfolding by_status
  Gives-by_status FactorStatus.success keep values f =
      Holds-bind Gives (factor_handle s keep values f.keep f.inertia) (λ h. some (give_handle s h))
        (λ h e. Gives-give_handle h)
  Gives-by_status not_positive_definite keep values f =
      Gives-refuse _ (factor_error_not_ok not_positive_definite f.code)
  Gives-by_status FactorStatus.singular keep values f =
      Gives-refuse _ (factor_error_not_ok FactorStatus.singular f.code)
  Gives-by_status max_pivot_delays keep values f =
      Gives-refuse _ (factor_error_not_ok max_pivot_delays f.code)
  Gives-by_status FactorStatus.inertia_exceeded keep values f =
      Gives-refuse _ (factor_error_not_ok FactorStatus.inertia_exceeded f.code)

  Gives-factor_result :
      (keep : Keep) (values : List V) (f : Option (Factored F))
      → Holds Gives (factor_result s keep values f)
  unfolding factor_result
  Gives-factor_result keep values none = inr (λ e. ground arith, refl)
  Gives-factor_result keep values (some f) = Gives-by_status f.result keep values f

  abbrev FactorWritten : Option (Option (FactorHandle F R)) → FactorCall Keep F R → Type 0
  FactorWritten old r = IsWritten r.status old r.out

  FactorWritten-checked :
      (a : Analysis Keep) (values : List V) (type : MatrixType) (old : Option (FactorHandle F R))
      → Holds (FactorWritten (some old)) (factor_checked s a values type old)
  unfolding factor_checked
  FactorWritten-checked a values type old =
      Holds-bind (FactorWritten (some old)) (first_values a.nnz values) _ (λ vals e.
        let called = s.factor a.keep vals type (policy s type a.pivoting) in
        Holds-bind (FactorWritten (some old)) (factor_result s called.0 vals called.1) _ (λ r f.
          IsWritten-write_out r old
            (subst (Holds Gives) f (Gives-factor_result called.0 vals called.1))))

  FactorWritten-smf_factor :
      (a : Option (Analysis Keep)) (values : Option (List V)) (mtype : ℤ)
      (out : Option (Option (FactorHandle F R)))
      → Holds (FactorWritten out) (smf_factor s a values mtype out)
  unfolding smf_factor
  FactorWritten-smf_factor none values mtype out = inr (invalid_not_ok, refl)
  FactorWritten-smf_factor (some a) none mtype out = inr (invalid_not_ok, refl)
  FactorWritten-smf_factor (some a) (some values) mtype none = inr (invalid_not_ok, refl)
  FactorWritten-smf_factor (some a) (some values) (pos zero) (some old) =
      FactorWritten-checked a values MatrixType.real_symmetric_positive_definite old
  FactorWritten-smf_factor (some a) (some values) (pos (suc zero)) (some old) =
      FactorWritten-checked a values MatrixType.real_symmetric_indefinite old
  FactorWritten-smf_factor (some a) (some values) (pos (suc (suc m))) (some old) =
      inr (invalid_not_ok, refl)
  FactorWritten-smf_factor (some a) (some values) (negsuc m) (some old) = inr (invalid_not_ok, refl)

  -- smf_factor that reads within its arrays returns SMF_OK and writes a handle behind `out`, or returns an
  -- error and leaves what is there.
  pub smf_factor-IsWritten :
      (a : Option (Analysis Keep)) (values : Option (List V)) (mtype : ℤ)
      (out : Option (Option (FactorHandle F R))) (r : FactorCall Keep F R)
      → smf_factor s a values mtype out ≡ some r
      → IsWritten r.status out r.out
  smf_factor-IsWritten a values mtype out r e =
      subst (Holds (FactorWritten out)) e (FactorWritten-smf_factor a values mtype out)

  abbrev AnalysisWritten :
      Option (Option (Analysis Keep)) → Status × Option (Option (Analysis Keep)) → Type 0
  AnalysisWritten old r = IsWritten r.0 old r.1

  module _
      (reports : (a : CscLower V) (code : ErrorCode)
        → s.analyse a ≡ some (none, code)
        → code ≢ ErrorCode.success) where
    Gives-analyse_result :
        (n : ℤ) (nnz : ℕ) (a : CscLower V) (r : Option (Option Keep × ErrorCode))
        → s.analyse a ≡ r
        → Gives (analyse_result s n nnz r)
    unfolding analyse_result
    Gives-analyse_result n nnz a none e = inr (λ f. ground arith, refl)
    Gives-analyse_result n nnz a (some (none, code)) e =
        inr (λ f. reports a code e (map_error_ok code f), refl)
    Gives-analyse_result n nnz a (some (some keep, code)) e = inl (refl, (_, refl))

    Gives-bad_arrays : Gives (bad_arrays s)
    Gives-bad_arrays = inr (invalid_not_ok, refl)

    Gives-analyse_arrays :
        (n : ℕ) (col_ptr row_idx : List ℤ) (values : List V)
        → Holds Gives (analyse_arrays s n col_ptr row_idx values)
    unfolding analyse_arrays
    Gives-analyse_arrays n col_ptr row_idx values =
        Holds-bind Gives (get_elem? col_ptr n) _ (λ nnz e.
          Holds-bind Gives (get_elem? col_ptr 0) _ (λ first f.
            if_both (Holds Gives) (not (eqz first (pos 0)) || ltz nnz (pos 0)) (some (bad_arrays s))
              _ (λ h. Gives-bad_arrays)
              (λ h. Holds-bind Gives (first_values (suc n) col_ptr) _ (λ cols g.
                Holds-bind Gives (first_values (pos_part nnz) row_idx) _ (λ rows g.
                  Holds-bind Gives (first_values (pos_part nnz) values) _
                    (λ vals g. Gives-analyse_result (pos n) (pos_part nnz) _ _ refl))))))

    Gives-analyse_csc :
        (n : ℤ) (col_ptr row_idx : Option (List ℤ)) (values : Option (List V))
        → Holds Gives (analyse_csc s n col_ptr row_idx values)
    unfolding analyse_csc
    Gives-analyse_csc (negsuc n) col_ptr row_idx values = Gives-bad_arrays
    Gives-analyse_csc (pos n) none row_idx values = Gives-bad_arrays
    Gives-analyse_csc (pos n) (some col_ptr) none values = Gives-bad_arrays
    Gives-analyse_csc (pos n) (some col_ptr) (some row_idx) none = Gives-bad_arrays
    Gives-analyse_csc (pos n) (some col_ptr) (some row_idx) (some values) =
        Gives-analyse_arrays n col_ptr row_idx values

    AnalysisWritten-smf_analyse :
        (csc : Option (CscArrays V)) (out : Option (Option (Analysis Keep)))
        → Holds (AnalysisWritten out) (smf_analyse s csc out)
    unfolding smf_analyse
    AnalysisWritten-smf_analyse none out = inr (invalid_not_ok, refl)
    AnalysisWritten-smf_analyse (some csc) none = inr (invalid_not_ok, refl)
    AnalysisWritten-smf_analyse (some csc) (some old) =
        Holds-bind (AnalysisWritten (some old))
          (analyse_csc s csc.n csc.col_ptr csc.row_idx csc.values) _
          (λ r e.
            IsWritten-write_out r old
              (subst (Holds Gives) e (Gives-analyse_csc csc.n csc.col_ptr csc.row_idx csc.values)))

  -- smf_analyse that reads within its arrays returns SMF_OK and writes a handle behind `out`, or returns an
  -- error and leaves what is there, where Solver::analyse reports an error whenever it returns a null pointer.
  pub smf_analyse-IsWritten :
      ((a : CscLower V) (code : ErrorCode)
        → s.analyse a ≡ some (none, code)
        → code ≢ ErrorCode.success)
      → (csc : Option (CscArrays V)) (out : Option (Option (Analysis Keep)))
        (r : Status × Option (Option (Analysis Keep)))
      → smf_analyse s csc out ≡ some r
      → IsWritten r.0 out r.1
  smf_analyse-IsWritten reports csc out r e =
      subst (Holds (AnalysisWritten out)) e (AnalysisWritten-smf_analyse reports csc out)
