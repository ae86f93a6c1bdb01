-- ===== src/CApi/Policy.antt =====
-- solver/src/smf_c.cpp: what the policy that smf_set_pivoting sets reaches.
use opt_solver.Base.{List, Option, some, none, ◌≡◌, refl}
use opt_solver.Base.Ints.{pos}
use opt_solver.Matrix.Csc.{◌>>=◌}
use opt_solver.Dispatch.{MatrixType}
use opt_solver.CApi.{Pivoting, threshold, SolverCalls, Analysis, FactorHandle, first_values}
use opt_solver.CApi.Factor.{FactorCall, factor_result, factor_checked, smf_factor}

module _ {V Keep F R : Type 0} (s : SolverCalls V Keep F R) where
  abbrev pub with_policy : Pivoting → FactorCall Keep F R → FactorCall Keep F R
  with_policy p r = record r {
    analysis = elim r.analysis [ none ↦ none | some a ↦ some (record a { pivoting = p }) ];
  }

  abbrev pub map_call :
      (FactorCall Keep F R → FactorCall Keep F R)
      → Option (FactorCall Keep F R)
      → Option (FactorCall Keep F R)
  map_call f none = none
  map_call f (some r) = some (f r)

  map_call-bind :
      {A : Type 0} (f : FactorCall Keep F R → FactorCall Keep F R) (o : Option A)
      (g h : A → Option (FactorCall Keep F R))
      → ((a : A) → g a ≡ map_call f (h a))
      → (o >>= g) ≡ map_call f (o >>= h)
  map_call-bind f none g h e = refl
  map_call-bind f (some a) g h e = e a

  -- A positive definite factorization does not depend on the policy of the analysis: with another policy the
  -- call is the same and keeps that policy.
  smf_factor_positive_definite :
      (a : Analysis Keep) (values : Option (List V)) (out : Option (Option (FactorHandle F R)))
      (p : Pivoting)
      → smf_factor s (some (record a { pivoting = p })) values (pos 0) out
        ≡ map_call (with_policy p) (smf_factor s (some a) values (pos 0) out)
  unfolding smf_factor factor_checked
  smf_factor_positive_definite a none out p = refl
  smf_factor_positive_definite a (some values) none p = refl
  smf_factor_positive_definite a (some values) (some old) p =
      map_call-bind (with_policy p) (first_values a.nnz values) _ _ (λ vals.
        let called = s.factor a.keep vals MatrixType.real_symmetric_positive_definite threshold in
        map_call-bind (with_policy p) (factor_result s called.0 vals called.1) _ _ (λ r. refl))
