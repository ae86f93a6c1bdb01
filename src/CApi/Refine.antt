-- ===== src/CApi/Refine.antt =====
-- solver/src/smf_c.cpp: the matrix that smf_factor keeps for the refinement.
use opt_solver.Base.{
  is_empty, ℕ, zero, suc, Bool, true, not, ◌&&◌, List, ◌==◌, length, Option, some, none, Holds,
  some_inj, if_true, if_false, if_both, ◌≡◌, ◌≢◌, ◌⊎◌, inl, inr, refl, sym, ap, subst, ◌∙◌, arith,
}
use opt_solver.Base.Ints.{ℤ, pos, negsuc}
use opt_solver.Matrix.Csc.{Holds-bind, ErrorCode}
use opt_solver.Values.Cleaned.{clean_of, map_values_to_permuted-clean_of}
use opt_solver.Values.{ValueMaps, to_clean}
use opt_solver.Dispatch.{MatrixType}
use opt_solver.CApi.{
  ok, FactorStatus, not_positive_definite, max_pivot_delays, Inertia, Factored, SolverCalls,
  Analysis, FactorHandle, first_values, Returned, write_out,
}
use opt_solver.CApi.Factor.{
  FactorCall, policy, cleaned_values, set_values, factor_handle, give_handle, by_status,
  factor_result, factor_checked, smf_factor,
}
use opt_solver.CApi.Outcome.{factor_error_not_ok}
use opt_solver.Values.Cleaned.{clean_of, map_values_to_permuted-clean_of}
use opt_solver.Values.{Arrays, Mapped, map_values_to_permuted}

module _ {V Keep F R : Type 0} (s : SolverCalls V Keep F R) where
  abbrev cleaned_copy : ValueMaps → List V → Option (List V)
  cleaned_copy = clean_of s.zero_value s.add s.is_finite s.max_with_abs

  abbrev IsCleaned : ValueMaps → List V → Option (List V) → Type 0
  IsCleaned ak values = Holds (λ cv. cleaned_copy ak values ≡ some cv)

  IsCleaned-cleaned_values :
      (ak : ValueMaps) (values : List V) → Holds (IsCleaned ak values) (cleaned_values s ak values)
  unfolding cleaned_values
  IsCleaned-cleaned_values ak values =
      if_both (Holds (IsCleaned ak values)) (is_empty ak.orig_to_clean_idx) (some (some values)) _
        (λ e. if_true (is_empty ak.orig_to_clean_idx) _ _ e)
        (λ e.
          if_both (Holds (IsCleaned ak values)) (not (length ak.orig_to_clean_idx == length values))
            (some none) _ (λ f. tt)
            (λ f.
              Holds-bind (IsCleaned ak values)
                (to_clean s.zero_value s.add s.is_finite s.max_with_abs ak values) _
                (λ cv g. if_false (is_empty ak.orig_to_clean_idx) _ _ e ∙ g)))

  -- A matrix of the cleaned pattern that holds the cleaned values.
  abbrev IsRefinement : Keep → List V → R → Type 0
  IsRefinement keep values m =
      (cv : List V) × (m0 : R) × (cleaned_copy (s.maps keep) values ≡ some cv)
      × (s.prepare_refine_matrix keep ≡ some m0)
      × (m ≡ s.set_refine_values cv m0)
      × (length cv ≡ s.slots m0)

  IsRefinement-set_values :
      (keep : Keep) (values : List V) (cv : Option (List V)) (m0 : Option R)
      → IsCleaned (s.maps keep) values cv
      → s.prepare_refine_matrix keep ≡ m0
      → Holds (IsRefinement keep values) (set_values s cv m0)
  unfolding set_values
  IsRefinement-set_values keep values none m0 c e = tt
  IsRefinement-set_values keep values (some cv) none c e = tt
  IsRefinement-set_values keep values (some cv) (some m0) c e =
      if_both (Holds (IsRefinement keep values)) (length cv == s.slots m0)
        (some (s.set_refine_values cv m0)) none (λ f. (cv, m0, c, e, refl, ground arith)) (λ f. tt)

  abbrev KeepsRefinement : Keep → List V → FactorHandle F R → Type 0
  KeepsRefinement keep values h = Holds (IsRefinement keep values) h.refine

  KeepsRefinement-some :
      (keep : Keep) (values : List V) (plain : FactorHandle F R) (o : Option R)
      → Holds (IsRefinement keep values) o
      → Holds
          (KeepsRefinement keep values)
          (elim o [ none ↦ none | some m ↦ some (record plain { refine = some m }) ])
  KeepsRefinement-some keep values plain none h = tt
  KeepsRefinement-some keep values plain (some m) h = h

  KeepsRefinement-factor_handle :
      (keep : Keep) (values : List V) (f : F) (inertia : Inertia)
      → Holds (Holds (KeepsRefinement keep values)) (factor_handle s keep values f inertia)
  unfolding factor_handle
  KeepsRefinement-factor_handle keep values f inertia =
      let plain : FactorHandle F R = record { keep = f; inertia = inertia; refine = none } in
      if_both (Holds (Holds (KeepsRefinement keep values)))
        (s.static_path f && s.refinement_advised f) _ (some (some plain))
        (λ e.
          Holds-bind (Holds (KeepsRefinement keep values)) (cleaned_values s (s.maps keep) values) _
            (λ cv g.
              KeepsRefinement-some keep values plain
                (set_values s cv (s.prepare_refine_matrix keep))
                (IsRefinement-set_values keep values cv _
                  (subst (Holds (IsCleaned (s.maps keep) values)) g
                    (IsCleaned-cleaned_values (s.maps keep) values))
                  refl)))
        (λ e. tt)

  -- A refusal, or a handle whose refinement matrix, where it has one, is of the kept analysis.
  abbrev IsHandle : Keep → List V → Returned (FactorHandle F R) → Type 0
  IsHandle keep values r =
      (r.status ≢ ok) ⊎ ((h : FactorHandle F R) × (r.out ≡ some h) × KeepsRefinement keep values h)

  IsHandle-give_handle :
      (keep : Keep) (values : List V) (h : Option (FactorHandle F R))
      → Holds (KeepsRefinement keep values) h
      → IsHandle keep values (give_handle s h)
  IsHandle-give_handle keep values none k = inl (λ e. ground arith)
  IsHandle-give_handle keep values (some h) k = inr (h, refl, k)

  IsHandle-by_status :
      (fs : FactorStatus) (keep : Keep) (values : List V) (f : Factored F)
      → Holds (IsHandle keep values) (by_status s fs keep values f)
  unfolding by_status
  IsHandle-by_status FactorStatus.success keep values f =
      Holds-bind (IsHandle keep values) (factor_handle s keep values f.keep f.inertia)
        (λ h. some (give_handle s h))
        (λ h e. IsHandle-give_handle keep values h (
          subst (Holds (Holds (KeepsRefinement keep values))) e
            (KeepsRefinement-factor_handle keep values f.keep f.inertia)))
  IsHandle-by_status not_positive_definite keep values f =
      inl (factor_error_not_ok s not_positive_definite f.code)
  IsHandle-by_status FactorStatus.singular keep values f =
      inl (factor_error_not_ok s FactorStatus.singular f.code)
  IsHandle-by_status max_pivot_delays keep values f =
      inl (factor_error_not_ok s max_pivot_delays f.code)
  IsHandle-by_status FactorStatus.inertia_exceeded keep values f =
      inl (factor_error_not_ok s FactorStatus.inertia_exceeded f.code)

  IsHandle-factor_result :
      (keep : Keep) (values : List V) (f : Option (Factored F))
      → Holds (IsHandle keep values) (factor_result s keep values f)
  unfolding factor_result
  IsHandle-factor_result keep values none = inl (λ e. ground arith)
  IsHandle-factor_result keep values (some f) = IsHandle-by_status f.result keep values f

  -- A refusal, or a handle as above of the values read and of the analysis left.
  abbrev HasHandle : ℕ → List V → FactorCall Keep F R → Type 0
  HasHandle nnz values r =
      (r.status ≢ ok)
      ⊎ ((a : Analysis Keep) × (h : FactorHandle F R) × (vals : List V) × (r.analysis ≡ some a)
          × (r.out ≡ some (some h))
          × (first_values nnz values ≡ some vals)
          × KeepsRefinement a.keep vals h)

  HasHandle-checked :
      (a : Analysis Keep) (values : List V) (type : MatrixType) (old : Option (FactorHandle F R))
      → Holds (HasHandle a.nnz values) (factor_checked s a values type old)
  unfolding factor_checked
  HasHandle-checked a values type old =
      Holds-bind (HasHandle a.nnz values) (first_values a.nnz values) _ (λ vals e.
        let called = s.factor a.keep vals type (policy s type a.pivoting) in
        Holds-bind (HasHandle a.nnz values) (factor_result s called.0 vals called.1) _ (λ r f.
          elim (subst (Holds (IsHandle called.0 vals)) f
            (IsHandle-factor_result called.0 vals called.1)) [
              | inl n ↦ inl n
              | inr (h, o, k) ↦ inr (
                record a { keep = called.0 },
                h,
                vals,
                refl,
                ap (λ z. some (write_out z old)) o,
                e,
                k,
              )
            ]))

  pub HasHandle-smf_factor :
      (a : Analysis Keep) (values : List V) (mtype : ℤ) (old : Option (FactorHandle F R))
      → Holds (HasHandle a.nnz values) (smf_factor s (some a) (some values) mtype (some old))
  unfolding smf_factor
  HasHandle-smf_factor a values (pos zero) old =
      HasHandle-checked a values MatrixType.real_symmetric_positive_definite old
  HasHandle-smf_factor a values (pos (suc zero)) old =
      HasHandle-checked a values MatrixType.real_symmetric_indefinite old
  HasHandle-smf_factor a values (pos (suc (suc m))) old = inl (λ f. ground arith)
  HasHandle-smf_factor a values (negsuc m) old = inl (λ f. ground arith)

  KeepsRefinement-same :
      (left left' : Analysis Keep) (vals vals' : List V) (h h' : FactorHandle F R) (m : R)
      → left' ≡ left
      → vals' ≡ vals
      → h' ≡ h
      → h.refine ≡ some m
      → KeepsRefinement left'.keep vals' h'
      → IsRefinement left.keep vals m
  KeepsRefinement-same left left' vals vals' h h' m el ev eh hm keeps =
      subst (λ l. IsRefinement l.keep vals m) el
        (subst (λ v. IsRefinement left'.keep v m) ev
          (subst (Holds (IsRefinement left'.keep vals')) hm
            (subst (KeepsRefinement left'.keep vals') eh keeps)))

  -- Where smf_factor returns SMF_OK and a handle with a matrix to refine against, that matrix is the
  -- prepared one with the values that map_values_to_permuted stores as the cleaned copy of the
  -- values factor_result, and has a slot for each, if the analysis left has order at least 1 and
  -- map_values_to_permuted accepts the values.
  pub smf_factor-map_values_to_permuted :
      (a : Analysis Keep) (values : List V) (mtype : ℤ) (old : Option (FactorHandle F R))
      (left : Analysis Keep) (h : FactorHandle F R) (m : R) (vals : List V) (ws : Arrays V)
      (later : Bool) (mapped : Mapped V) (k : ℕ)
      → smf_factor s (some a) (some values) mtype (some old)
        ≡ some (record { status = ok; analysis = some left; out = some (some h) })
      → h.refine ≡ some m
      → first_values a.nnz values ≡ some vals
      → (s.maps left.keep).n ≡ pos (suc k)
      → map_values_to_permuted s.zero_value s.add s.is_finite s.max_with_abs
          (s.maps left.keep)
          (record { array = some vals; original_layout = true })
          ws
          true
          later
        ≡ some mapped
      → mapped.code ≡ ErrorCode.success
      → (m0 : R) × (s.prepare_refine_matrix left.keep ≡ some m0)
        × (m ≡ s.set_refine_values mapped.ws.clean_values m0)
        × (length mapped.ws.clean_values ≡ s.slots m0)
  smf_factor-map_values_to_permuted a values mtype old left h m vals ws later mapped k e hm ev en em
        ec =
      elim (subst (Holds (HasHandle a.nnz values)) e (HasHandle-smf_factor a values mtype old)) [
        | inl n ↦ absurd (n refl)
        | inr (left', h', vals', el, eh, ev', keeps) ↦
            let (cv, m0, c, p, q, l) : IsRefinement left.keep vals m =
              KeepsRefinement-same left left' vals vals' h h' m (some_inj (sym el))
                (some_inj (sym ev' ∙ ev)) (some_inj (some_inj (sym eh))) hm keeps in
            let same : cv ≡ mapped.ws.clean_values = some_inj (
              sym c
              ∙ map_values_to_permuted-clean_of s.zero_value s.add s.is_finite s.max_with_abs
                  (s.maps left.keep) vals ws later mapped k en em ec) in
            (m0, p, q ∙ ap (λ z. s.set_refine_values z m0) same, ap length (sym same) ∙ l)
      ]
