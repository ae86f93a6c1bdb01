-- ===== src/Values/Cleaned.antt =====
-- solver/src/workspace.cpp: the cleaned copy of the values that map_values_to_permuted makes.
use opt_solver.Base.{
  is_empty, ℕ, suc, ◌≡◌, refl, subst, ◌∙◌, Bool, true, false, not, ◌&&◌, List, Option, some, none,
  Holds, if_both, if_true, if_false, if◌then◌else◌, arith, ◌==◌, length, ltb, drop, ◌++◌,
}
use opt_solver.Base.Ints.{pos, ltz, eqz}
use opt_solver.Matrix.Csc.{ErrorCode, Holds-bind}
use opt_solver.Values.{
  ValueMaps, Arrays, Mapped, to_clean, scatter_add, all_finite, max_of, store_clean, store_both,
  map_checked, map_values_to_permuted, clean_nnz, perm_nnz, zeros, refused_values,
}

if_swap :
    {A : Type 0} (b : Bool) (x y : A) → (if b then x else y) ≡ (if true && not b then y else x)
if_swap true x y = refl
if_swap false x y = refl

module _ {V : Type 0} (zero_value : V) (add : V → V → V) (is_finite : V → Bool)
    (max_with_abs : V → V → V) where
  -- The cleaned values of the original layout: the values themselves where nothing was cleaned.
  abbrev pub clean_of : ValueMaps → List V → Option (List V)
  clean_of ak uv =
      if is_empty ak.orig_to_clean_idx
      then some uv
      else to_clean zero_value add is_finite max_with_abs ak uv

  abbrev via : ValueMaps → Bool
  via ak = true && not (is_empty ak.orig_to_clean_idx)

  abbrev IsStored : ValueMaps → List V → Arrays V → Type 0
  IsStored ak uv ws = clean_of ak uv ≡ some ws.clean_values

  clean_of-via :
      (ak : ValueMaps) (uv : List V)
      → clean_of ak uv
        ≡ (if via ak then to_clean zero_value add is_finite max_with_abs ak uv else some uv)
  clean_of-via ak uv = if_swap (is_empty ak.orig_to_clean_idx) _ _

  IsStored-store_clean :
      (ak : ValueMaps) (uv : List V) (ws : Arrays V)
      → Holds (IsStored ak uv) (store_clean zero_value add is_finite max_with_abs ak (via ak) uv ws)
  unfolding store_clean
  IsStored-store_clean ak uv ws =
      Holds-bind (IsStored ak uv)
        (if via ak then to_clean zero_value add is_finite max_with_abs ak uv else some uv) _
        (λ clean e. clean_of-via ak uv ∙ e)

  IsStored-store_both :
      (ak : ValueMaps) (uv : List V) (ws : Arrays V)
      → Holds
          (IsStored ak uv)
          (store_both zero_value add is_finite max_with_abs ak (via ak) true uv ws)
  unfolding store_both
  IsStored-store_both ak uv ws =
      if_both (Holds (IsStored ak uv)) (via ak) _ _
        (λ v.
          Holds-bind (IsStored ak uv)
            (scatter_add zero_value add is_finite max_with_abs true ak.orig_to_perm_direct uv _) _
            (λ perm e.
              Holds-bind (IsStored ak uv) (to_clean zero_value add is_finite max_with_abs ak uv) _
                (λ clean g. clean_of-via ak uv ∙ if_true (via ak) _ _ v ∙ g)))
        (λ v.
          Holds-bind (IsStored ak uv)
            (if is_empty ak.orig_to_perm_idx
              then (if ltb (perm_nnz zero_value add is_finite max_with_abs ak) (length uv)
                  then none
                  else some (
                      uv
                      ++ drop (length uv) (
                          zeros zero_value add is_finite max_with_abs
                            (perm_nnz zero_value add is_finite max_with_abs ak))))
              else scatter_add zero_value add is_finite max_with_abs false ak.orig_to_perm_idx uv (
                  zeros zero_value add is_finite max_with_abs
                    (perm_nnz zero_value add is_finite max_with_abs ak)))
            (λ perm. some (record { clean_values = uv; perm_values = perm }))
            (λ perm e. clean_of-via ak uv ∙ if_false (via ak) _ _ v))

  abbrev HasClean : ValueMaps → List V → Mapped V → Type 0
  HasClean ak uv mapped = mapped.code ≡ ErrorCode.success → IsStored ak uv mapped.ws

  HasClean-refused :
      (ak : ValueMaps) (uv : List V) (ws : Arrays V)
      → HasClean ak uv (refused_values zero_value add is_finite max_with_abs ws)
  HasClean-refused ak uv ws h = absurd (ground arith)

  HasClean-map_checked :
      (ak : ValueMaps) (uv : List V) (ws : Arrays V) (later : Bool)
      → Holds
          (HasClean ak uv)
          (map_checked zero_value add is_finite max_with_abs ak uv true ws true later)
  unfolding map_checked
  HasClean-map_checked ak uv ws later =
      if_both (Holds (HasClean ak uv))
        (not (
          length uv == (
            if via ak
            then length ak.orig_row_idx
            else clean_nnz zero_value add is_finite max_with_abs ak)))
        _ _ (λ e. HasClean-refused ak uv ws)
        (λ e.
          if_both (Holds (HasClean ak uv))
            (not (all_finite zero_value add is_finite max_with_abs uv)) _ _
            (λ f. HasClean-refused ak uv ws)
            (λ f.
              Holds-bind (HasClean ak uv)
                (if true && later
                  then store_clean zero_value add is_finite max_with_abs ak (via ak) uv ws
                  else store_both zero_value add is_finite max_with_abs ak (via ak) true uv ws)
                (λ stored. some (record {
                  code = ErrorCode.success;
                  ws = stored;
                  max_abs = max_of zero_value add is_finite max_with_abs zero_value uv;
                }))
                (λ stored g h. subst (Holds (IsStored ak uv)) g (
                  if_both (Holds (IsStored ak uv)) (true && later) _ _
                    (λ l. IsStored-store_clean ak uv ws) (λ l. IsStored-store_both ak uv ws)))))

  -- The cleaned values that are stored when all values are accepted.
  pub map_values_to_permuted-clean_of :
      (ak : ValueMaps) (uv : List V) (ws : Arrays V) (later : Bool) (mapped : Mapped V) (k : ℕ)
      → ak.n ≡ pos (suc k)
      → map_values_to_permuted zero_value add is_finite max_with_abs ak
          (record { array = some uv; original_layout = true })
          ws
          true
          later
        ≡ some mapped
      → mapped.code ≡ ErrorCode.success
      → clean_of ak uv ≡ some mapped.ws.clean_values
  unfolding map_values_to_permuted
  map_values_to_permuted-clean_of ak uv ws later mapped k n e = subst (Holds (HasClean ak uv)) e (
      if_both (Holds (HasClean ak uv)) (ltz ak.n (pos 0)) _ _ (λ l. HasClean-refused ak uv ws)
        (λ l.
          if_both (Holds (HasClean ak uv)) (eqz ak.n (pos 0)) _ _
            (λ z. absurd (let at = subst (λ z. eqz z (pos 0) ≡ true) n z in ground arith))
            (λ z. HasClean-map_checked ak uv ws later)))
