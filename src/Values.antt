-- ===== src/Values.antt =====
-- solver/src/workspace.cpp: resolve_factor_values, map_values_to_permuted and
-- map_updated_values_to_permuted, which bring the values of a refactorization into the permuted
-- pattern. `add` is the floating point addition, `is_finite` is is_finite_fast, `max_with_abs m v` is
-- std::max(m, std::abs(v)). A slot out of range is a fault, `none`.
pub mod Laws
pub mod Cleaned
mod Tests
use opt_solver.Base.{
  is_empty, ℕ, zero, suc, ◌+◌, ◌-◌, Bool, true, false, not, ◌&&◌, List, [], ◌∷◌, ◌++◌, ltb, ◌==◌,
  if◌then◌else◌, length, get_or, set, take, drop, replicate, Option, some, none,
}
use opt_solver.Base.Ints.{ℤ, pos, negsuc, ltz, eqz}
use opt_solver.Matrix.Csc.{ErrorCode, CscLower, ◌>>=◌}

-- The fields of AnalysisKeep that hold patterns and value maps.
pub record ValueMaps : Type 0 where
  pub n : ℤ
  pub orig_col_ptr : List ℤ
  pub orig_row_idx : List ℤ
  pub cleaned_col_ptr : List ℤ
  pub cleaned_row_idx : List ℤ
  pub perm_col_ptr : List ℕ
  pub orig_to_clean_idx : List ℤ
  pub orig_to_perm_direct : List ℤ
  pub orig_to_perm_idx : List ℤ

-- `data` is none for a null pointer; its size is the list's length.
pub record FactorValues (V : Type 0) : Type 0 where
  pub array : Option (List V)
  pub original_layout : Bool

-- The two arrays of NumericWorkspace that are written.
pub record Arrays (V : Type 0) : Type 0 where
  pub clean_values : List V
  pub perm_values : List V

pub record Mapped (V : Type 0) : Type 0 where
  pub code : ErrorCode
  pub ws : Arrays V
  pub max_abs : V

abbrev pub equal_z : List ℤ → List ℤ → Bool
equal_z [] [] = true
equal_z [] (y ∷ ys) = false
equal_z (x ∷ xs) [] = false
equal_z (x ∷ xs) (y ∷ ys) = eqz x y && equal_z xs ys

abbrev pub last_or : List ℕ → ℕ → ℕ
last_or [] d = d
last_or (x ∷ xs) d = last_or xs x

-- Whether the pattern is known, and the values in the layout that it matches.
unfoldable pub resolve_factor_values : {V : Type 0} → ValueMaps → CscLower V → Bool × FactorValues V
resolve_factor_values {V} ak updated =
    let original : FactorValues V = record {
      array = some updated.values;
      original_layout = true;
    } in
    if not (eqz updated.n ak.n)
    then (false, original)
    else if not (is_empty ak.orig_col_ptr)
        && (equal_z updated.col_ptr ak.orig_col_ptr
            && (equal_z updated.row_idx ak.orig_row_idx
                && length updated.values == length ak.orig_row_idx))
    then (true, original)
    else (
      equal_z updated.col_ptr ak.cleaned_col_ptr
          && (equal_z updated.row_idx ak.cleaned_row_idx
              && length updated.values == length ak.cleaned_row_idx),
      record original { original_layout = false },
    )

module _ {V : Type 0} (zero_value : V) (add : V → V → V) (is_finite : V → Bool)
    (max_with_abs : V → V → V) where
  abbrev pub add_at : ℕ → V → List V → List V
  add_at s v out = set out s (add (get_or out s zero_value) v)

  -- for each k: out[to[k]] += values[k]; with `skip` a negative slot is passed over.
  unfoldable pub scatter_add : Bool → List ℤ → List V → List V → Option (List V)
  scatter_add skip to [] out = some out
  scatter_add skip [] (v ∷ vs) out = none
  scatter_add skip (pos s ∷ to) (v ∷ vs) out =
      let rest = scatter_add skip to vs (add_at s v out) in
      if ltb s (length out) then rest else none
  scatter_add skip (negsuc s ∷ to) (v ∷ vs) out =
      let rest = scatter_add skip to vs out in if skip then rest else none

  unfoldable pub all_finite : List V → Bool
  all_finite [] = true
  all_finite (v ∷ vs) = is_finite v && all_finite vs

  unfoldable pub max_of : V → List V → V
  max_of m [] = m
  max_of m (v ∷ vs) = max_of (max_with_abs m v) vs

  abbrev pub zeros : ℕ → List V
  zeros k = replicate k zero_value

  -- vector::resize
  abbrev pub resize : List V → ℕ → List V
  resize xs k = take k xs ++ zeros (k - length xs)

  abbrev pub clean_nnz : ValueMaps → ℕ
  clean_nnz ak = length ak.cleaned_row_idx

  abbrev pub perm_nnz : ValueMaps → ℕ
  perm_nnz ak = last_or ak.perm_col_ptr (clean_nnz ak)

  unfoldable pub to_clean : ValueMaps → List V → Option (List V)
  unfolding scatter_add
  to_clean ak uv = scatter_add true ak.orig_to_clean_idx uv (zeros (clean_nnz ak))

  -- The cleaned values alone; the caller scatters the scaled ones.
  unfoldable pub store_clean : ValueMaps → Bool → List V → Arrays V → Option (Arrays V)
  unfolding to_clean
  store_clean ak via_orig uv ws = do
    clean ← if via_orig then to_clean ak uv else some uv
    some (record { clean_values = clean; perm_values = resize ws.perm_values (perm_nnz ak) })

  unfoldable pub store_both : ValueMaps → Bool → Bool → List V → Arrays V → Option (Arrays V)
  unfolding to_clean scatter_add
  store_both ak via_orig need_clean uv ws =
      if via_orig
      then (do
        perm ← scatter_add true ak.orig_to_perm_direct uv (zeros (perm_nnz ak))
        clean ← if need_clean then to_clean ak uv else some ws.clean_values
        some (record { clean_values = clean; perm_values = perm }))
      else (do
        perm ←
            if is_empty ak.orig_to_perm_idx
            then (if ltb (perm_nnz ak) (length uv)
                then none
                else some (uv ++ drop (length uv) (zeros (perm_nnz ak))))
            else scatter_add false ak.orig_to_perm_idx uv (zeros (perm_nnz ak))
        some (record {
          clean_values = if need_clean then uv else ws.clean_values;
          perm_values = perm;
        }))

  abbrev pub refused_values : Arrays V → Mapped V
  refused_values ws = record { code = ErrorCode.illegal_value; ws = ws; max_abs = zero_value }

  -- What follows the checks of n and of the null pointer.
  unfoldable pub map_checked :
      ValueMaps → List V → Bool → Arrays V → Bool → Bool → Option (Mapped V)
  unfolding all_finite max_of store_clean store_both
  map_checked ak uv original_layout ws need_clean perm_later =
      let via_orig = original_layout && not (is_empty ak.orig_to_clean_idx) in
      let expect = if via_orig then length ak.orig_row_idx else clean_nnz ak in
      if not (length uv == expect)
      then some (refused_values ws)
      else if not (all_finite uv)
      then some (refused_values ws)
      else (do
        stored ←
            if need_clean && perm_later
            then store_clean ak via_orig uv ws
            else store_both ak via_orig need_clean uv ws
        some (record { code = ErrorCode.success; ws = stored; max_abs = max_of zero_value uv }))

  unfoldable pub map_values_to_permuted :
      ValueMaps → FactorValues V → Arrays V → Bool → Bool → Option (Mapped V)
  unfolding map_checked
  map_values_to_permuted ak values ws need_clean perm_later =
      if ltz ak.n (pos 0)
      then some (refused_values ws)
      else if eqz ak.n (pos 0)
      then some (record {
        code = ErrorCode.success;
        ws = record { clean_values = []; perm_values = [] };
        max_abs = zero_value;
      })
      else (elim values.array [
        | none ↦ some (refused_values ws)
        | some uv ↦ map_checked ak uv values.original_layout ws need_clean perm_later
      ])

  unfoldable pub map_updated_values_to_permuted :
      ValueMaps → CscLower V → Arrays V → Bool → Option (Mapped V)
  unfolding map_values_to_permuted resolve_factor_values
  map_updated_values_to_permuted ak updated ws need_clean =
      let resolved = resolve_factor_values ak updated in
      let mapped = map_values_to_permuted ak resolved.1 ws need_clean false in
      if not resolved.0 then some (refused_values ws) else mapped
