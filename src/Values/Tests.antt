-- ===== src/Values/Tests.antt =====
-- The value maps of a matrix with a duplicate and an entry out of range.
use opt_solver.Base.{ℕ, ◌+◌, ◌≡◌, refl, Bool, true, false, [], ◌∷◌, ltb, max, some, arith}
use opt_solver.Base.Ints.{pos, negsuc}
use opt_solver.Matrix.Csc.{ErrorCode, CscLower}
use opt_solver.Values.{ValueMaps, Arrays, map_values_to_permuted, map_updated_values_to_permuted}
use opt_solver.Values.Laws.{Collects, map_values_to_permuted-original}

abbrev maps : ValueMaps
maps = record {
  n = pos 2;
  orig_col_ptr = pos 0 ∷ pos 4 ∷ pos 5 ∷ [];
  orig_row_idx = pos 1 ∷ pos 0 ∷ pos 1 ∷ negsuc 0 ∷ pos 1 ∷ [];
  cleaned_col_ptr = pos 0 ∷ pos 2 ∷ pos 3 ∷ [];
  cleaned_row_idx = pos 0 ∷ pos 1 ∷ pos 1 ∷ [];
  perm_col_ptr = 0 ∷ 2 ∷ 3 ∷ [];
  orig_to_clean_idx = pos 1 ∷ pos 0 ∷ pos 1 ∷ negsuc 0 ∷ pos 2 ∷ [];
  orig_to_perm_direct = pos 1 ∷ pos 2 ∷ pos 1 ∷ negsuc 0 ∷ pos 0 ∷ [];
  orig_to_perm_idx = pos 2 ∷ pos 1 ∷ pos 0 ∷ [];
}

abbrev plus : ℕ → ℕ → ℕ
plus a b = a + b

-- Numbers from 100 on stand for values that are not finite.
abbrev finite : ℕ → Bool
finite v = ltb v 100

abbrev larger : ℕ → ℕ → ℕ
larger m v = max m v

abbrev nothing : Arrays ℕ
nothing = record { clean_values = []; perm_values = [] }

abbrev updated : CscLower ℕ
updated = record {
  n = pos 2;
  col_ptr = maps.orig_col_ptr;
  row_idx = maps.orig_row_idx;
  values = 1 ∷ 2 ∷ 3 ∷ 4 ∷ 5 ∷ [];
}

updated_values :
    map_updated_values_to_permuted 0 plus finite larger maps updated nothing true
    ≡ some (record {
      code = ErrorCode.success;
      ws = record { clean_values = 2 ∷ 4 ∷ 5 ∷ []; perm_values = 5 ∷ 4 ∷ 2 ∷ [] };
      max_abs = 5;
    })
unfolding map_updated_values_to_permuted
updated_values = refl

map_values_to_permuted-original_example :
    (stored : Arrays ℕ) × (map_values_to_permuted 0 plus finite larger maps
        (record { array = some updated.values; original_layout = true })
        nothing
        true
        false
      ≡ some (record { code = ErrorCode.success; ws = stored; max_abs = 5 }))
    × Collects 0 plus finite larger 3 maps.orig_to_perm_direct updated.values stored.perm_values
    × Collects 0 plus finite larger 3 maps.orig_to_clean_idx updated.values stored.clean_values
unfolding map_values_to_permuted
map_values_to_permuted-original_example =
    map_values_to_permuted-original 0 plus finite larger maps updated.values nothing refl refl refl
      refl (omega arith) (omega arith)
      (omega arith, (omega arith, (omega arith, (refl, (omega arith, tt)))))
      (omega arith, (omega arith, (omega arith, (refl, (omega arith, tt)))))
