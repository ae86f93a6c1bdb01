-- ===== src/Matrix/Clean/Tests.antt =====
-- The cleaning on concrete matrices.
use mathlib.Core.List.Perm
use opt_solver.Base.{
  ℕ, ◌+◌, ◌≡◌, ◌⊎◌, refl, Bool, true, false, List, [], ◌∷◌, Perm, leb, if◌then◌else◌, Option, some,
}
use opt_solver.Base.Ints.{pos, negsuc}
use opt_solver.Matrix.Csc.{ErrorCode, CscLower}
use opt_solver.Matrix.Clean.{Item, Info, Checked, CleanedPattern, clean_lower_csc, accepted}
use opt_solver.Matrix.Clean.Checks.{Outcome, clean_lower_csc-Outcome}

unfoldable insert : Item ℕ → List (Item ℕ) → List (Item ℕ)
insert p [] = p ∷ []
insert p (q ∷ qs) = if leb p.row q.row then p ∷ q ∷ qs else q ∷ insert p qs

unfoldable insertion_sort : List (Item ℕ) → List (Item ℕ)
unfolding insert
insertion_sort [] = []
insertion_sort (p ∷ ps) = insert p (insertion_sort ps)

-- A first column with a duplicate, out of order, and a row out of range; a clean second column.
abbrev sample_checked : Checked ℕ
sample_checked = record {
  n = 2;
  col_ptr = 0 ∷ 4 ∷ 5 ∷ [];
  row_idx = pos 1 ∷ pos 0 ∷ pos 1 ∷ negsuc 0 ∷ pos 1 ∷ [];
  values = 1 ∷ 2 ∷ 3 ∷ 4 ∷ 5 ∷ [];
}

abbrev sample : CscLower ℕ
sample = record {
  n = pos 2;
  col_ptr = pos 0 ∷ pos 4 ∷ pos 5 ∷ [];
  row_idx = pos 1 ∷ pos 0 ∷ pos 1 ∷ negsuc 0 ∷ pos 1 ∷ [];
  values = 1 ∷ 2 ∷ 3 ∷ 4 ∷ 5 ∷ [];
}

abbrev no_info : Info
no_info = record {
  status = ErrorCode.success;
  matrix_duplicates = 0;
  matrix_missing_diag = 0;
  matrix_out_of_range = 0;
}

abbrev plus : ℕ → ℕ → ℕ
plus a b = a + b

abbrev sample_pattern : CleanedPattern ℕ
sample_pattern = record {
  clean = record {
    n = pos 2;
    col_ptr = pos 0 ∷ pos 2 ∷ pos 3 ∷ [];
    row_idx = pos 0 ∷ pos 1 ∷ pos 1 ∷ [];
    values = 2 ∷ 4 ∷ 5 ∷ [];
  };
  original_to_clean = pos 1 ∷ pos 0 ∷ pos 1 ∷ negsuc 0 ∷ pos 2 ∷ [];
  duplicates = 1;
  out_of_range = 1;
  missing_diag = 0;
  was_clean = false;
}

sample-clean :
    clean_lower_csc 0 plus insertion_sort sample no_info true
    ≡ some (accepted 0 plus insertion_sort sample_pattern no_info)
unfolding clean_lower_csc insertion_sort opt_solver.Matrix.Columns.pack
sample-clean = refl

clean_lower_csc-Outcome_example :
    Outcome 0 plus insertion_sort no_info true sample
      (clean_lower_csc 0 plus insertion_sort sample no_info true)
clean_lower_csc-Outcome_example = clean_lower_csc-Outcome 0 plus insertion_sort no_info true sample
