-- ===== src/Matrix/Runs.antt =====
-- The sort-and-merge step of coo_to_lower_csc: entries of one column sorted by row, then each run of
-- one row summed. `add` is the floating point addition, left to right; std::sort is a parameter.
pub mod Laws
use opt_solver.Base.{ℕ, Bool, true, false, List, [], ◌∷◌, ◌==◌}
use opt_solver.Matrix.Columns.{Pair}

module _ {V : Type 0} (add : V → V → V) where
  -- The run of row `r` so far sums to `s`.
  unfoldable pub merge_from : ℕ → V → List (Pair V) → List (Pair V)
  merge_from r s [] = record { row = r; val = s } ∷ []
  merge_from r s (p ∷ ps) = elim (p.row == r) [
    | true ↦ merge_from r (add s p.val) ps
    | false ↦ record { row = r; val = s } ∷ merge_from p.row p.val ps
  ]

  unfoldable pub merge_runs : List (Pair V) → List (Pair V)
  unfolding merge_from
  merge_runs [] = []
  merge_runs (p ∷ ps) = merge_from p.row p.val ps
