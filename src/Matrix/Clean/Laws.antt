-- ===== src/Matrix/Clean/Laws.antt =====
-- What clean_lower_csc returns on either path.
use opt_solver.Base.{ℕ, ◌+◌, ◌≡◌, List, map, length}
use opt_solver.Matrix.Csc.{CscLower, Lower, to_csc}
use opt_solver.Matrix.Csc.Shape.{IsShaped}
use opt_solver.Matrix.Columns.{Pair, pack}
use opt_solver.Matrix.Clean.{Item, Checked, CleanedPattern, run_pair, all_runs}
use opt_solver.Matrix.Clean.Items.{SortsItems}
use opt_solver.Matrix.Clean.Strays.{strays}
use opt_solver.Matrix.Clean.Scan.{RowsRise}

module _ {V : Type 0} (zero_value : V) (add : V → V → V)
    (sort : List (Item V) → List (Item V)) where
  abbrev columns_of : Checked V → ℕ → ℕ → List (List (Pair V))
  columns_of a rounds j = map (map run_pair) (all_runs zero_value add sort a rounds j)

  module _ (sorts : SortsItems sort) (a : Checked V) where
    abbrev merged : Lower V
    merged = pack a.n (columns_of a a.n 0)

-- What a cleaned matrix is to be for the input `a`.
pub record IsCleaned {V : Type 0} (a : CscLower V) (p : CleanedPattern V) : Type 0 where
  pub order : p.clean.n ≡ a.n
  pub shaped : (l : Lower V) × (p.clean ≡ to_csc l) × IsShaped l × RowsRise l
  pub counts : length p.clean.row_idx + p.duplicates + p.out_of_range ≡ length a.row_idx
  pub out_of_range : p.out_of_range ≡ strays a
