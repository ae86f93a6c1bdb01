-- ===== src/Matrix/Columns.antt =====
-- The way coo_to_lower_csc and clean_lower_csc build their result: column after column, the entries
-- appended to row_idx and values, the new size to col_ptr.
pub mod Laws
use opt_solver.Base.{ℕ, zero, suc, ◌+◌, List, [], ◌∷◌, ◌++◌, map, length, get_or, slice}
use opt_solver.Matrix.Csc.{Lower}

-- One stored entry of a column: its row and its value.
pub record Pair (V : Type 0) : Type 0 where
  pub row : ℕ
  pub val : V

unfoldable pub append_column : {V : Type 0} → Lower V → List (Pair V) → Lower V
append_column l c =
    let rows = l.row_idx ++ map (λ p. p.row) c in
    record l {
      col_ptr = l.col_ptr ++ length rows ∷ [];
      row_idx = rows;
      values = l.values ++ map (λ p. p.val) c;
    }

unfoldable pub append_columns : {V : Type 0} → Lower V → List (List (Pair V)) → Lower V
append_columns l [] = l
append_columns l (c ∷ cs) = append_columns (append_column l c) cs

-- result.n = n and col_ptr[0] = 0, before the first column.
abbrev pub no_columns : {V : Type 0} → ℕ → Lower V
no_columns n = record { n = n; col_ptr = 0 ∷ []; row_idx = []; values = [] }

unfoldable pub pack : {V : Type 0} → ℕ → List (List (Pair V)) → Lower V
unfolding append_column append_columns
pack n cs = append_columns (no_columns n) cs

abbrev pub zip_pairs : {V : Type 0} → List ℕ → List V → List (Pair V)
zip_pairs [] vs = []
zip_pairs (r ∷ rs) [] = []
zip_pairs (r ∷ rs) (v ∷ vs) = record { row = r; val = v } ∷ zip_pairs rs vs

-- The entries of column j.
abbrev pub column : {V : Type 0} → Lower V → ℕ → List (Pair V)
column l j =
    let a = get_or l.col_ptr j 0 in
    let b = get_or l.col_ptr (suc j) 0 in zip_pairs (slice a b l.row_idx) (slice a b l.values)
