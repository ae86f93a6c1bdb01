-- ===== src/Matrix/Rank.antt =====
-- solver/src/sym_graph.cpp: structural_rank, on a matrix whose shape has been checked.
pub mod Laws
mod Tests
use opt_solver.Base.{
  ℕ, zero, suc, ◌+◌, ◌-◌, Bool, true, false, List, get_or, set, replicate, if◌then◌else◌, Option,
  some, none,
}
use opt_solver.Matrix.Csc.{Lower}

-- The first row that is not used among the `count` entries from place k on.
unfoldable pub first_free : List ℕ → List Bool → ℕ → ℕ → Option ℕ
first_free rows used k zero = none
first_free rows used k (suc count) =
    let rest = first_free rows used (suc k) count in
    if get_or used (get_or rows k 0) false then rest else some (get_or rows k 0)

-- The columns j, j + 1, ... take rows; `matched` counts them.
unfoldable pub match_columns : List ℕ → List ℕ → List Bool → ℕ → ℕ → ℕ → ℕ
unfolding first_free
match_columns col_ptr rows used j zero matched = matched
match_columns col_ptr rows used j (suc count) matched =
    elim (first_free rows used (get_or col_ptr j 0)
      (get_or col_ptr (suc j) 0 - get_or col_ptr j 0)) [
        | none ↦ match_columns col_ptr rows used (suc j) count matched
        | some i ↦ match_columns col_ptr rows (set used i true) (suc j) count (matched + 1)
      ]

unfoldable pub structural_rank : {V : Type 0} → Lower V → ℕ
unfolding match_columns
structural_rank a = match_columns a.col_ptr a.row_idx (replicate a.n false) 0 a.n 0
