-- ===== src/Matrix/Rank/Tests.antt =====
-- solver/src/sym_graph.cpp: structural_rank on two small patterns.
use opt_solver.Base.{ℕ, zero, suc, ◌≤◌, ◌<◌, ◌≡◌, refl, List, [], ◌∷◌, length, get_or, arith}
use opt_solver.Matrix.Csc.{Lower}
use opt_solver.Matrix.Rank.{first_free, match_columns, structural_rank}
use opt_solver.Matrix.Rank.Laws.{Match, IsMatching, structural_rank_lem}

-- Column 0 has the rows 0 and 1, column 1 the row 1, and column 2 the row 2.
abbrev three : Lower ℕ
three = record {
  n = 3;
  col_ptr = 0 ∷ 2 ∷ 3 ∷ 4 ∷ [];
  row_idx = 0 ∷ 1 ∷ 1 ∷ 2 ∷ [];
  values = 1 ∷ 1 ∷ 1 ∷ 1 ∷ [];
}

-- Column 0 has the rows 1 and 2 and takes the row 1, the only one of column 1.
abbrev greedy : Lower ℕ
greedy = record {
  n = 3;
  col_ptr = 0 ∷ 2 ∷ 3 ∷ 3 ∷ [];
  row_idx = 1 ∷ 2 ∷ 1 ∷ [];
  values = 1 ∷ 1 ∷ 1 ∷ [];
}

three_rank : structural_rank three ≡ 3
unfolding structural_rank match_columns first_free
three_rank = refl

greedy_rank : structural_rank greedy ≡ 1
unfolding structural_rank match_columns first_free
greedy_rank = refl

three_rows : (k : ℕ) → k < 4 → get_or three.row_idx k 0 < 3
three_rows zero h = omega arith
three_rows (suc zero) h = omega arith
three_rows (suc (suc zero)) h = omega arith
three_rows (suc (suc (suc zero))) h = omega arith
three_rows (suc (suc (suc (suc k)))) h = absurd (omega arith)

three_columns : (c : ℕ) → c < 3 → get_or three.col_ptr (suc c) 0 ≤ 4
three_columns zero h = omega arith
three_columns (suc zero) h = omega arith
three_columns (suc (suc zero)) h = omega arith
three_columns (suc (suc (suc c))) h = absurd (omega arith)

structural_rank_lem_example :
    (ps : List Match) × (length ps ≡ structural_rank three)
    × IsMatching three.col_ptr three.row_idx ps
structural_rank_lem_example = structural_rank_lem three three_rows three_columns
