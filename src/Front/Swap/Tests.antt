-- ===== src/Front/Swap/Tests.antt =====
-- The swap of two columns of a front of five rows.
use opt_solver.Base.{ℕ, ◌+◌, ◌*◌, ◌≡◌, refl, [], ◌∷◌, arith}
use opt_solver.Front.Matrix.{Entries, full}
use opt_solver.Front.Swap.{sym_swap_front}
use opt_solver.Front.Swap.Laws.{sym_swap_front_lem}

-- The entry (i, j) is numbered 10 i + j.
abbrev numbered : Entries ℕ
numbered i j = 10 * i + j

abbrev swapped : Entries ℕ
swapped = sym_swap_front 5 3 1 4 numbered

row_three : (swapped 3 0 ∷ swapped 3 1 ∷ swapped 3 2 ∷ swapped 3 3 ∷ []) ≡ 10 ∷ 31 ∷ 21 ∷ 11 ∷ []
unfolding sym_swap_front
row_three = refl

sym_swap_front_lem_example : full swapped 4 3 ≡ 41
sym_swap_front_lem_example =
    sym_swap_front_lem 5 3 1 4 numbered 4 3 (omega arith) (omega arith) (omega arith) (omega arith)
      (omega arith)
