-- ===== src/Ordering/Pivot/Tests.antt =====
-- The realized order of a factor with a 2x2 pivot and a zero pivot.
use mathlib.Core.List.Perm
use opt_solver.Base.{◌⊎◌, true, ℕ, ◌≡◌, refl, false, [], ◌∷◌, Perm}
use opt_solver.Base.Ints.{ℤ, pos, negsuc}
use opt_solver.Ordering.Pivot.{
  DiagSolveEntry, AnalysisKeep, FactorKeep, RealizedOrder, realized_pivot_order, no_order,
}
use opt_solver.Ordering.Pivot.Realized.{IsRealized, realized_pivot_order-IsRealized}
use opt_solver.Ordering.Pivot.Permutation.{realized_pivot_order-perm}

abbrev entry : ℤ → ℤ → ℤ → ℤ → DiagSolveEntry ℕ
entry tag was_zero row0 row1 = record {
  tag = tag;
  was_zero = was_zero;
  row0 = row0;
  row1 = row1;
  d00 = 1;
  d10 = 2;
  d11 = 3;
}

abbrev analysed : AnalysisKeep
analysed = record { n = 3; perm = pos 2 ∷ pos 0 ∷ pos 1 ∷ [] }

abbrev factored : FactorKeep ℕ
factored = record {
  is_posdef = false;
  perm = pos 2 ∷ pos 0 ∷ pos 1 ∷ [];
  diag_entries = entry (pos 1) (pos 1) (pos 0) (pos 0) ∷ entry (pos 2) (pos 0) (pos 1) (pos 2) ∷ [];
}

abbrev realized : RealizedOrder
realized = record { perm = pos 0 ∷ pos 1 ∷ pos 2 ∷ []; pairs = pos 0 ∷ pos 1 ∷ []; zero_pivots = 1 }

order_matches : realized_pivot_order analysed factored ≡ realized
unfolding realized_pivot_order
order_matches = refl

realized_pivot_order-IsRealized_example :
    ((false ≡ true)
      × (realized_pivot_order analysed factored
          ≡ record { perm = analysed.perm; pairs = []; zero_pivots = 0 }))
    ⊎ ((false ≡ false)
        × IsRealized 3 factored.perm factored.diag_entries (realized_pivot_order analysed factored))
realized_pivot_order-IsRealized_example = realized_pivot_order-IsRealized analysed factored

-- A pivot that is no index of the order.
out_of_order :
    realized_pivot_order analysed
      (record factored { diag_entries = entry (pos 1) (pos 0) (negsuc 0) (pos 0) ∷ [] })
    ≡ no_order
unfolding realized_pivot_order
out_of_order = refl

realized_pivot_order-perm_example :
    Perm (realized_pivot_order analysed factored).perm (pos 2 ∷ pos 0 ∷ pos 1 ∷ [])
realized_pivot_order-perm_example = realized_pivot_order-perm analysed factored refl refl (
    Perm.trans (Perm.cons (pos 1) (Perm.swap (pos 0) (pos 2) []))
      (Perm.swap (pos 0) (pos 1) (pos 2 ∷ [])))
