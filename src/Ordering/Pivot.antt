-- ===== src/Ordering/Pivot.antt =====
-- solver/src/pivot_order.cpp, solver/include/smf/pivot_order.hpp and DiagSolveEntry of
-- factor_posdef.hpp: the elimination order that a factor realized, read off its diagonal entries.
pub mod Laws
pub mod Permutation
pub mod Realized
mod Tests
use opt_solver.Base.{
  ℕ, Bool, true, false, not, ◌&&◌, ◌||◌, List, [], ◌∷◌, ◌++◌, ltb, ◌==◌, if◌then◌else◌, length,
  get_or,
}
use opt_solver.Base.Ints.{ℤ, pos, negsuc, pos_part, ltz, eqz}

pub record DiagSolveEntry (V : Type 0) : Type 0 where
  pub tag : ℤ
  pub was_zero : ℤ
  pub row0 : ℤ
  pub row1 : ℤ
  pub d00 : V
  pub d10 : V
  pub d11 : V

-- The fields of AnalysisKeep and FactorKeep that the function reads.
pub record AnalysisKeep : Type 0 where
  pub n : ℕ
  pub perm : List ℤ

pub record FactorKeep (V : Type 0) : Type 0 where
  pub is_posdef : Bool
  pub perm : List ℤ
  pub diag_entries : List (DiagSolveEntry V)

pub record RealizedOrder : Type 0 where
  pub perm : List ℤ
  pub pairs : List ℤ
  pub zero_pivots : ℕ

-- The local variables of the loop.
pub record Realizing : Type 0 where
  pub perm : List ℤ
  pub pairs : List ℤ
  pub zeros : List ℤ
  pub bad : Bool

-- What the lambda `orig` tests, and what it returns.
unfoldable pub is_pivot : ℕ → List ℤ → ℤ → Bool
is_pivot n perm piv =
    not (ltz piv (pos 0) || not (ltb (pos_part piv) (length perm)) || not (length perm == n))

unfoldable pub orig : ℕ → List ℤ → ℤ → ℤ
unfolding is_pivot
orig n perm piv = if is_pivot n perm piv then get_or perm (pos_part piv) (pos 0) else pos 0

-- One round of the loop over the diagonal entries.
unfoldable pub realize_step : {V : Type 0} → ℕ → List ℤ → Realizing → DiagSolveEntry V → Realizing
unfolding orig
realize_step n perm s e =
    let a = orig n perm e.row0 in
    let b = orig n perm e.row1 in
    let bad_a = s.bad || not (is_pivot n perm e.row0) in
    if not (eqz e.was_zero (pos 0))
    then record s { zeros = s.zeros ++ a ∷ []; bad = bad_a }
    else if eqz e.tag (pos 2)
    then record s {
      perm = s.perm ++ a ∷ b ∷ [];
      pairs = s.pairs ++ a ∷ b ∷ [];
      bad = bad_a || not (is_pivot n perm e.row1);
    }
    else record s { perm = s.perm ++ a ∷ []; bad = bad_a }

unfoldable pub realize : {V : Type 0} → ℕ → List ℤ → Realizing → List (DiagSolveEntry V) → Realizing
unfolding realize_step
realize n perm s [] = s
realize n perm s (e ∷ es) =
    let next = realize_step n perm s e in
    let rest = realize n perm next es in if next.bad then next else rest

abbrev pub no_order : RealizedOrder
no_order = record { perm = []; pairs = []; zero_pivots = 0 }

abbrev pub not_started : Realizing
not_started = record { perm = []; pairs = []; zeros = []; bad = false }

-- What follows the loop.
unfoldable pub finish_order : ℕ → Realizing → RealizedOrder
finish_order n s =
    let whole = s.perm ++ s.zeros in
    if s.bad || not (length whole == n)
    then no_order
    else record { perm = whole; pairs = s.pairs; zero_pivots = length s.zeros }

unfoldable pub realized_pivot_order : {V : Type 0} → AnalysisKeep → FactorKeep V → RealizedOrder
unfolding realize finish_order
realized_pivot_order ak fk =
    if fk.is_posdef
    then record no_order { perm = ak.perm }
    else finish_order ak.n (realize ak.n fk.perm not_started fk.diag_entries)
