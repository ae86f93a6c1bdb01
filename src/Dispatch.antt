-- ===== src/Dispatch.antt =====
-- solver/src/dispatch_policy.cpp and solver/include/smf/dispatch_policy.hpp: which factorization path
-- a matrix takes. The analysed matrix is a cleaned one, so that its arrays hold no negative number.
-- `density` stands for the floating point quotient of the stored entries and the n (n + 1) / 2 places,
-- `half_full` for its comparison with 0.5. The order ak.n is that of the cleaned matrix. The reason
-- strings, one for each path, are left out.
pub mod Laws
pub mod Certify
mod Tests
use opt_solver.Base.{
  ℕ, zero, suc, ◌+◌, ◌-◌, Bool, true, false, not, ◌&&◌, ◌||◌, max, ltb, leb, ◌==◌, if◌then◌else◌,
}
use opt_solver.Matrix.Csc.{Lower, nnz}
use opt_solver.Matrix.Csc.Shape.{col_start, row}

pub data NativePath : Type 0 where
  tiny_dense banded_spd sparse_spd general_indefinite certified_quasi_definite : NativePath

pub record DispatchDecision (V : Type 0) : Type 0 where
  pub path : NativePath
  pub lower_bandwidth : ℕ
  pub density : V

pub data MatrixType : Type 0 where
  real_symmetric_positive_definite real_symmetric_indefinite : MatrixType

pub data OrderingMethod : Type 0 where
  auto_serial auto_parallel amd metis user_supplied matching : OrderingMethod

-- The fields of Control that the choice reads.
pub record Control : Type 0 where
  pub matrix_type : MatrixType
  pub ordering : OrderingMethod
  pub expected_refactors : ℕ

abbrev pub is_positive_definite : MatrixType → Bool
is_positive_definite MatrixType.real_symmetric_positive_definite = true
is_positive_definite MatrixType.real_symmetric_indefinite = false

abbrev pub is_auto_parallel : OrderingMethod → Bool
is_auto_parallel OrderingMethod.auto_serial = false
is_auto_parallel OrderingMethod.auto_parallel = true
is_auto_parallel OrderingMethod.amd = false
is_auto_parallel OrderingMethod.metis = false
is_auto_parallel OrderingMethod.user_supplied = false
is_auto_parallel OrderingMethod.matching = false

module _ {V : Type 0} where
  -- The entries k, k + 1, ... of column j; a row above j makes the difference 0 or less.
  unfoldable pub column_bw : Lower V → ℕ → ℕ → ℕ → ℕ → ℕ
  column_bw a j zero p bw = bw
  column_bw a j (suc rounds) p bw =
      let d = row a p - j in column_bw a j rounds (suc p) (if ltb bw d then d else bw)

  unfoldable pub columns_bw : Lower V → ℕ → ℕ → ℕ → ℕ
  unfolding column_bw
  columns_bw a zero j bw = bw
  columns_bw a (suc rounds) j bw =
      columns_bw a rounds (suc j)
        (column_bw a j (col_start a (suc j) - col_start a j) (col_start a j) bw)

  unfoldable pub compute_lower_bw : Lower V → ℕ
  unfolding columns_bw
  compute_lower_bw a = columns_bw a a.n 0 0

  unfoldable pub leads_with_diagonal : Lower V → ℕ → ℕ → Bool
  leads_with_diagonal a zero j = true
  leads_with_diagonal a (suc rounds) j =
      let rest = leads_with_diagonal a rounds (suc j) in
      if leb (col_start a (suc j)) (col_start a j) || not (row a (col_start a j) == j)
      then false
      else rest

  unfoldable pub has_full_structural_diagonal : Lower V → Bool
  unfolding leads_with_diagonal
  has_full_structural_diagonal a = if a.n == 0 then false else leads_with_diagonal a a.n 0

  module _ (density : ℕ → ℕ → V) (half_full : V → Bool) where
    unfoldable pub select_native_path : Lower V → Control → ℕ → DispatchDecision V
    unfolding compute_lower_bw has_full_structural_diagonal nnz
    select_native_path a ctrl expected_refactors =
        let d = density (nnz a) a.n in
        let bw = compute_lower_bw a in
        let refactors = max expected_refactors ctrl.expected_refactors in
        let decide : NativePath → DispatchDecision V =
          λ path. record { path = path; lower_bandwidth = bw; density = d } in
        if ltb 0 a.n && (leb a.n 16 && half_full d)
        then decide NativePath.tiny_dense
        else if is_positive_definite ctrl.matrix_type
        then (if is_auto_parallel ctrl.ordering && (leb 100 a.n && (ltb 0 bw && leb bw 128))
            then decide NativePath.banded_spd
            else decide NativePath.sparse_spd)
        else if leb 5 refactors && (ltb 16 a.n && has_full_structural_diagonal a)
        then decide NativePath.certified_quasi_definite
        else decide NativePath.general_indefinite
