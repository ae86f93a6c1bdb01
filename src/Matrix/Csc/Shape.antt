-- ===== src/Matrix/Csc/Shape.antt =====
-- What it is to be a well-shaped lower triangle.
use opt_solver.Base.{ℕ, ◌+◌, ◌≤◌, ◌<◌, ◌≡◌, length, get_or}
use opt_solver.Matrix.Csc.{CscLower, Lower, to_csc}

-- The columns' bounds and entries of a well-shaped lower triangle.
abbrev pub col_start : {V : Type 0} → Lower V → ℕ → ℕ
col_start l j = get_or l.col_ptr j 0

abbrev pub row : {V : Type 0} → Lower V → ℕ → ℕ
row l k = get_or l.row_idx k 0

pub record IsShaped {V : Type 0} (l : Lower V) : Type 0 where
  pub columns : length l.col_ptr ≡ l.n + 1
  pub starts : col_start l 0 ≡ 0
  pub monotone : (j : ℕ) → j < l.n → col_start l j ≤ col_start l (j + 1)
  pub rows : length l.row_idx ≡ col_start l l.n
  pub entries : length l.values ≡ col_start l l.n
  pub lower :
      (j k : ℕ)
      → j < l.n
      → col_start l j ≤ k
      → k < col_start l (j + 1)
      → (j ≤ row l k) × (row l k < l.n)

-- The matrix is the signed form of a well-shaped one.
abbrev pub Shaped : {V : Type 0} → CscLower V → Type 0
Shaped {V} a = (l : Lower V) × (a ≡ to_csc l) × IsShaped l
