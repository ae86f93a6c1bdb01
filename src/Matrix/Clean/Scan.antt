-- ===== src/Matrix/Clean/Scan.antt =====
-- The fast path: what the scan for a clean input establishes.
use native.Mathlib.Numerals.{add-one}
use opt_solver.Base.{
  ℕ, zero, suc, ◌+◌, ◌-◌, ◌≤◌, ◌<◌, ◌≡◌, sym, ap, subst, ◌∙◌, true, false, List, get_or, get_or-map,
  arith, dec_lt,
}
use opt_solver.Base.Ints.{ℤ, pos, pos_part, ltz}
use opt_solver.Matrix.Csc.{CscLower, Lower, to_csc}
use opt_solver.Matrix.Csc.Shape.{IsShaped, row, col_start}
use opt_solver.Matrix.Csc.Loops.{at}
use opt_solver.Matrix.Csc.Verdict.{Shaped-of_columns}
use opt_solver.Matrix.Clean.{Item, Checked, start_of, pred_z, scan_rows, scan_columns}
use opt_solver.Matrix.Clean.Checks.{PassesChecks, signed_form}

-- Within every column the rows rise strictly.
abbrev pub RowsRise : {V : Type 0} → Lower V → Type 0
RowsRise l =
    (j k : ℕ) → j < l.n → col_start l j ≤ k → suc k < col_start l (suc j) → row l k < row l (suc k)

module _ {V : Type 0} (zero_value : V) (add : V → V → V) (sort : List (Item V) → List (Item V))
    (c : Checked V) where
  abbrev rows : ℕ → ℤ
  rows k = at c.row_idx k

  scan_step :
      (rounds k : ℕ) (prev : ℤ)
      → scan_rows zero_value add sort c (suc rounds) k prev ≡ true
      → (ltz prev (rows k) ≡ true)
        × (ltz (rows k) (pos c.n) ≡ true)
        × (scan_rows zero_value add sort c rounds (suc k) (rows k) ≡ true)
  unfolding scan_rows
  scan_step rounds k prev e = ground (arith, e)

  -- Rows k, k + 1, ... that rise from above `prev` and stay below n.
  record Rise (rounds k : ℕ) (prev : ℤ) : Type 0 where
    above : (i : ℕ) → k ≤ i → i < k + rounds → ltz prev (rows i) ≡ true
    below : (i : ℕ) → k ≤ i → i < k + rounds → ltz (rows i) (pos c.n) ≡ true
    rises : (i : ℕ) → k ≤ i → suc i < k + rounds → ltz (rows i) (rows (suc i)) ≡ true

  scan_rows-Rise :
      (rounds k : ℕ) (prev : ℤ)
      → scan_rows zero_value add sort c rounds k prev ≡ true
      → Rise rounds k prev
  scan_rows-Rise zero k prev e = record {
    above = λ i p q. absurd (omega arith);
    below = λ i p q. absurd (omega arith);
    rises = λ i p q. absurd (omega arith);
  }
  scan_rows-Rise (suc rounds) k prev e =
      let (over, under, rest) = scan_step rounds k prev e in
      let later = scan_rows-Rise rounds (suc k) (rows k) rest in
      record {
        above = λ i p q. elim (dec_lt k i) [
          | yes lt ↦ ground (arith, over, later.above i lt (omega arith))
          | no here ↦ subst (λ m. ltz prev (rows m) ≡ true) {x = k} (omega arith) over
        ];
        below = λ i p q. elim (dec_lt k i) [
          | yes lt ↦ later.below i lt (omega arith)
          | no here ↦ subst (λ m. ltz (rows m) (pos c.n) ≡ true) {x = k} (omega arith) under
        ];
        rises = λ i p q. elim (dec_lt k i) [
          | yes lt ↦ later.rises i lt (omega arith)
          | no here ↦
              subst (λ m. ltz (rows m) (rows (suc m)) ≡ true) {x = k} (omega arith)
                (later.above (suc k) (omega arith) (omega arith))
        ];
      }

  scan_columns_step :
      (rounds j : ℕ)
      → scan_columns zero_value add sort c (suc rounds) j ≡ true
      → (scan_rows zero_value add sort c
            (start_of zero_value add sort c (suc j) - start_of zero_value add sort c j)
            (start_of zero_value add sort c j)
            (pred_z zero_value add sort j)
          ≡ true)
        × (scan_columns zero_value add sort c rounds (suc j) ≡ true)
  unfolding scan_columns
  scan_columns_step rounds j e = ground (arith, e)

  scan_columns-Rise :
      (rounds j i : ℕ)
      → scan_columns zero_value add sort c rounds j ≡ true
      → j ≤ i
      → i < j + rounds
      → Rise
          (get_or c.col_ptr (suc i) 0 - get_or c.col_ptr i 0)
          (get_or c.col_ptr i 0)
          (pred_z zero_value add sort i)
  scan_columns-Rise zero j i e p q = absurd (omega arith)
  scan_columns-Rise (suc rounds) j i e p q =
      let (here, rest) = scan_columns_step rounds j e in
      elim (dec_lt j i) [
        | yes lt ↦ scan_columns-Rise rounds (suc j) i rest lt (omega arith)
        | no same ↦
            subst
              (λ m.
                Rise (get_or c.col_ptr (suc m) 0 - get_or c.col_ptr m 0) (get_or c.col_ptr m 0)
                  (pred_z zero_value add sort m))
              {x = j} (omega arith) (scan_rows-Rise _ _ _ here)
      ]

  pred_z-lower :
      (j : ℕ) (i : ℤ) → ltz (pred_z zero_value add sort j) i ≡ true → ltz i (pos j) ≡ false
  pred_z-lower zero i e = ground (arith, e)
  pred_z-lower (suc j) i e = ground (arith, e)

  -- The rows of a column that the scan passes are on or below the diagonal, and below n.
  pub scan_columns-inside :
      scan_columns zero_value add sort c c.n 0 ≡ true
      → (j k : ℕ) → j < c.n
      → get_or c.col_ptr j 0 ≤ k
      → k < get_or c.col_ptr (suc j) 0
      → (ltz (rows k) (pos j) ≡ false) × (ltz (rows k) (pos c.n) ≡ true)
  scan_columns-inside e j k h s t =
      let r = scan_columns-Rise c.n 0 j e (omega arith) (omega arith) in
      (pred_z-lower j (rows k) (r.above k s (omega arith)), r.below k s (omega arith))

  -- An input that the scan passes is well shaped, with rising rows.
  pub scan_columns-Shaped :
      (a : CscLower V)
      → PassesChecks a c
      → scan_columns zero_value add sort c c.n 0 ≡ true
      → (l : Lower V) × (signed_form c ≡ to_csc l) × IsShaped l × RowsRise l
  scan_columns-Shaped a p e =
      let rise = λ (j : ℕ) (h : j < c.n). scan_columns-Rise c.n 0 j e (omega arith) (omega arith) in
      let (l, same, shaped) =
        Shaped-of_columns c.n c.col_ptr c.row_idx c.values p.columns p.starts p.monotone p.rows
          p.entries
          (λ j s t k above below.
            let r = rise j (omega arith) in
            let under : k < get_or c.col_ptr (suc j) 0 = rw (add-one j) at below in
            (
              pred_z-lower j (rows k) (r.above k above (omega (arith, under))),
              r.below k above (omega (arith, under)),
            )) in
      let order : c.n ≡ l.n = ap (λ (b : CscLower V). pos_part b.n) same in
      let start : (j : ℕ) → get_or c.col_ptr j 0 ≡ col_start l j = λ j. ap pos_part (
        sym (get_or-map pos c.col_ptr j 0)
        ∙ (ap (λ (b : CscLower V). at b.col_ptr j) same ∙ get_or-map pos l.col_ptr j 0)) in
      let entry : (k : ℕ) → rows k ≡ pos (row l k) =
        λ k. ap (λ (b : CscLower V). at b.row_idx k) same ∙ get_or-map pos l.row_idx k 0 in
      (
        l,
        same,
        shaped,
        λ j k h s t.
            let r = rise j (omega arith) in
            ground (
              arith,
              r.rises k (omega (arith, start j)) (omega (arith, start j, start (suc j))),
              entry k,
              entry (suc k),
            ),
      )
