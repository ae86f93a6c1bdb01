-- ===== src/Matrix/Clean/Strays.antt =====
-- What clean_lower_csc counts as out of range: the entries above the diagonal or outside the order.
use opt_solver.Base.{
  ℕ, zero, suc, ◌+◌, ◌-◌, ◌≤◌, ◌<◌, ◌≡◌, refl, sym, ap, ◌∙◌, inl, inr, Bool, true, false, not, ◌&&◌,
  List, [], ◌∷◌, map, if◌then◌else◌, ltb, leb, get_or, arith, Bool-cases,
}
use opt_solver.Base.Ints.{ℤ, pos, negsuc, pos_part, ltz}
use opt_solver.Matrix.Csc.{CscLower}
use opt_solver.Matrix.Csc.Loops.{at}
use opt_solver.Matrix.Clean.{
  Item, Checked, is_outside, gather, column_items, sum_columns, scan_columns,
}
use opt_solver.Matrix.Clean.Checks.{PassesChecks}
use opt_solver.Matrix.Clean.Scan.{scan_columns-inside}

-- A row that is not between the diagonal entry's and the last.
abbrev is_stray : ℕ → ℕ → ℤ → Bool
is_stray n j (pos r) = not (leb j r && ltb r n)
is_stray n j (negsuc m) = true

-- The strays among the places k, k + 1, ... of column j.
abbrev strays_in : List ℤ → ℕ → ℕ → ℕ → ℕ → ℕ
strays_in rows n j zero k = 0
strays_in rows n j (suc rounds) k =
    (if is_stray n j (at rows k) then 1 else 0) + strays_in rows n j rounds (suc k)

-- The strays of the columns j, j + 1, ...
abbrev strays_from : List ℕ → List ℤ → ℕ → ℕ → ℕ → ℕ
strays_from col_ptr rows n zero j = 0
strays_from col_ptr rows n (suc rounds) j =
    strays_in rows n j (get_or col_ptr (suc j) 0 - get_or col_ptr j 0) (get_or col_ptr j 0)
    + strays_from col_ptr rows n rounds (suc j)

-- The strays of an input whose order and pointers are not negative.
abbrev pub strays : {V : Type 0} → CscLower V → ℕ
strays a = strays_from (map pos_part a.col_ptr) a.row_idx (pos_part a.n) (pos_part a.n) 0

unsigned : (xs : List ℕ) → map pos_part (map pos xs) ≡ xs
unsigned [] = refl
unsigned (x ∷ xs) = ap (λ l. x ∷ l) (unsigned xs)

stray-is_outside :
    {V : Type 0} (zero_value : V) (add : V → V → V) (sort : List (Item V) → List (Item V)) (n j : ℕ)
    (i : ℤ)
    → is_stray n j i ≡ is_outside zero_value add sort n j i
stray-is_outside zero_value add sort n j (pos r) = ground arith
stray-is_outside zero_value add sort n j (negsuc m) = ground arith

module _ {V : Type 0} (zero_value : V) (add : V → V → V) (sort : List (Item V) → List (Item V))
    (c : Checked V) where
  gather-strays_in :
      (j rounds k : ℕ)
      → (gather zero_value add sort c j rounds k).dropped ≡ strays_in c.row_idx c.n j rounds k
  unfolding gather
  gather-strays_in j zero k = refl
  gather-strays_in j (suc rounds) k =
      let rest = gather-strays_in j rounds (suc k) in
      let same = stray-is_outside zero_value add sort c.n j (at c.row_idx k) in
      elim (Bool-cases (is_outside zero_value add sort c.n j (at c.row_idx k))) [
        | inl out ↦ rw (same, out) (omega (arith, rest))
        | inr kept ↦ rw (same, kept) (omega (arith, rest))
      ]

  dropped-strays_from :
      (rounds j : ℕ)
      → sum_columns (λ i. (column_items zero_value add sort c i).dropped) rounds j
        ≡ strays_from c.col_ptr c.row_idx c.n rounds j
  unfolding sum_columns column_items
  dropped-strays_from zero j = refl
  dropped-strays_from (suc rounds) j =
      omega (arith, gather-strays_in j _ _, dropped-strays_from rounds (suc j))

  none_in :
      (j rounds k : ℕ)
      → ((i : ℕ) → k ≤ i → i < k + rounds → is_stray c.n j (at c.row_idx i) ≡ false)
      → strays_in c.row_idx c.n j rounds k ≡ 0
  none_in j zero k h = refl
  none_in j (suc rounds) k h =
      let rest = none_in j rounds (suc k) (λ i s t. h i (omega arith) (omega arith)) in
      rw (h k (omega arith) (omega arith)) (omega (arith, rest))

  not_stray :
      (j : ℕ) (i : ℤ) → ltz i (pos j) ≡ false → ltz i (pos c.n) ≡ true → is_stray c.n j i ≡ false
  not_stray j i h k = ground arith

  none_from :
      (rounds j : ℕ)
      → scan_columns zero_value add sort c c.n 0 ≡ true
      → j + rounds ≤ c.n
      → strays_from c.col_ptr c.row_idx c.n rounds j ≡ 0
  none_from zero j e h = refl
  none_from (suc rounds) j e h =
      let here : strays_in c.row_idx c.n j (get_or c.col_ptr (suc j) 0 - get_or c.col_ptr j 0)
            (get_or c.col_ptr j 0)
          ≡ 0 =
        none_in j (get_or c.col_ptr (suc j) 0 - get_or c.col_ptr j 0) (get_or c.col_ptr j 0)
          (λ i s t.
            let inside =
              scan_columns-inside zero_value add sort c e j i (omega arith) s (omega arith) in
            not_stray j (at c.row_idx i) inside.0 inside.1) in
      omega (arith, here, none_from rounds (suc j) e (omega arith))

  module _ (a : CscLower V) (p : PassesChecks a c) where
    checked_strays : strays a ≡ strays_from c.col_ptr c.row_idx c.n c.n 0
    checked_strays =
        ap strays p.arrays ∙ ap (λ l. strays_from l c.row_idx c.n c.n 0) (unsigned c.col_ptr)

    pub strays-clean : scan_columns zero_value add sort c c.n 0 ≡ true → strays a ≡ 0
    strays-clean e = checked_strays ∙ none_from c.n 0 e (omega arith)

    pub strays-dropped :
        sum_columns (λ i. (column_items zero_value add sort c i).dropped) c.n 0 ≡ strays a
    strays-dropped = dropped-strays_from c.n 0 ∙ sym checked_strays
