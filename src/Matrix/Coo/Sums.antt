-- ===== src/Matrix/Coo/Sums.antt =====
-- Every place of the converted matrix holds the sum of the triplets given for it.
use mathlib.Core.Option
use opt_solver.Base.{
  ℕ, ◌≤◌, ◌<◌, ◌≡◌, refl, ap, ap, ◌∙◌, ◌&&◌, List, [], ◌∷◌, map, if◌then◌else◌, length, some, arith,
}
use opt_solver.Base.Ints.{ℤ, pos, negsuc, eqz}
use opt_solver.Bucket.{bucket}
use opt_solver.Matrix.Columns.{Pair, column}
use opt_solver.Matrix.Runs.Laws.{Addition, SortsByRow, merge_runs-sum, entry_sum, entry_sum-perm}
use opt_solver.Matrix.Coo.{
  Entry, to_pair, keep, cons_kept, valid_entries, merge_column, coo_to_lower_csc,
}
use opt_solver.Matrix.Coo.Entries.{valid_entries_lem, col_of}
use opt_solver.Matrix.Coo.Laws.{merged-many, coo_to_lower_csc-some, column-lower_of_entries}

-- The sum of the values of the triplets given for row i and column j, in the order of the input.
unfoldable pub triplet_sum : {V : Type 0} → Addition V → ℕ → ℕ → List ℤ → List ℤ → List V → V
triplet_sum a i j (r ∷ row) (c ∷ col) (v ∷ val) =
    let rest = triplet_sum a i j row col val in
    if eqz r (pos i) && eqz c (pos j) then a.add v rest else rest
triplet_sum a i j row col [] = a.zero_value
triplet_sum a i j _ _ (v ∷ val) = a.zero_value

module _ {V : Type 0} (a : Addition V) (sort : List (Pair V) → List (Pair V))
    (sorts : SortsByRow sort) where
  merged-sum :
      (i : ℕ) (ps : List (Pair V))
      → entry_sum a i (merge_column a.zero_value a.add sort (length ps) ps) ≡ entry_sum a i ps
  unfolding merge_column
  merged-sum i [] = refl
  merged-sum i (p ∷ []) = refl
  merged-sum i (p ∷ q ∷ ps) =
      rw (merged-many a.zero_value a.add sort sorts p q ps)
        (merge_runs-sum a i (sort (p ∷ q ∷ ps)) ∙ entry_sum-perm a i (sorts.sort-perm (p ∷ q ∷ ps)))

  module _ (n i j : ℕ) (below : i < n) (lower : j ≤ i) where
    abbrev sum_of : List (Entry V) → V
    sum_of es = entry_sum a i (map to_pair (bucket col_of j es))

    keep-sum :
        (r c : ℤ) (v : V) (es : List (Entry V))
        → sum_of (cons_kept (keep n r c v) es)
          ≡ (if eqz r (pos i) && eqz c (pos j) then a.add v (sum_of es) else sum_of es)
    unfolding keep bucket entry_sum
    keep-sum (pos r) (pos c) v es = ground arith
    keep-sum (pos r) (negsuc c) v es = ground arith
    keep-sum (negsuc r) c v es = refl

    valid_entries-sum :
        (row col : List ℤ) (val : List V)
        → length val ≤ length row
        → length val ≤ length col
        → (es : List (Entry V)) × (valid_entries n row col val ≡ some es)
          × (sum_of es ≡ triplet_sum a i j row col val)
    unfolding valid_entries triplet_sum bucket entry_sum
    valid_entries-sum [] [] [] h k = ([], refl, refl)
    valid_entries-sum [] (c ∷ col) [] h k = ([], refl, refl)
    valid_entries-sum (r ∷ row) [] [] h k = ([], refl, refl)
    valid_entries-sum (r ∷ row) (c ∷ col) [] h k = ([], refl, refl)
    valid_entries-sum [] col (v ∷ val) h k = absurd (omega arith)
    valid_entries-sum (r ∷ row) [] (v ∷ val) h k = absurd (omega arith)
    valid_entries-sum (r ∷ row) (c ∷ col) (v ∷ val) h k =
        let (es, e, sum) = valid_entries-sum row col val (omega arith) (omega arith) in
        (cons_kept (keep n r c v) es, rw (e, valid_entries), ground (arith, keep-sum r c v es, sum))

    -- Where std::sort sorts, addition is associative and commutative and the index arrays are as long
    -- as the values, the place (i, j) of the result holds the sum of the triplets given for it,
    -- duplicates included, for every j at most i and i below the order n.
    pub coo_to_lower_csc-sum :
        (row col : List ℤ) (val : List V)
        → length val ≤ length row
        → length val ≤ length col
        → Option.map
            (λ l. entry_sum a i (column l j))
            (coo_to_lower_csc a.zero_value a.add sort
              (record { n = pos n; row = row; col = col; val = val }))
          ≡ some (triplet_sum a i j row col val)
    coo_to_lower_csc-sum row col val h k =
        let (es, e, low) = valid_entries_lem n row col val h k in
        let (fs, f, sum) = valid_entries-sum row col val h k in
        let same : es ≡ fs = cc (e, f) in
        let result =
          column-lower_of_entries a.zero_value a.add sort sorts n es low j (omega arith) in
        rw (coo_to_lower_csc-some a.zero_value a.add sort n row col val es (omega arith) e, result)
          (ap some (merged-sum i (map to_pair (bucket col_of j es)) ∙ (ap sum_of same ∙ sum)))
