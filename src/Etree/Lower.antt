-- ===== src/Etree/Lower.antt =====
-- solver/src/etree.cpp: the tree of a lower triangle by columns is the tree of its rows.
use opt_solver.Base.{
  ℕ, zero, suc, ◌≤◌, ◌<◌, ◌≡◌, refl, sym, ap, subst, ◌∙◌, List, [], ◌∷◌, map, get_or, length, true,
  Option, some, none, if◌then◌else◌, if_true, some_inj, arith, ℕ_discrete,
}
use opt_solver.Base.Ints.{ℤ}
use opt_solver.Matrix.Csc.{◌>>=◌}
use opt_solver.Etree.{
  left_of, parents_of_rows, read_row, read_rows, nth_row, column_fits, columns_fit,
  parents_from_rows, Offdiag, offdiag_from, upper_rows, parents_of_lower,
}
use opt_solver.Etree.Entries.{IsArrays, IsEntry, IsListed, read_row-IsEntry, read_rows_all}
use opt_solver.Etree.Left.{left_of-IsLeft, left_of-to, left_of-from}
use opt_solver.Bucket.{bucket, bucket_ptr, sort_by_key}
use opt_solver.Bucket.Counts.{KeysBelow}
use opt_solver.Bucket.Laws.{slice-sort_by_key}
use opt_solver.Etree.Order.{parents_of_rows-order}
use mathlib.Core.List.{Memᴰ}
use mathlib.Core.List.Memᴰ
use mathlib.Core.List.Memᴰ.{head, tail}
use opt_solver.Etree.Column.{
  map-slice, KeysBelow-all, bucket-IsBucket, off, offdiag_from-to, offdiag_from-from,
}

module _ (n : ℕ) (column : ℕ → List ℕ)
    (lower : (j i : ℕ) → j < n → Memᴰ i (column j) → (j ≤ i) × (i < n)) where
  abbrev entries : List Offdiag
  entries = offdiag_from column 0 n

  keys : KeysBelow (λ (e : Offdiag). e.row) n entries
  keys =
      KeysBelow-all (λ (e : Offdiag). e.row) n entries
        (λ e m.
          let (lt, m', g) = offdiag_from-to column 0 n e m in
          (lower e.col e.row (omega arith) m').1)

  upper_rows-bucket :
      (k : ℕ)
      → k < n
      → upper_rows entries n k
        ≡ map (λ (e : Offdiag). e.col) (bucket (λ (e : Offdiag). e.row) k entries)
  unfolding upper_rows
  upper_rows-bucket k lt =
      map-slice (λ (e : Offdiag). e.col)
        (get_or (bucket_ptr (λ (e : Offdiag). e.row) n entries) k 0)
        (get_or (bucket_ptr (λ (e : Offdiag). e.row) n entries) (suc k) 0)
        (sort_by_key (λ (e : Offdiag). e.row) (off 0 0) n entries)
      ∙ ap (map (λ (e : Offdiag). e.col))
          (slice-sort_by_key (λ (e : Offdiag). e.row) n entries keys (off 0 0) k lt)

  upper_rows-to : (k r : ℕ) → k < n → Memᴰ r (upper_rows entries n k) → (r < k) × Memᴰ k (column r)
  upper_rows-to k r lt m =
      let (e, m', q) =
        Memᴰ.of_map (λ (e : Offdiag). e.col) _ (subst (Memᴰ r) (upper_rows-bucket k lt) m) in
      let (m'', key) = (bucket-IsBucket (λ (e : Offdiag). e.row) k entries).0 e m' in
      let (inside, entry, ne) = offdiag_from-to column 0 n e m'' in
      let (le, bound) = lower e.col e.row (omega arith) entry in
      let gap : e.col < e.row = elim (ℕ_discrete e.row e.col) [
        | yes g ↦ absurd (ne g)
        | no h ↦ omega arith
      ] in
      (omega arith, subst (Memᴰ k) (ap column q) (subst (λ z. Memᴰ z (column e.col)) key entry))

  upper_rows-from : (k r : ℕ) → r < k → k < n → Memᴰ k (column r) → Memᴰ r (upper_rows entries n k)
  upper_rows-from k r less lt m =
      let entry : Memᴰ (off k r) entries =
        offdiag_from-from column 0 n r k (omega arith) (omega arith) m
          (λ q. absurd (omega arith)) in
      subst (Memᴰ r) (sym (upper_rows-bucket k lt)) (
        Memᴰ.map (λ (e : Offdiag). e.col)
          ((bucket-IsBucket (λ (e : Offdiag). e.row) k entries).1 (off k r) entry refl))

column_fits-true : (n : ℕ) (is : List ℕ) → ((i : ℕ) → Memᴰ i is → i < n) → column_fits n is ≡ true
unfolding column_fits
column_fits-true n [] h = refl
column_fits-true n (i ∷ is) h =
    let first = h i (head refl) in
    let rest = column_fits-true n is (λ k m. h k (tail m)) in ground (arith, rest)

columns_fit-true :
    (n : ℕ) (columns : List (List ℕ))
    → ((k i : ℕ) → k < length columns → Memᴰ i (nth_row columns k) → i < n)
    → columns_fit n columns ≡ true
unfolding columns_fit
columns_fit-true n [] h = refl
columns_fit-true n (is ∷ columns) h =
    let first = column_fits-true n is (λ i m. h 0 i (omega arith) m) in
    let rest = columns_fit-true n columns (λ k i lt m. h (suc k) i (omega arith) m) in
    cc (first, rest)

length_step :
    (r : Option (List ℕ)) (rest : Option (List (List ℕ))) (count : ℕ) (ls : List (List ℕ))
    → ((more : List (List ℕ)) → rest ≡ some more → length more ≡ count)
    → (r >>= (λ r. rest >>= (λ rest. some (r ∷ rest)))) ≡ some ls
    → length ls ≡ suc count
length_step none rest count ls h e = absurd (ground arith)
length_step (some r) none count ls h e = absurd (ground arith)
length_step (some r) (some rest) count ls h e = omega (arith, ap length (some_inj e), h rest refl)

length-read_rows :
    (row : ℕ → Option (List ℕ)) (j count : ℕ) (ls : List (List ℕ))
    → read_rows row j count ≡ some ls
    → length ls ≡ count
unfolding read_rows
length-read_rows row j zero ls e = ap length (sym (some_inj e))
length-read_rows row j (suc count) ls e =
    length_step (row j) (read_rows row (suc j) count) count ls (length-read_rows row (suc j) count)
      e

-- The entries of the lower triangle of an n by n matrix, by columns.
abbrev pub IsLower : ℕ → List ℤ → List ℤ → Type 0
IsLower n col_ptr row_idx = (j i : ℕ) → j < n → IsEntry col_ptr row_idx j i → (j ≤ i) × (i < n)

pub parents_of_lower-parents_from_rows :
    (n : ℕ) (col_ptr row_idx row_ptr row_cols : List ℤ)
    → IsArrays n col_ptr row_idx
    → IsArrays n row_ptr row_cols
    → IsLower n col_ptr row_idx
    → ((k r : ℕ) → r < k → k < n → IsEntry row_ptr row_cols k r → IsEntry col_ptr row_idx r k)
    → ((k r : ℕ) → r < k → k < n → IsEntry col_ptr row_idx r k → IsEntry row_ptr row_cols k r)
    → parents_of_lower n col_ptr row_idx ≡ parents_from_rows n row_ptr row_cols
unfolding parents_of_lower parents_from_rows
parents_of_lower-parents_from_rows n col_ptr row_idx row_ptr row_cols a b lower to_column to_row =
    let (columns, e, q) =
      read_rows_all (read_row col_ptr row_idx) (λ j l. IsListed (IsEntry col_ptr row_idx j) l) n
        (read_row-IsEntry a) in
    let (rows, g, p) =
      read_rows_all (read_row row_ptr row_cols) (λ k l. IsListed (IsEntry row_ptr row_cols k) l) n
        (read_row-IsEntry b) in
    let column : ℕ → List ℕ = nth_row columns in
    let low : (j i : ℕ) → j < n → Memᴰ i (column j) → (j ≤ i) × (i < n) =
      λ j i lt m. lower j i lt ((q j lt).0 i m) in
    let wide : length columns ≡ n = length-read_rows (read_row col_ptr row_idx) 0 n columns e in
    let fits : columns_fit n columns ≡ true =
      columns_fit-true n columns (λ k i lt m. (low k i (omega arith) m).1) in
    ap
      (λ o. o >>= (λ columns.
        if columns_fit n columns
        then parents_of_rows n (upper_rows (offdiag_from (nth_row columns) 0 n) n)
        else none))
      e
    ∙ if_true (columns_fit n columns) _ _ fits
    ∙ parents_of_rows-order n (upper_rows (offdiag_from column 0 n) n)
        (λ k. left_of k (nth_row rows k)) (λ k lt r m. (upper_rows-to n column low k r lt m).0)
        (λ k lt. left_of-IsLeft k _)
        (λ k r lt m.
          let (less, m') = upper_rows-to n column low k r lt m in
          left_of-from k _ r less ((p k lt).1 r (to_row k r less lt ((q r (omega arith)).0 k m'))))
        (λ k r lt m.
          let less : r < k = left_of-IsLeft k _ r m in
          upper_rows-from n column low k r less lt
            ((q r (omega arith)).1 k (to_column k r less lt ((p k lt).0 r (left_of-to k _ r m)))))
    ∙ sym (ap (λ o. o >>= (λ rows. parents_of_rows n (λ k. left_of k (nth_row rows k)))) g)
