-- ===== src/Etree.antt =====
-- solver/src/etree.cpp and solver/include/smf/etree.hpp: the parents of the elimination tree by Liu's
-- algorithm with path compression. A parent or ancestor is pos k, or negative for -1. The climb, a while
-- loop in the source, runs on fuel, n rounds, and is `none` when they do not suffice; a read out
-- of range is `none` as well. The loop over the rows takes them as a function: row k lists the columns left of
-- the diagonal.
pub mod Path
pub mod Climb
pub mod Link
pub mod Rows
pub mod Entries
pub mod Left
pub mod Laws
pub mod Permuted
pub mod Order
pub mod Column
pub mod Lower
pub mod Postorder
mod Tests
use opt_solver.Base.{
  get_elem?, ◌&&◌, ℕ, zero, suc, ◌+◌, ◌-◌, Bool, true, false, not, List, [], ◌∷◌, ◌++◌, map, ltb,
  ◌==◌, if◌then◌else◌, length, get_or, set, slice, replicate, Option, some, none,
}
use opt_solver.Base.Ints.{succ_z, difference, ℤ, pos, negsuc}
use opt_solver.Matrix.Csc.{read, ◌>>=◌}
use opt_solver.Bucket.{bucket_ptr, sort_by_key}

-- parent and ancestor
pub record Forest : Type 0 where
  pub parent : List ℤ
  pub ancestor : List ℤ

-- Where the walk from r ends, with the ancestors that it has set to k.
unfoldable pub climb : ℕ → List ℤ → ℕ → ℕ → Option (ℕ × List ℤ)
climb zero ancestor k r = none
climb (suc fuel) ancestor k r = elim (get_or ancestor r (negsuc 0)) [
  | negsuc m ↦ some (r, ancestor)
  | pos t ↦
      let rest = climb fuel (set ancestor r (pos k)) k t in
      if t == k then some (r, ancestor) else rest
]

unfoldable pub link : ℕ → List ℤ → ℕ × List ℤ → Forest
link k parent (r, ancestor) = elim (get_or ancestor r (negsuc 0)) [
  | negsuc m ↦ record { parent = set parent r (pos k); ancestor = set ancestor r (pos k) }
  | pos t ↦ record { parent = parent; ancestor = ancestor }
]

-- The entry of row k in column r.
unfoldable pub enter : ℕ → ℕ → Forest → ℕ → Option Forest
unfolding climb link
enter fuel k f r = do end ← climb fuel f.ancestor k r; some (link k f.parent end)

unfoldable pub enter_row : ℕ → ℕ → List ℕ → Forest → Option Forest
unfolding enter
enter_row fuel k [] f = some f
enter_row fuel k (r ∷ rs) f = do next ← enter fuel k f r; enter_row fuel k rs next

-- The rows k, k + 1, ...
unfoldable pub enter_rows : ℕ → (ℕ → List ℕ) → ℕ → ℕ → Forest → Option Forest
unfolding enter_row
enter_rows fuel rows k zero f = some f
enter_rows fuel rows k (suc count) f = do
  next ← enter_row fuel k (rows k) f
  enter_rows fuel rows (suc k) count next

abbrev pub unlinked : ℕ → Forest
unlinked n = record { parent = replicate n (negsuc 0); ancestor = replicate n (negsuc 0) }

unfoldable pub parents_of_rows : ℕ → (ℕ → List ℕ) → Option (List ℤ)
unfolding enter_rows
parents_of_rows n rows = do f ← enter_rows n rows 0 n (unlinked n); some f.parent

-- if (r >= k) continue
unfoldable pub left_of : ℕ → List ℕ → List ℕ
left_of k [] = []
left_of k (r ∷ rs) = let rest = left_of k rs in if ltb r k then r ∷ rest else rest

-- An index read from an array; a negative one is out of range where it is used.
abbrev pub index_of : ℤ → Option ℕ
index_of (pos r) = some r
index_of (negsuc m) = none

-- The indices at the places p, p + 1, ...
unfoldable pub read_places : List ℤ → ℕ → ℤ → Option (List ℕ)
read_places cols zero p = some []
read_places cols (suc rounds) p = do
  c ← read cols p
  r ← index_of c
  rest ← read_places cols rounds (succ_z p)
  some (r ∷ rest)

-- The entries of row k, from row_ptr[k] to row_ptr[k + 1].
unfoldable pub read_row : List ℤ → List ℤ → ℕ → Option (List ℕ)
unfolding read_places
read_row row_ptr row_cols k = do
  lo ← get_elem? row_ptr k
  hi ← get_elem? row_ptr (suc k)
  read_places row_cols (difference hi lo) lo

-- The rows k, k + 1, ... A fault in one of them is a fault of the loop, so that they are read first.
unfoldable pub read_rows : (ℕ → Option (List ℕ)) → ℕ → ℕ → Option (List (List ℕ))
read_rows row k zero = some []
read_rows row k (suc count) = do r ← row k; rest ← read_rows row (suc k) count; some (r ∷ rest)

abbrev pub nth_row : List (List ℕ) → ℕ → List ℕ
nth_row rows k = get_or rows k []

-- The parents of build_elimination_tree_from_rows.
unfoldable pub parents_from_rows : ℕ → List ℤ → List ℤ → Option (List ℤ)
unfolding parents_of_rows left_of read_rows read_row
parents_from_rows n row_ptr row_cols = do
  rows ← read_rows (read_row row_ptr row_cols) 0 n
  parents_of_rows n (λ k. left_of k (nth_row rows k))

-- iperm[v] for the neighbours v
unfoldable pub new_numbers : List ℤ → List ℕ → Option (List ℕ)
new_numbers iperm [] = some []
new_numbers iperm (v ∷ vs) = do
  z ← get_elem? iperm v
  r ← index_of z
  rest ← new_numbers iperm vs
  some (r ∷ rest)

-- Row k of the permuted matrix, by the neighbours of its old vertex.
unfoldable pub permuted_row : List ℤ → List ℤ → List ℤ → List ℤ → ℕ → Option (List ℕ)
unfolding left_of read_row new_numbers
permuted_row xadj adj perm iperm k = do
  z ← get_elem? perm k
  v ← index_of z
  neighbours ← read_row xadj adj v
  rs ← new_numbers iperm neighbours
  some (left_of k rs)

unfoldable pub etree_from_adjacency : ℕ → List ℤ → List ℤ → List ℤ → List ℤ → Option (List ℤ)
unfolding parents_of_rows permuted_row read_rows
etree_from_adjacency n xadj adj perm iperm = do
  rows ← read_rows (permuted_row xadj adj perm iperm) 0 n
  parents_of_rows n (nth_row rows)

-- An entry off the diagonal of the lower triangle.
pub record Offdiag : Type 0 where
  pub row : ℕ
  pub col : ℕ

unfoldable pub column_offdiag : ℕ → List ℕ → List Offdiag → List Offdiag
column_offdiag j [] rest = rest
column_offdiag j (i ∷ is) rest =
    let more = column_offdiag j is rest in
    if i == j then more else record { row = i; col = j } ∷ more

-- The entries of the columns j, j + 1, ..., by columns.
unfoldable pub offdiag_from : (ℕ → List ℕ) → ℕ → ℕ → List Offdiag
unfolding column_offdiag
offdiag_from columns j zero = []
offdiag_from columns j (suc count) =
    column_offdiag j (columns j) (offdiag_from columns (suc j) count)

-- What row_slice reads are arrays of the function's own, within their ends.
abbrev pub row_slice : List ℕ → List ℕ → ℕ → List ℕ
row_slice row_ptr row_cols k = slice (get_or row_ptr k 0) (get_or row_ptr (suc k) 0) row_cols

-- urow: the columns of the entries, by rows
unfoldable pub upper_rows : List Offdiag → ℕ → ℕ → List ℕ
unfolding sort_by_key bucket_ptr
upper_rows entries n k =
    row_slice (bucket_ptr (λ (e : Offdiag). e.row) n entries)
      (map (λ (e : Offdiag). e.col)
        (sort_by_key (λ (e : Offdiag). e.row) (record { row = 0; col = 0 }) n entries))
      k

-- Every entry has its counter in ucol.
unfoldable pub column_fits : ℕ → List ℕ → Bool
column_fits n [] = true
column_fits n (i ∷ is) = ltb i n && column_fits n is

unfoldable pub columns_fit : ℕ → List (List ℕ) → Bool
unfolding column_fits
columns_fit n [] = true
columns_fit n (is ∷ columns) = column_fits n is && columns_fit n columns

-- The parents of build_elimination_tree.
unfoldable pub parents_of_lower : ℕ → List ℤ → List ℤ → Option (List ℤ)
unfolding parents_of_rows upper_rows offdiag_from read_rows read_row columns_fit
parents_of_lower n col_ptr row_idx = do
  columns ← read_rows (read_row col_ptr row_idx) 0 n
  if columns_fit n columns
      then parents_of_rows n (upper_rows (offdiag_from (nth_row columns) 0 n) n)
      else none
