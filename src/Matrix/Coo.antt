-- ===== src/Matrix/Coo.antt =====
-- solver/src/coo_to_csc.cpp and solver/include/smf/coo_matrix.hpp: coordinate entries to the
-- lower-triangular column format. `zero_value` is 0.0, `add` the floating point addition, `sort`
-- stands for std::sort by ascending row. The arrays tmp_row and tmp_val are one array of entries.
-- An array `row` or `col` shorter than `val` is read out of range: a fault, `none`.
pub mod Entries
pub mod Laws
pub mod Sums
mod Tests
use opt_solver.Base.{
  ℕ, zero, suc, ◌+◌, ◌-◌, Bool, true, false, ◌||◌, List, [], ◌∷◌, map, ltb, leb, ◌==◌,
  if◌then◌else◌, get_or, slice, Option, some, none,
}
use opt_solver.Base.Ints.{ℤ, pos, negsuc}
use opt_solver.Bucket.{bucket_ptr, sort_by_key}
use opt_solver.Matrix.Csc.{Lower}
use opt_solver.Matrix.Columns.{Pair, no_columns, pack}
use opt_solver.Matrix.Runs.{merge_runs}

pub record CooMatrix (V : Type 0) : Type 0 where
  pub n : ℤ
  pub row : List ℤ
  pub col : List ℤ
  pub val : List V

pub record Entry (V : Type 0) : Type 0 where
  pub row : ℕ
  pub col : ℕ
  pub val : V

abbrev pub to_pair : {V : Type 0} → Entry V → Pair V
to_pair e = record { row = e.row; val = e.val }

-- The two tests that both passes make of an entry: in range, and not above the diagonal.
unfoldable pub keep : {V : Type 0} → ℕ → ℤ → ℤ → V → Option (Entry V)
keep n (pos r) (pos c) v =
    if leb n r || leb n c
    then none
    else if ltb r c
    then none
    else some (record { row = r; col = c; val = v })
keep n (pos r) (negsuc c) v = none
keep n (negsuc r) c v = none

abbrev pub cons_kept : {V : Type 0} → Option (Entry V) → List (Entry V) → List (Entry V)
cons_kept none es = es
cons_kept (some e) es = e ∷ es

-- The entries that the passes do not skip, in order.
unfoldable pub valid_entries : {V : Type 0} → ℕ → List ℤ → List ℤ → List V → Option (List (Entry V))
unfolding keep
valid_entries n (r ∷ row) (c ∷ col) (v ∷ val) = elim (valid_entries n row col val) [
  | none ↦ none
  | some es ↦ some (cons_kept (keep n r c v) es)
]
valid_entries n row col [] = some []
valid_entries n _ _ (v ∷ val) = none

module _ {V : Type 0} (zero_value : V) (add : V → V → V)
    (sort : List (Pair V) → List (Pair V)) where
  -- Step 4 for one column of `count` entries.
  unfoldable pub merge_column : ℕ → List (Pair V) → List (Pair V)
  merge_column count pairs =
      if count == 0 then [] else if count == 1 then pairs else merge_runs add (sort pairs)

  abbrev pub no_entry : Entry V
  no_entry = record { row = 0; col = 0; val = zero_value }

  -- Column j, from the scattered entries.
  unfoldable pub result_column : ℕ → List (Entry V) → ℕ → List (Pair V)
  unfolding merge_column
  result_column n es j =
      let col_ptr = bucket_ptr (λ (e : Entry V). e.col) n es in
      let tmp = sort_by_key (λ (e : Entry V). e.col) no_entry n es in
      let col_start = get_or col_ptr j 0 in
      let col_end = get_or col_ptr (suc j) 0 in
      merge_column (col_end - col_start) (map to_pair (slice col_start col_end tmp))

  unfoldable pub result_columns : ℕ → List (Entry V) → ℕ → ℕ → List (List (Pair V))
  unfolding result_column
  result_columns n es zero j = []
  result_columns n es (suc rounds) j = result_column n es j ∷ result_columns n es rounds (suc j)

  unfoldable pub lower_of_entries : ℕ → List (Entry V) → Lower V
  unfolding result_columns
  lower_of_entries n es = pack n (result_columns n es n 0)

  unfoldable pub coo_to_lower_csc : CooMatrix V → Option (Lower V)
  unfolding valid_entries lower_of_entries
  coo_to_lower_csc coo = elim coo.n [
    | negsuc k ↦ some (no_columns 0)
    | pos n ↦
        if n == 0 then some (no_columns 0) else (elim (valid_entries n coo.row coo.col coo.val) [
          | none ↦ none
          | some es ↦ some (lower_of_entries n es)
        ])
  ]
