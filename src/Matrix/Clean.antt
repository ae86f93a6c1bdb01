-- ===== src/Matrix/Clean.antt =====
-- solver/src/check_matrix.cpp and solver/include/smf/check_matrix.hpp: clean_lower_csc. `zero_value`
-- is 0.0, `add` the floating point addition, `sort` stands for std::sort by ascending row. Once the
-- checks have passed no column pointer is negative and every read is in range, so that the reads are
-- total from there on. The loop over the columns is split: each column's runs first, then what the
-- runs add to each of the results.
pub mod Items
pub mod Checks
pub mod Scan
pub mod Strays
pub mod Laws
mod Tests
use opt_solver.Base.{
  ℕ, zero, suc, ◌+◌, ◌-◌, Bool, true, false, not, ◌&&◌, ◌||◌, List, [], ◌∷◌, ◌++◌, map, ◌==◌,
  if◌then◌else◌, length, get_elem?, get_or, set, replicate, Option, some, none,
}
use opt_solver.Base.Ints.{ℤ, pos, negsuc, pos_part, ltz, eqz, succ_z}
use opt_solver.Matrix.Csc.{ErrorCode, CscLower, to_csc, ◌>>=◌, read, is_size, monotone_from}
use opt_solver.Matrix.Columns.{Pair, pack}

-- The fields of Info that the cleaning writes.
pub record Info : Type 0 where
  pub status : ErrorCode
  pub matrix_duplicates : ℕ
  pub matrix_missing_diag : ℕ
  pub matrix_out_of_range : ℕ

pub record CleanedPattern (V : Type 0) : Type 0 where
  pub clean : CscLower V
  pub original_to_clean : List ℤ
  pub duplicates : ℕ
  pub out_of_range : ℕ
  pub missing_diag : ℕ
  pub was_clean : Bool

-- One entry of the per-column working buffer.
pub record Item (V : Type 0) : Type 0 where
  pub row : ℕ
  pub val : V
  pub orig_k : ℕ

-- A run of entries of one row: the row, the sum, and where the entries came from.
pub record Run (V : Type 0) : Type 0 where
  pub row : ℕ
  pub val : V
  pub origs : List ℕ

abbrev pub run_pair : {V : Type 0} → Run V → Pair V
run_pair r = record { row = r.row; val = r.val }

abbrev pub item_pair : {V : Type 0} → Item V → Pair V
item_pair e = record { row = e.row; val = e.val }

-- The arrays of a matrix whose checks have passed.
pub record Checked (V : Type 0) : Type 0 where
  pub n : ℕ
  pub col_ptr : List ℕ
  pub row_idx : List ℤ
  pub values : List V

-- What the loop over one column's entries gathers: the entries kept, and how many it left out.
pub record Gathered (V : Type 0) : Type 0 where
  pub entries : List (Item V)
  pub dropped : ℕ

-- for (j = 0; j < n; ++j), adding what each column counts
unfoldable pub sum_columns : (ℕ → ℕ) → ℕ → ℕ → ℕ
sum_columns f zero j = 0
sum_columns f (suc rounds) j = f j + sum_columns f rounds (suc j)

module _ {V : Type 0} (zero_value : V) (add : V → V → V)
    (sort : List (Item V) → List (Item V)) where
  abbrev pub row_at : Checked V → ℕ → ℤ
  row_at a k = get_or a.row_idx k (pos 0)

  abbrev pub start_of : Checked V → ℕ → ℕ
  start_of a j = get_or a.col_ptr j 0

  -- i < j || i >= n
  abbrev pub is_outside : ℕ → ℕ → ℤ → Bool
  is_outside n j i = ltz i (pos j) || not (ltz i (pos n))

  -- The scan of one column for rows in range and strictly rising.
  unfoldable pub scan_rows : Checked V → ℕ → ℕ → ℤ → Bool
  scan_rows a zero k prev = true
  scan_rows a (suc rounds) k prev =
      let i = row_at a k in
      let rest = scan_rows a rounds (suc k) i in
      if not (ltz prev i) || not (ltz i (pos a.n)) then false else rest

  -- j - 1
  abbrev pub pred_z : ℕ → ℤ
  pred_z zero = negsuc 0
  pred_z (suc j) = pos j

  unfoldable pub scan_columns : Checked V → ℕ → ℕ → Bool
  unfolding scan_rows
  scan_columns a zero j = true
  scan_columns a (suc rounds) j =
      scan_rows a (start_of a (suc j) - start_of a j) (start_of a j) (pred_z j)
      && scan_columns a rounds (suc j)

  -- Of a column whose rows rise the diagonal, if there, comes first.
  unfoldable pub lacks_first : Checked V → ℕ → ℕ
  lacks_first a j =
      if start_of a j == start_of a (suc j) || not (eqz (row_at a (start_of a j)) (pos j))
      then 1
      else 0

  -- 0, 1, 2, ...
  abbrev pub counting : ℕ → ℕ → List ℤ
  counting zero k = []
  counting (suc rounds) k = pos k ∷ counting rounds (suc k)

  unfoldable pub fast_path : Checked V → CleanedPattern V
  unfolding lacks_first sum_columns
  fast_path a = record {
    clean = record {
      n = pos a.n;
      col_ptr = map pos a.col_ptr;
      row_idx = a.row_idx;
      values = a.values;
    };
    original_to_clean = counting (length a.row_idx) 0;
    duplicates = 0;
    out_of_range = 0;
    missing_diag = sum_columns (lacks_first a) a.n 0;
    was_clean = true;
  }

  -- The entries k, k + 1, ... of column j.
  unfoldable pub gather : Checked V → ℕ → ℕ → ℕ → Gathered V
  gather a j zero k = record { entries = []; dropped = 0 }
  gather a j (suc rounds) k =
      let rest = gather a j rounds (suc k) in
      let i = row_at a k in
      if is_outside a.n j i then record rest { dropped = rest.dropped + 1 } else record rest {
        entries =
            record { row = pos_part i; val = get_or a.values k zero_value; orig_k = k }
            ∷ rest.entries;
      }

  unfoldable pub column_items : Checked V → ℕ → Gathered V
  unfolding gather
  column_items a j = gather a j (start_of a (suc j) - start_of a j) (start_of a j)

  -- The run of row `r` so far sums to `s`.
  unfoldable pub runs_from : ℕ → V → List ℕ → List (Item V) → List (Run V)
  runs_from r s origs [] = record { row = r; val = s; origs = origs } ∷ []
  runs_from r s origs (e ∷ es) = elim (e.row == r) [
    | true ↦ runs_from r (add s e.val) (origs ++ e.orig_k ∷ []) es
    | false ↦ record { row = r; val = s; origs = origs } ∷ runs_from e.row e.val (e.orig_k ∷ []) es
  ]

  unfoldable pub runs : List (Item V) → List (Run V)
  unfolding runs_from
  runs [] = []
  runs (e ∷ es) = runs_from e.row e.val (e.orig_k ∷ []) es

  unfoldable pub column_runs : Checked V → ℕ → List (Run V)
  unfolding runs column_items
  column_runs a j = runs (sort (column_items a j).entries)

  unfoldable pub all_runs : Checked V → ℕ → ℕ → List (List (Run V))
  unfolding column_runs
  all_runs a zero j = []
  all_runs a (suc rounds) j = column_runs a j ∷ all_runs a rounds (suc j)

  -- ++duplicates for every entry of a run but the first
  unfoldable pub extra : List (Run V) → ℕ
  extra [] = 0
  extra (r ∷ rs) = (length r.origs - 1) + extra rs

  unfoldable pub has_diagonal : ℕ → List (Run V) → Bool
  has_diagonal j [] = false
  has_diagonal j (r ∷ rs) = r.row == j || has_diagonal j rs

  -- original_to_clean[m] = clean_pos for the entries of one run
  abbrev pub mark_all : List ℕ → ℤ → List ℤ → List ℤ
  mark_all [] p o = o
  mark_all (k ∷ ks) p o = mark_all ks p (set o k p)

  unfoldable pub mark_runs : ℕ → List (Run V) → List ℤ → List ℤ
  mark_runs clean_idx [] o = o
  mark_runs clean_idx (r ∷ rs) o = mark_runs (suc clean_idx) rs (mark_all r.origs (pos clean_idx) o)

  unfoldable pub mark_columns : ℕ → List (List (Run V)) → List ℤ → List ℤ
  unfolding mark_runs
  mark_columns clean_idx [] o = o
  mark_columns clean_idx (c ∷ cs) o =
      mark_columns (clean_idx + length c) cs (mark_runs clean_idx c o)

  unfoldable pub slow_path : Checked V → CleanedPattern V
  unfolding all_runs extra has_diagonal mark_columns sum_columns
  slow_path a =
      let cs = all_runs a a.n 0 in
      record {
        clean = to_csc (pack a.n (map (map run_pair) cs));
        original_to_clean = mark_columns 0 cs (replicate (length a.row_idx) (negsuc 0));
        duplicates = sum_columns (λ j. extra (column_runs a j)) a.n 0;
        out_of_range = sum_columns (λ j. (column_items a j).dropped) a.n 0;
        missing_diag = sum_columns (λ j. if has_diagonal j (column_runs a j) then 0 else 1) a.n 0;
        was_clean = false;
      }

  -- What follows the checks.
  unfoldable pub clean_checked : Checked V → Bool → CleanedPattern V
  unfolding scan_columns fast_path slow_path
  clean_checked a check = if not check || scan_columns a a.n 0 then fast_path a else slow_path a

  abbrev pub no_pattern : CleanedPattern V
  no_pattern = record {
    clean = record { n = pos 0; col_ptr = []; row_idx = []; values = [] };
    original_to_clean = [];
    duplicates = 0;
    out_of_range = 0;
    missing_diag = 0;
    was_clean = false;
  }

  abbrev pub rejected : Info → CleanedPattern V × Info
  rejected info = (no_pattern, record info { status = ErrorCode.illegal_value })

  abbrev pub accepted : CleanedPattern V → Info → CleanedPattern V × Info
  accepted c info = (
    c,
    record info {
      matrix_duplicates = c.duplicates;
      matrix_out_of_range = c.out_of_range;
      matrix_missing_diag = c.missing_diag;
    },
  )

  unfoldable pub clean_lower_csc : CscLower V → Info → Bool → Option (CleanedPattern V × Info)
  unfolding clean_checked monotone_from
  clean_lower_csc a info check =
      if ltz a.n (pos 0)
      then some (rejected info)
      else if not (is_size (length a.col_ptr) (succ_z a.n))
      then some (rejected info)
      else do
        first ← get_elem? a.col_ptr 0
        if not (eqz first (pos 0)) then some (rejected info) else do
          monotone ← monotone_from a.col_ptr (pos_part a.n) 0
          if not monotone then some (rejected info) else do
            nnz ← read a.col_ptr a.n
            if not (is_size (length a.row_idx) nnz) || not (is_size (length a.values) nnz)
                then some (rejected info)
                else some (
                    accepted
                      (clean_checked
                        (record {
                          n = pos_part a.n;
                          col_ptr = map pos_part a.col_ptr;
                          row_idx = a.row_idx;
                          values = a.values;
                        })
                        check)
                      info)
