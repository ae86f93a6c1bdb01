-- ===== src/Matrix/Coo/Laws.antt =====
-- The converted matrix is well shaped, and its columns' rows rise strictly.
use opt_solver.Base.{
  ℕ, zero, suc, ◌+◌, ◌-◌, ◌≤◌, ◌<◌, ◌≡◌, refl, ap, ap, ◌∙◌, true, List, [], ◌∷◌, map, if◌then◌else◌,
  length, length-map, get_or, slice, some, arith,
}
use opt_solver.Base.Ints.{ℤ, pos, negsuc, pos_part}
use opt_solver.Bucket.{bucket, bucket_ptr, sort_by_key}
use opt_solver.Bucket.Counts.{KeysBelow}
use opt_solver.Bucket.Laws.{bucket_ptr-suc, slice-sort_by_key}
use opt_solver.Matrix.Csc.{ErrorCode, Lower, to_csc, validate_shape}
use opt_solver.Matrix.Csc.Shape.{IsShaped}
use opt_solver.Matrix.Csc.Verdict.{validate_shape_lem}
use opt_solver.Matrix.Columns.{Pair, no_columns, column}
use opt_solver.Matrix.Columns.Laws.{RowsWithin, nth, n-pack, column-pack, pack-IsShaped}
use opt_solver.Matrix.Runs.{merge_runs}
use opt_solver.Matrix.Runs.Laws.{
  SortsByRow, Ascends-within, Climbs, RowsWithin-perm, merge_runs-within, merge_runs-Climbs,
}
use opt_solver.Matrix.Coo.{
  CooMatrix, Entry, to_pair, valid_entries, merge_column, result_column, result_columns,
  lower_of_entries, coo_to_lower_csc, no_entry,
}
use opt_solver.Matrix.Coo.Entries.{
  AllLower, AllLower-KeysBelow, bucket-within, valid_entries_lem, col_of,
}

module _ {V : Type 0} (zero_value : V) (add : V → V → V) (sort : List (Pair V) → List (Pair V))
    (sorts : SortsByRow sort) where
  abbrev merged : List (Pair V) → List (Pair V)
  merged ps = merge_column zero_value add sort (length ps) ps

  pub merged-many :
      (p q : Pair V) (ps : List (Pair V)) → merged (p ∷ q ∷ ps) ≡ merge_runs add (sort (p ∷ q ∷ ps))
  unfolding merge_column
  merged-many p q ps = ground arith

  merged-within : (lo n : ℕ) (ps : List (Pair V)) → RowsWithin lo n ps → RowsWithin lo n (merged ps)
  unfolding merge_column
  merged-within lo n [] w = tt
  merged-within lo n (p ∷ []) w = w
  merged-within lo n (p ∷ q ∷ ps) w =
      rw (merged-many p q ps) (
        merge_runs-within add lo n (sort (p ∷ q ∷ ps)) (RowsWithin-perm lo n (sorts.sort-perm _) w))

  merged-Climbs : (lo n : ℕ) (ps : List (Pair V)) → RowsWithin lo n ps → Climbs lo (merged ps)
  unfolding merge_column
  merged-Climbs lo n [] w = tt
  merged-Climbs lo n (p ∷ []) w = (w.0, tt)
  merged-Climbs lo n (p ∷ q ∷ ps) w = rw (merged-many p q ps) (
      merge_runs-Climbs add lo (sort (p ∷ q ∷ ps))
        (Ascends-within lo n _ (RowsWithin-perm lo n (sorts.sort-perm _) w) (sorts.sort-Ascends _)))

  length-result_columns :
      (n : ℕ) (es : List (Entry V)) (rounds j : ℕ)
      → length (result_columns zero_value add sort n es rounds j) ≡ rounds
  unfolding result_columns
  length-result_columns n es zero j = refl
  length-result_columns n es (suc rounds) j = ap suc (length-result_columns n es rounds (suc j))

  nth-result_columns :
      (n : ℕ) (es : List (Entry V)) (rounds j k : ℕ)
      → k < rounds
      → nth (result_columns zero_value add sort n es rounds j) k
        ≡ result_column zero_value add sort n es (j + k)
  unfolding result_columns
  nth-result_columns n es zero j k h = absurd (omega arith)
  nth-result_columns n es (suc rounds) j zero h =
      ap (result_column zero_value add sort n es) (omega arith)
  nth-result_columns n es (suc rounds) j (suc k) h =
      nth-result_columns n es rounds (suc j) k (omega arith)
      ∙ ap (result_column zero_value add sort n es) {x = suc j + k} (omega arith)

  -- The entries given for column j.
  abbrev given : ℕ → List (Entry V) → List (Pair V)
  given j es = map to_pair (bucket col_of j es)

  module _ (n : ℕ) (es : List (Entry V)) (low : AllLower n es) where
    keys : KeysBelow col_of n es
    keys = AllLower-KeysBelow n es low

    result_column_lem :
        (j : ℕ) → j < n → result_column zero_value add sort n es j ≡ merged (given j es)
    unfolding result_column
    result_column_lem j h =
        let count : get_or (bucket_ptr col_of n es) (suc j) 0 - get_or (bucket_ptr col_of n es) j 0
            ≡ length (given j es) =
          omega
            (arith, bucket_ptr-suc col_of n es keys j h, length-map (bucket col_of j es) to_pair) in
        ap
          (λ k. merge_column zero_value add sort k (
            map to_pair (
              slice (get_or (bucket_ptr col_of n es) j 0)
                (get_or (bucket_ptr col_of n es) (suc j) 0)
                (sort_by_key col_of (no_entry zero_value add sort) n es))))
          count
        ∙ ap (λ c. merge_column zero_value add sort (length (given j es)) (map to_pair c))
            (slice-sort_by_key col_of n es keys (no_entry zero_value add sort) j h)

    nth_lem :
        (j : ℕ) → j < n → nth (result_columns zero_value add sort n es n 0) j ≡ merged (given j es)
    nth_lem j h =
        nth-result_columns n es n 0 j h
        ∙ ap (result_column zero_value add sort n es) {x = 0 + j} (omega arith)
        ∙ result_column_lem j h

    pub column-lower_of_entries :
        (j : ℕ) → j < n → column (lower_of_entries zero_value add sort n es) j ≡ merged (given j es)
    unfolding lower_of_entries
    column-lower_of_entries j h =
        column-pack n (result_columns zero_value add sort n es n 0) (length-result_columns n es n 0)
          j h
        ∙ nth_lem j h

    lower_of_entries-IsShaped : IsShaped (lower_of_entries zero_value add sort n es)
    unfolding lower_of_entries
    lower_of_entries-IsShaped =
        pack-IsShaped n (result_columns zero_value add sort n es n 0)
          (length-result_columns n es n 0)
          (λ j h. rw (nth_lem j h) (merged-within j n (given j es) (bucket-within n j es low)))

    n-lower_of_entries : (lower_of_entries zero_value add sort n es).n ≡ n
    unfolding lower_of_entries
    n-lower_of_entries =
        n-pack n (result_columns zero_value add sort n es n 0) (length-result_columns n es n 0)

    column-Climbs :
        (j : ℕ) → j < n → Climbs j (column (lower_of_entries zero_value add sort n es) j)
    column-Climbs j h =
        rw (column-lower_of_entries j h) (merged-Climbs j n (given j es) (bucket-within n j es low))

-- What a conversion is to give for a matrix of order n.
pub record IsConverted {V : Type 0} (n : ℕ) (l : Lower V) : Type 0 where
  order : l.n ≡ n
  shaped : IsShaped l
  passes : validate_shape (to_csc l) ≡ some ErrorCode.success
  climbs : (j : ℕ) → j < n → Climbs j (column l j)

IsShaped-passes :
    {V : Type 0} (l : Lower V) → IsShaped l → validate_shape (to_csc l) ≡ some ErrorCode.success
IsShaped-passes l s =
    let (b, e, v) = validate_shape_lem l.n (map pos l.col_ptr) (map pos l.row_idx) l.values in
    let yes_b : b ≡ true = v.1 (l, refl, s) in
    e ∙ ap (λ c. some (if c then ErrorCode.success else ErrorCode.illegal_value)) yes_b

IsConverted-empty : {V : Type 0} → IsConverted {V = V} 0 (no_columns {V = V} 0)
IsConverted-empty {V} =
    let shaped : IsShaped (no_columns {V = V} 0) = record {
      columns = refl;
      starts = refl;
      monotone = λ j h. absurd (omega arith);
      rows = refl;
      entries = refl;
      lower = λ j k h a b. absurd (omega arith);
    } in
    record {
      order = refl;
      shaped = shaped;
      passes = IsShaped-passes (no_columns 0) shaped;
      climbs = λ j h. absurd (omega arith);
    }

module _ {V : Type 0} (zero_value : V) (add : V → V → V)
    (sort : List (Pair V) → List (Pair V)) where
  pub coo_to_lower_csc-some :
      (n : ℕ) (row col : List ℤ) (val : List V) (es : List (Entry V))
      → 0 < n
      → valid_entries n row col val ≡ some es
      → coo_to_lower_csc zero_value add sort (record { n = pos n; row = row; col = col; val = val })
        ≡ some (lower_of_entries zero_value add sort n es)
  unfolding coo_to_lower_csc
  coo_to_lower_csc-some n row col val es h e = ground (arith, e)

module _ {V : Type 0} (zero_value : V) (add : V → V → V) (sort : List (Pair V) → List (Pair V))
    (sorts : SortsByRow sort) where
  abbrev Converts : CooMatrix V → Type 0
  Converts coo =
      (l : Lower V) × (coo_to_lower_csc zero_value add sort coo ≡ some l)
      × IsConverted (pos_part coo.n) l

  converts :
      (n : ℤ) (row col : List ℤ) (val : List V)
      → length val ≤ length row
      → length val ≤ length col
      → Converts (record { n = n; row = row; col = col; val = val })
  unfolding coo_to_lower_csc
  converts (negsuc k) row col val h i = (no_columns 0, refl, IsConverted-empty)
  converts (pos zero) row col val h i = (no_columns 0, refl, IsConverted-empty)
  converts (pos (suc n)) row col val h i =
      let (es, e, low) = valid_entries_lem (suc n) row col val h i in
      let shaped = lower_of_entries-IsShaped zero_value add sort sorts (suc n) es low in
      (
        lower_of_entries zero_value add sort (suc n) es,
        coo_to_lower_csc-some zero_value add sort (suc n) row col val es (omega arith) e,
        record {
          order = n-lower_of_entries zero_value add sort sorts (suc n) es low;
          shaped = shaped;
          passes = IsShaped-passes _ shaped;
          climbs = column-Climbs zero_value add sort sorts (suc n) es low;
        },
      )

  -- Where the index arrays are as long as the values and std::sort sorts, the conversion faults nowhere
  -- and gives a matrix of the order asked (0 for a negative one) that passes the shape check, in which
  -- the rows of every column rise strictly, from the diagonal on.
  pub coo_to_lower_csc_lem :
      (coo : CooMatrix V)
      → length coo.val ≤ length coo.row
      → length coo.val ≤ length coo.col
      → (l : Lower V) × (coo_to_lower_csc zero_value add sort coo ≡ some l)
        × IsConverted (pos_part coo.n) l
  coo_to_lower_csc_lem coo h k = converts coo.n coo.row coo.col coo.val h k
