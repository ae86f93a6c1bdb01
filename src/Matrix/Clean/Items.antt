-- ===== src/Matrix/Clean/Items.antt =====
-- One column of the cleaning: what is gathered, and the runs it is merged into.
use mathlib.Core.List.Perm
use opt_solver.Base.{
  ℕ, zero, suc, ◌+◌, ◌≤◌, ◌<◌, ◌≡◌, refl, ap, ◌∙◌, inl, inr, Bool, true, false, List, [], ◌∷◌, ◌++◌,
  map, Perm, ◌==◌, length, length-append, get_or, arith, Bool-cases,
}
use opt_solver.Base.Ints.{ℤ, pos, negsuc, pos_part}
use opt_solver.Matrix.Columns.{Pair}
use opt_solver.Matrix.Columns.Laws.{RowsWithin}
use opt_solver.Matrix.Runs.{merge_from, merge_runs}
use opt_solver.Matrix.Runs.Laws.{
  Ascends, Climbs, Ascends-within, RowsWithin-perm, merge_runs-within, merge_runs-Climbs,
  merge_from-same, merge_from-other,
}
use opt_solver.Matrix.Clean.{
  Item, Run, Checked, run_pair, item_pair, row_at, is_outside, gather, column_items, runs_from,
  runs, column_runs, extra,
}

-- The documented behaviour of std::sort by ascending row.
pub record SortsItems {V : Type 0} (sort : List (Item V) → List (Item V)) : Type 0 where
  pub sort-perm : (es : List (Item V)) → Perm (sort es) es
  pub sort-Ascends : (es : List (Item V)) → Ascends 0 (map item_pair (sort es))

module _ {V : Type 0} (zero_value : V) (add : V → V → V)
    (sort : List (Item V) → List (Item V)) where
  abbrev pub item_of : Checked V → ℕ → Item V
  item_of a k = record {
    row = pos_part (row_at zero_value add sort a k);
    val = get_or a.values k zero_value;
    orig_k = k;
  }

  abbrev outside : Checked V → ℕ → ℕ → Bool
  outside a j k = is_outside zero_value add sort a.n j (row_at zero_value add sort a k)

  gather-outside :
      (a : Checked V) (j rounds k : ℕ)
      → outside a j k ≡ true
      → gather zero_value add sort a j (suc rounds) k
        ≡ record (gather zero_value add sort a j rounds (suc k)) {
          dropped = (gather zero_value add sort a j rounds (suc k)).dropped + 1;
        }
  unfolding gather
  gather-outside a j rounds k e = rw (e, gather)

  gather-inside :
      (a : Checked V) (j rounds k : ℕ)
      → outside a j k ≡ false
      → gather zero_value add sort a j (suc rounds) k
        ≡ record (gather zero_value add sort a j rounds (suc k)) {
          entries = item_of a k ∷ (gather zero_value add sort a j rounds (suc k)).entries;
        }
  unfolding gather
  gather-inside a j rounds k e = rw (e, gather)

  -- An entry of column j is kept or dropped.
  pub gather-count :
      (a : Checked V) (j rounds k : ℕ)
      → length (gather zero_value add sort a j rounds k).entries
          + (gather zero_value add sort a j rounds k).dropped
        ≡ rounds
  gather-count a j zero k = unfold gather in refl
  gather-count a j (suc rounds) k = elim (Bool-cases (outside a j k)) [
    | inl out ↦
        rw (gather-outside a j rounds k out) (omega (arith, gather-count a j rounds (suc k)))
    | inr kept ↦
        rw (gather-inside a j rounds k kept) (omega (arith, gather-count a j rounds (suc k)))
  ]

  gather-within :
      (a : Checked V) (j rounds k : ℕ)
      → RowsWithin j a.n (map item_pair (gather zero_value add sort a j rounds k).entries)
  gather-within a j zero k = unfold gather in tt
  gather-within a j (suc rounds) k = elim (Bool-cases (outside a j k)) [
    | inl out ↦ rw (gather-outside a j rounds k out) (gather-within a j rounds (suc k))
    | inr kept ↦
        let i = row_at zero_value add sort a k in
        let inside = in_range a.n j i kept in
        rw (gather-inside a j rounds k kept) (inside.0, inside.1, gather-within a j rounds (suc k))
  ]
    where
      in_range :
          (n j : ℕ) (i : ℤ)
          → is_outside zero_value add sort n j i ≡ false
          → (j ≤ pos_part i) × (pos_part i < n)
      in_range n j (pos i) e = ground (arith, e)
      in_range n j (negsuc i) e = ground (arith, e)

  runs_from-same :
      (r : ℕ) (s : V) (origs : List ℕ) (e : Item V) (es : List (Item V))
      → (e.row == r) ≡ true
      → runs_from zero_value add sort r s origs (e ∷ es)
        ≡ runs_from zero_value add sort r (add s e.val) (origs ++ e.orig_k ∷ []) es
  unfolding runs_from
  runs_from-same r s origs e es same = rw (same, runs_from)

  runs_from-other :
      (r : ℕ) (s : V) (origs : List ℕ) (e : Item V) (es : List (Item V))
      → (e.row == r) ≡ false
      → runs_from zero_value add sort r s origs (e ∷ es)
        ≡ record { row = r; val = s; origs = origs }
          ∷ runs_from zero_value add sort e.row e.val (e.orig_k ∷ []) es
  unfolding runs_from
  runs_from-other r s origs e es other = rw (other, runs_from)

  -- Without their origins the runs are those of the coordinate conversion.
  runs_from-merge_from :
      (r : ℕ) (s : V) (origs : List ℕ) (es : List (Item V))
      → map run_pair (runs_from zero_value add sort r s origs es)
        ≡ merge_from add r s (map item_pair es)
  runs_from-merge_from r s origs [] = unfold runs_from in unfold merge_from in refl
  runs_from-merge_from r s origs (e ∷ es) = elim (Bool-cases (e.row == r)) [
    | inl same ↦
        rw
          (
            runs_from-same r s origs e es same,
            merge_from-same add r s (item_pair e) (map item_pair es) same,
          )
          (runs_from-merge_from r (add s e.val) (origs ++ e.orig_k ∷ []) es)
    | inr other ↦
        rw
          (
            runs_from-other r s origs e es other,
            merge_from-other add r s (item_pair e) (map item_pair es) other,
          )
          (ap (◌∷◌ (record { row = r; val = s }))
            (runs_from-merge_from e.row e.val (e.orig_k ∷ []) es))
  ]

  pub runs-merge_runs :
      (es : List (Item V))
      → map run_pair (runs zero_value add sort es) ≡ merge_runs add (map item_pair es)
  unfolding runs merge_runs
  runs-merge_runs [] = refl
  runs-merge_runs (e ∷ es) = runs_from-merge_from e.row e.val (e.orig_k ∷ []) es

  abbrev tally : List (Run V) → ℕ
  tally rs = length rs + extra zero_value add sort rs

  runs_from-tally :
      (r : ℕ) (s : V) (origs : List ℕ) (es : List (Item V))
      → 0 < length origs
      → tally (runs_from zero_value add sort r s origs es) ≡ length origs + length es
  unfolding extra
  runs_from-tally r s origs [] h = unfold runs_from in omega arith
  runs_from-tally r s origs (e ∷ es) h = elim (Bool-cases (e.row == r)) [
    | inl same ↦
        let longer = length-append origs (e.orig_k ∷ []) in
        rw (runs_from-same r s origs e es same) (
          omega (
            arith,
            longer,
            runs_from-tally r (add s e.val) (origs ++ e.orig_k ∷ []) es (omega (arith, longer)),
          ))
    | inr other ↦
        rw (runs_from-other r s origs e es other)
          (omega (arith, runs_from-tally e.row e.val (e.orig_k ∷ []) es (omega arith)))
  ]

  -- The runs and the extra entries they merge make up the entries.
  pub runs-tally : (es : List (Item V)) → tally (runs zero_value add sort es) ≡ length es
  unfolding runs extra
  runs-tally [] = refl
  runs-tally (e ∷ es) = runs_from-tally e.row e.val (e.orig_k ∷ []) es (omega arith) ∙ omega arith

  module _ (sorts : SortsItems sort) (a : Checked V) (j : ℕ) where
    abbrev gathered : List (Item V)
    gathered = (column_items zero_value add sort a j).entries

    abbrev pairs : List (Pair V)
    pairs = map run_pair (column_runs zero_value add sort a j)

    sorted_perm : Perm (map item_pair (sort gathered)) (map item_pair gathered)
    sorted_perm = Perm.map item_pair (sorts.sort-perm gathered)

    sorted_within : RowsWithin j a.n (map item_pair (sort gathered))
    sorted_within = RowsWithin-perm j a.n sorted_perm (unfold column_items in gather-within a j _ _)

    pub column_runs-merge_runs : pairs ≡ merge_runs add (map item_pair (sort gathered))
    unfolding column_runs
    column_runs-merge_runs = runs-merge_runs (sort gathered)

    pub column_runs-within : RowsWithin j a.n pairs
    column_runs-within = rw column_runs-merge_runs (merge_runs-within add j a.n _ sorted_within)

    pub column_runs-Climbs : Climbs j pairs
    column_runs-Climbs = rw column_runs-merge_runs (
        merge_runs-Climbs add j _
          (Ascends-within j a.n _ sorted_within (sorts.sort-Ascends gathered)))
