-- ===== src/Matrix/Coo/Entries.antt =====
-- The entries that the two passes keep.
use opt_solver.Base.{
  ℕ, ◌≤◌, ◌<◌, ◌≡◌, refl, true, false, ◌||◌, List, [], ◌∷◌, map, ltb, leb, ◌==◌, length, some,
  arith, Bool-cases, inl, inr, ==_iff,
}
use opt_solver.Base.Ints.{ℤ, pos, negsuc}
use opt_solver.Bucket.{bucket}
use opt_solver.Bucket.Counts.{KeysBelow}
use opt_solver.Matrix.Columns.Laws.{RowsWithin}
use opt_solver.Matrix.Coo.{Entry, to_pair, keep, cons_kept, valid_entries}

-- Every entry lies in the lower triangle of order n.
abbrev pub AllLower : {V : Type 0} → ℕ → List (Entry V) → Type 0
AllLower n [] = Unit
AllLower n (e ∷ es) = (e.col ≤ e.row) × (e.row < n) × AllLower n es

module _ {V : Type 0} where
  keep_lower :
      (n : ℕ) (r c : ℤ) (v : V) (es : List (Entry V))
      → AllLower n es
      → AllLower n (cons_kept (keep n r c v) es)
  unfolding keep
  keep_lower n (pos r) (pos c) v es h = elim (Bool-cases (leb n r || leb n c)) [
    | inl out ↦ rw (out, keep) h
    | inr inside ↦ elim (Bool-cases (ltb r c)) [
      | inl upper ↦ rw (inside, upper, keep) h
      | inr lower ↦
          rw (inside, lower, keep) (ground (arith, inside, lower), ground (arith, inside), h)
    ]
  ]
  keep_lower n (pos r) (negsuc c) v es h = h
  keep_lower n (negsuc r) c v es h = h

  pub AllLower-KeysBelow :
      (n : ℕ) (es : List (Entry V)) → AllLower n es → KeysBelow (λ (e : Entry V). e.col) n es
  AllLower-KeysBelow n [] h = tt
  AllLower-KeysBelow n (e ∷ es) h = (omega arith, AllLower-KeysBelow n es h.2)

  abbrev pub col_of : Entry V → ℕ
  col_of e = e.col

  bucket-same :
      (j : ℕ) (e : Entry V) (es : List (Entry V))
      → (e.col == j) ≡ true
      → bucket col_of j (e ∷ es) ≡ e ∷ bucket col_of j es
  unfolding bucket
  bucket-same j e es same = rw (same, bucket)

  bucket-other :
      (j : ℕ) (e : Entry V) (es : List (Entry V))
      → (e.col == j) ≡ false
      → bucket col_of j (e ∷ es) ≡ bucket col_of j es
  unfolding bucket
  bucket-other j e es other = rw (other, bucket)

  -- The entries of bucket j have their rows from j on.
  pub bucket-within :
      (n j : ℕ) (es : List (Entry V))
      → AllLower n es
      → RowsWithin j n (map to_pair (bucket (λ (e : Entry V). e.col) j es))
  bucket-within n j [] h = unfold bucket in tt
  bucket-within n j (e ∷ es) h = elim (Bool-cases (e.col == j)) [
    | inl same ↦
        let at_j : e.col ≡ j = (==_iff e.col j).0 same in
        rw (bucket-same j e es same) (omega (arith, h.0, at_j), h.1, bucket-within n j es h.2)
    | inr other ↦ rw (bucket-other j e es other) (bucket-within n j es h.2)
  ]

  -- With arrays at least as long as `val` nothing is read out of range.
  pub valid_entries_lem :
      (n : ℕ) (row col : List ℤ) (val : List V)
      → length val ≤ length row
      → length val ≤ length col
      → (es : List (Entry V)) × (valid_entries n row col val ≡ some es) × AllLower n es
  unfolding valid_entries
  valid_entries_lem n [] [] [] h k = ([], refl, tt)
  valid_entries_lem n [] (c ∷ col) [] h k = ([], refl, tt)
  valid_entries_lem n (r ∷ row) [] [] h k = ([], refl, tt)
  valid_entries_lem n (r ∷ row) (c ∷ col) [] h k = ([], refl, tt)
  valid_entries_lem n [] col (v ∷ val) h k = absurd (omega arith)
  valid_entries_lem n (r ∷ row) [] (v ∷ val) h k = absurd (omega arith)
  valid_entries_lem n (r ∷ row) (c ∷ col) (v ∷ val) h k =
      let (es, e, low) = valid_entries_lem n row col val (omega arith) (omega arith) in
      (cons_kept (keep n r c v) es, rw (e, valid_entries), keep_lower n r c v es low)
