-- ===== src/Matrix/Rank/Laws.antt =====
-- solver/src/sym_graph.cpp: the columns that structural_rank counts are matched with rows.
use opt_solver.Base.{
  ℕ, zero, suc, ◌+◌, ◌-◌, ◌≤◌, ◌<◌, ◌≡◌, ◌≢◌, refl, subst, ◌∙◌, Bool, true, false, List, [], ◌∷◌,
  length, get_or, set, replicate, Option, some, none, arith, Holds, if_both, length-set,
  length-replicate,
}
use opt_solver.Matrix.Csc.{Lower}
use opt_solver.Matrix.Rank.{first_free, match_columns, structural_rank}

pub record Match : Type 0 where
  pub row : ℕ
  pub column : ℕ
  pub place : ℕ

unset_before :
    (used : List Bool) (i r : ℕ)
    → get_or (set used i true) r false ≡ false
    → get_or used r false ≡ false
unset_before [] i r h = h
unset_before (u ∷ used) zero zero h = absurd (ground arith)
unset_before (u ∷ used) zero (suc r) h = h
unset_before (u ∷ used) (suc i) zero h = h
unset_before (u ∷ used) (suc i) (suc r) h = unset_before used i r h

get-set-true :
    (used : List Bool) (i : ℕ) → i < length used → get_or (set used i true) i false ≡ true
get-set-true [] i lt = absurd (omega arith)
get-set-true (u ∷ used) zero lt = refl
get-set-true (u ∷ used) (suc i) lt = get-set-true used i (omega arith)

taken_row :
    (used : List Bool) (i r : ℕ)
    → i < length used
    → i ≡ r
    → get_or (set used i true) r false ≡ false
    → ⊥
taken_row used i r lt e h =
    let t : get_or (set used i true) r false ≡ true =
      subst (λ z. get_or (set used i true) z false ≡ true) e (get-set-true used i lt) in
    ground arith

module _ (col_ptr rows : List ℕ) where
  -- The place is one of the column's, and holds the row.
  abbrev pub IsEntry : Match → Type 0
  IsEntry p =
      (get_or col_ptr p.column 0 ≤ p.place)
      × (p.place < get_or col_ptr (suc p.column) 0)
      × (get_or rows p.place 0 ≡ p.row)

  -- No other pair has the row, and the later pairs are of later columns.
  abbrev pub Precedes : Match → List Match → Type 0
  Precedes p [] = Unit
  Precedes p (q ∷ qs) = (p.row ≢ q.row) × (p.column < q.column) × Precedes p qs

  abbrev pub IsMatching : List Match → Type 0
  IsMatching [] = Unit
  IsMatching (p ∷ ps) = IsEntry p × Precedes p ps × IsMatching ps

  -- The rows are not used, and the columns not before j.
  abbrev AreFresh : List Bool → ℕ → List Match → Type 0
  AreFresh used j [] = Unit
  AreFresh used j (p ∷ ps) = (get_or used p.row false ≡ false) × (j ≤ p.column) × AreFresh used j ps

  abbrev IsFound : List Bool → ℕ → ℕ → ℕ → Type 0
  IsFound used k count i =
      (at : ℕ) × (k ≤ at)
      × (at < k + count)
      × (get_or rows at 0 ≡ i)
      × (get_or used i false ≡ false)

  IsFound-later :
      (used : List Bool) (k count : ℕ) (o : Option ℕ)
      → Holds (IsFound used (suc k) count) o
      → Holds (IsFound used k (suc count)) o
  IsFound-later used k count none h = tt
  IsFound-later used k count (some i) (at, le, lt, e, f) = (at, omega arith, omega arith, e, f)

  IsFound-first_free :
      (used : List Bool) (k count : ℕ) → Holds (IsFound used k count) (first_free rows used k count)
  unfolding first_free
  IsFound-first_free used k zero = tt
  IsFound-first_free used k (suc count) =
      if_both (Holds (IsFound used k (suc count))) (get_or used (get_or rows k 0) false)
        (first_free rows used (suc k) count) (some (get_or rows k 0))
        (λ e.
          IsFound-later used k count (first_free rows used (suc k) count)
            (IsFound-first_free used (suc k) count))
        (λ e. (k, omega arith, omega arith, refl, e))

  AreFresh-unset :
      (used : List Bool) (i j : ℕ) (ps : List Match)
      → AreFresh (set used i true) (suc j) ps
      → AreFresh used j ps
  AreFresh-unset used i j [] h = tt
  AreFresh-unset used i j (p ∷ ps) (f, le, h) =
      (unset_before used i p.row f, omega arith, AreFresh-unset used i j ps h)

  AreFresh-Precedes :
      (used : List Bool) (p : Match) (ps : List Match)
      → p.row < length used
      → AreFresh (set used p.row true) (suc p.column) ps
      → Precedes p ps
  AreFresh-Precedes used p [] lt h = tt
  AreFresh-Precedes used p (q ∷ ps) lt (f, le, h) =
      ((λ e. taken_row used p.row q.row lt e f), omega arith, AreFresh-Precedes used p ps lt h)

  -- The pairs of the columns from j on.
  abbrev Matched : List Bool → ℕ → ℕ → ℕ → Type 0
  Matched used j matched rank =
      (ps : List Match) × (rank ≡ matched + length ps) × IsMatching ps × AreFresh used j ps

  AreFresh-next :
      (used : List Bool) (j : ℕ) (ps : List Match) → AreFresh used (suc j) ps → AreFresh used j ps
  AreFresh-next used j [] h = tt
  AreFresh-next used j (p ∷ ps) (f, le, h) = (f, omega arith, AreFresh-next used j ps h)

  module _ (n : ℕ) (inside : (k : ℕ) → k < length rows → get_or rows k 0 < n) where
    Matched-step :
        (used : List Bool) (j matched : ℕ) (o : Option ℕ) (skipped : ℕ) (taken : ℕ → ℕ)
        → length used ≡ n
        → get_or col_ptr (suc j) 0 ≤ length rows
        → Holds
            (IsFound used (get_or col_ptr j 0) (get_or col_ptr (suc j) 0 - get_or col_ptr j 0))
            o
        → Matched used (suc j) matched skipped
        → ((i : ℕ) → Matched (set used i true) (suc j) (matched + 1) (taken i))
        → Matched used j matched (elim o [ none ↦ skipped | some i ↦ taken i ])
    Matched-step used j matched none skipped taken size within found (ps, e, m, f) later =
        (ps, e, m, AreFresh-next used j ps f)
    Matched-step used j matched (some i) skipped taken size within (at, le, lt, e, free) m later =
        let (ps, rank, matching, fresh) : Matched (set used i true) (suc j) (matched + 1)
            (taken i) =
          later i in
        let p : Match = record { row = i; column = j; place = at } in
        let row_inside : i < length used =
          subst (λ z. z < length used) e (omega (arith, inside at (omega arith))) in
        (
          p ∷ ps,
          omega arith,
          ((le, omega arith, e), AreFresh-Precedes used p ps row_inside fresh, matching),
          (free, omega arith, AreFresh-unset used i j ps fresh),
        )

    Matched-match_columns :
        (count j matched : ℕ) (used : List Bool)
        → length used ≡ n
        → ((c : ℕ) → c < j + count → get_or col_ptr (suc c) 0 ≤ length rows)
        → Matched used j matched (match_columns col_ptr rows used j count matched)
    unfolding match_columns
    Matched-match_columns zero j matched used size within = ([], omega arith, tt, tt)
    Matched-match_columns (suc count) j matched used size within =
        Matched-step used j matched
          (first_free rows used (get_or col_ptr j 0)
            (get_or col_ptr (suc j) 0 - get_or col_ptr j 0))
          (match_columns col_ptr rows used (suc j) count matched)
          (λ i. match_columns col_ptr rows (set used i true) (suc j) count (matched + 1)) size
          (within j (omega arith))
          (IsFound-first_free used (get_or col_ptr j 0)
            (get_or col_ptr (suc j) 0 - get_or col_ptr j 0))
          (Matched-match_columns count (suc j) matched used size (λ c lt. within c (omega arith)))
          (λ i.
            Matched-match_columns count (suc j) (matched + 1) (set used i true)
              (length-set used i true ∙ size) (λ c lt. within c (omega arith)))

-- As many columns as structural_rank counts can be matched with distinct rows, each by an entry of the column, so
-- that the structural rank of the stored triangle is at least the count, where the column pointers stay
-- within the rows and the rows within the order.
pub structural_rank_lem :
    {W : Type 0} (a : Lower W)
    → ((k : ℕ) → k < length a.row_idx → get_or a.row_idx k 0 < a.n)
    → ((c : ℕ) → c < a.n → get_or a.col_ptr (suc c) 0 ≤ length a.row_idx)
    → (ps : List Match) × (length ps ≡ structural_rank a) × IsMatching a.col_ptr a.row_idx ps
unfolding structural_rank
structural_rank_lem a inside within =
    let (ps, e, m, f) : Matched a.col_ptr a.row_idx (replicate a.n false) 0 0
        (match_columns a.col_ptr a.row_idx (replicate a.n false) 0 a.n 0) =
      Matched-match_columns a.col_ptr a.row_idx a.n inside a.n 0 0 (replicate a.n false)
        (length-replicate a.n false) (λ c lt. within c (omega arith)) in
    (ps, omega arith, m)
