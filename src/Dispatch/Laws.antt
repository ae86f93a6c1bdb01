-- ===== src/Dispatch/Laws.antt =====
-- What the chosen path says of the matrix.
use opt_solver.Base.{
  ℕ, zero, suc, ◌+◌, ◌-◌, ◌≤◌, ◌<◌, ◌≡◌, refl, sym, ◌⊎◌, inl, inr, ◌∙◌, ap, subst, ◌↔◌, Bool, true,
  false, ltb, ◌==◌, if◌then◌else◌, arith, Bool-cases, dec_lt,
}
use opt_solver.Matrix.Csc.{Lower}
use opt_solver.Matrix.Csc.Shape.{col_start, row}
use opt_solver.Dispatch.{
  NativePath, Control, column_bw, columns_bw, compute_lower_bw, leads_with_diagonal,
  has_full_structural_diagonal, select_native_path, is_positive_definite, MatrixType,
}

-- The entry at k of column j lies on the diagonal, or at most bw below it.
abbrev pub Within : {V : Type 0} → Lower V → ℕ → ℕ → ℕ → Type 0
Within a bw j k = row a k ≤ j + bw

module _ {V : Type 0} (a : Lower V) where
  -- The widest entry seen so far.
  record Widest (bw result : ℕ) (Seen : ℕ → ℕ → Type 0) : Type 0 where
    grows : bw ≤ result
    covers : (j k : ℕ) → Seen j k → Within a result j k
    reached : (result ≡ bw) ⊎ ((j : ℕ) × (k : ℕ) × Seen j k × (row a k ≡ j + result))

  -- One scan after the other.
  Widest-trans :
      {bw mid result : ℕ} {First Second Seen : ℕ → ℕ → Type 0}
      → ((j k : ℕ) → Seen j k → First j k ⊎ Second j k)
      → ((j k : ℕ) → First j k → Seen j k)
      → ((j k : ℕ) → Second j k → Seen j k)
      → Widest bw mid First
      → Widest mid result Second
      → Widest bw result Seen
  Widest-trans {bw} {mid} {result} {First} {Second} {Seen} split first second f s = record {
    grows = omega (arith, f.grows, s.grows);
    covers = λ j k seen. elim (split j k seen) [
      | inl x ↦ omega (arith, f.covers j k x, s.grows)
      | inr y ↦ s.covers j k y
    ];
    reached = elim s.reached [
      | inl same ↦ elim f.reached [
        | inl start ↦ inl (same ∙ start)
        | inr (j, k, x, e) ↦ inr (j, k, first j k x, omega (arith, e, same))
      ]
      | inr (j, k, y, e) ↦ inr (j, k, second j k y, e)
    ];
  }

  entry_Widest :
      (j p bw : ℕ)
      → Widest bw (if ltb bw (row a p - j) then row a p - j else bw) (λ i k. (i ≡ j) × (k ≡ p))
  entry_Widest j p bw = elim (Bool-cases (ltb bw (row a p - j))) [
    | inl wider ↦ rw wider (record {
      grows = ground (arith, wider);
      covers = λ i k s. omega (arith, s.0, ap (row a) s.1);
      reached = inr (j, p, (refl, refl), ground (arith, wider));
    })
    | inr narrow ↦ rw narrow (record {
      grows = omega arith;
      covers = λ i k s. ground (arith, s.0, ap (row a) s.1, narrow);
      reached = inl refl;
    })
  ]

  column_bw-Widest :
      (j rounds p bw : ℕ)
      → Widest bw (column_bw a j rounds p bw) (λ i k. (i ≡ j) × (p ≤ k) × (k < p + rounds))
  unfolding column_bw
  column_bw-Widest j zero p bw = record {
    grows = omega arith;
    covers = λ i k s. absurd (omega arith);
    reached = inl refl;
  }
  column_bw-Widest j (suc rounds) p bw =
      Widest-trans
        (λ i k s. elim (dec_lt p k) [
          | yes later ↦ inr (s.0, later, omega arith)
          | no here ↦ inl (s.0, omega arith)
        ])
        (λ i k s. (s.0, omega (arith, s.1), omega (arith, s.1)))
        (λ i k s. (s.0, omega arith, omega arith)) (entry_Widest j p bw)
        (column_bw-Widest j rounds (suc p) (if ltb bw (row a p - j) then row a p - j else bw))

  -- The entry at k stands in column i.
  abbrev pub InColumn : ℕ → ℕ → Type 0
  InColumn i k = (col_start a i ≤ k) × (k < col_start a (suc i))

  columns_bw-Widest :
      (rounds j bw : ℕ)
      → Widest bw (columns_bw a rounds j bw) (λ i k. (j ≤ i) × (i < j + rounds) × InColumn i k)
  unfolding columns_bw
  columns_bw-Widest zero j bw = record {
    grows = omega arith;
    covers = λ i k s. absurd (omega arith);
    reached = inl refl;
  }
  columns_bw-Widest (suc rounds) j bw =
      Widest-trans
        (λ i k s. elim (dec_lt j i) [
          | yes later ↦ inr (later, omega arith, s.2)
          | no here ↦
              let same : i ≡ j = omega arith in
              let at_j : InColumn j k = subst (λ m. InColumn m k) same s.2 in
              inl (same, at_j.0, omega (arith, at_j.0, at_j.1))
        ])
        (λ i k s. (
          omega (arith, s.0),
          omega (arith, s.0),
          subst (λ m. InColumn m k) (sym s.0) (s.1, omega (arith, s.1, s.2)),
        ))
        (λ i k s. (omega arith, omega arith, s.2))
        (column_bw-Widest j (col_start a (suc j) - col_start a j) (col_start a j) bw)
        (columns_bw-Widest rounds (suc j) _)

  -- The lower bandwidth covers every stored entry, and it is 0 or reached by one.
  compute_lower_bw_lem :
      ((j k : ℕ) → j < a.n → InColumn j k → row a k ≤ j + compute_lower_bw a)
      × ((compute_lower_bw a ≡ 0)
          ⊎ ((j : ℕ) × (k : ℕ) × (j < a.n) × InColumn j k × (row a k ≡ j + compute_lower_bw a)))
  unfolding compute_lower_bw
  compute_lower_bw_lem =
      let w = columns_bw-Widest a.n 0 0 in
      (
        λ j k h s. w.covers j k (omega arith, omega arith, s),
        elim w.reached [
          | inl none_wider ↦ inl none_wider
          | inr (j, k, s, e) ↦ inr (j, k, omega (arith, s.1), s.2, e)
        ],
      )

  -- The first entry of column j is its diagonal.
  abbrev pub Leads : ℕ → Type 0
  Leads j = (col_start a j < col_start a (suc j)) × (row a (col_start a j) ≡ j)

  leading_diagonal_step :
      (rounds j : ℕ)
      → (leads_with_diagonal a (suc rounds) j ≡ true)
        ↔ (Leads j × (leads_with_diagonal a rounds (suc j) ≡ true))
  unfolding leads_with_diagonal
  leading_diagonal_step rounds j = ground arith

  leads_with_diagonal_lem :
      (rounds j : ℕ)
      → (leads_with_diagonal a rounds j ≡ true) ↔ ((i : ℕ) → j ≤ i → i < j + rounds → Leads i)
  leads_with_diagonal_lem zero j =
      (λ e i p q. absurd (omega arith), λ h. unfold leads_with_diagonal in refl)
  leads_with_diagonal_lem (suc rounds) j =
      let (split, join) = leading_diagonal_step rounds j in
      let (sound, complete) = leads_with_diagonal_lem rounds (suc j) in
      (
        λ e i p q. elim (dec_lt j i) [
          | yes later ↦ sound (split e).1 i later (omega arith)
          | no here ↦ subst Leads {x = j} (omega arith) (split e).0
        ],
        λ h.
            join (
              h j (omega arith) (omega arith),
              complete (λ i p q. h i (omega arith) (omega arith)),
            ),
      )

  -- The structural diagonal is full exactly when the matrix is not empty and every column starts with
  -- its diagonal entry.
  has_full_structural_diagonal_lem :
      (has_full_structural_diagonal a ≡ true) ↔ ((0 < a.n) × ((j : ℕ) → j < a.n → Leads j))
  unfolding has_full_structural_diagonal
  has_full_structural_diagonal_lem =
      let (sound, complete) = leads_with_diagonal_lem a.n 0 in
      elim (Bool-cases (a.n == 0)) [
        | inl empty ↦ rw empty (λ e. absurd (cc e), λ h. absurd (ground (arith, empty, h.0)))
        | inr some_rows ↦ rw some_rows (
          λ e. (ground (arith, some_rows), λ j h. sound e j (omega arith) (omega arith)),
          λ h. complete (λ i p q. h.1 i (omega arith)),
        )
      ]

module _ {V : Type 0} (density : ℕ → ℕ → V) (half_full : V → Bool) (a : Lower V) (ctrl : Control)
    (refactors : ℕ) where
  abbrev chosen : NativePath
  chosen = (select_native_path density half_full a ctrl refactors).path

  banded_guard :
      chosen ≡ NativePath.banded_spd
      → (is_positive_definite ctrl.matrix_type ≡ true)
        × (100 ≤ a.n)
        × (0 < compute_lower_bw a)
        × (compute_lower_bw a ≤ 128)
  unfolding select_native_path
  banded_guard e = ground (arith, e)

  quasi_definite_guard :
      chosen ≡ NativePath.certified_quasi_definite
      → (is_positive_definite ctrl.matrix_type ≡ false)
        × (16 < a.n)
        × (has_full_structural_diagonal a ≡ true)
  unfolding select_native_path
  quasi_definite_guard e = ground (arith, e)

  -- The banded path is chosen only for positive definite matrices of order 100 or more whose entries
  -- all lie within 128 of the diagonal.
  pub select_native_path-banded :
      chosen ≡ NativePath.banded_spd
      → (ctrl.matrix_type ≡ MatrixType.real_symmetric_positive_definite)
        × (100 ≤ a.n)
        × ((j k : ℕ) → j < a.n → InColumn a j k → row a k ≤ j + 128)
  select_native_path-banded e =
      let (spd, large, wide, narrow) = banded_guard e in
      (
        definite ctrl.matrix_type spd,
        large,
        λ j k h s. omega (arith, (compute_lower_bw_lem a).0 j k h s, narrow),
      )
    where
      definite :
          (t : MatrixType)
          → is_positive_definite t ≡ true
          → t ≡ MatrixType.real_symmetric_positive_definite
      definite MatrixType.real_symmetric_positive_definite e = refl
      definite MatrixType.real_symmetric_indefinite e = absurd (cc e)

  -- The quasi-definite path is chosen only for indefinite matrices of order above 16 in which every
  -- column starts with its diagonal entry.
  select_native_path-quasi_definite :
      chosen ≡ NativePath.certified_quasi_definite
      → (ctrl.matrix_type ≡ MatrixType.real_symmetric_indefinite)
        × (16 < a.n)
        × ((j : ℕ) → j < a.n → Leads a j)
  select_native_path-quasi_definite e =
      let (indefinite, large, full) = quasi_definite_guard e in
      (kind ctrl.matrix_type indefinite, large, ((has_full_structural_diagonal_lem a).0 full).1)
    where
      kind :
          (t : MatrixType)
          → is_positive_definite t ≡ false
          → t ≡ MatrixType.real_symmetric_indefinite
      kind MatrixType.real_symmetric_positive_definite e = absurd (cc e)
      kind MatrixType.real_symmetric_indefinite e = refl
