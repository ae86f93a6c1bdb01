-- ===== src/Matrix/Clean/Checks.antt =====
-- The checks that clean_lower_csc makes of the arrays before it reads the entries.
use opt_solver.Base.{
  ℕ, suc, ◌+◌, ◌≤◌, ◌<◌, ◌≡◌, refl, sym, ap, subst, ◌∙◌, ◌⊎◌, inl, inr, Bool, true, false, not,
  ◌||◌, List, [], ◌∷◌, map, ◌==◌, if◌then◌else◌, length, length-map, get_or, get_or-map, Option,
  some, arith,
}
use opt_solver.Base.Ints.{ℤ, pos, negsuc, pos_part, ltz, eqz}
use opt_solver.Matrix.Csc.{CscLower, is_size}
use opt_solver.Matrix.Csc.Loops.{LeZ, at, get_elem?-at, monotone_from_lem, rising_nonneg, map-pos}
use opt_solver.Matrix.Clean.{
  Item, Info, Checked, CleanedPattern, clean_checked, clean_lower_csc, accepted, rejected,
}

abbrev pub signed_form : {V : Type 0} → Checked V → CscLower V
signed_form c = record {
  n = pos c.n;
  col_ptr = map pos c.col_ptr;
  row_idx = c.row_idx;
  values = c.values;
}

-- What the checks accept: the arrays of `a` are those of `c`, its pointers start at 0, do not fall,
-- and end at the number of rows and of values.
pub record PassesChecks {V : Type 0} (a : CscLower V) (c : Checked V) : Type 0 where
  pub arrays : a ≡ signed_form c
  pub columns : length c.col_ptr ≡ c.n + 1
  pub starts : get_or c.col_ptr 0 0 ≡ 0
  pub monotone : (j : ℕ) → j < c.n → get_or c.col_ptr j 0 ≤ get_or c.col_ptr (j + 1) 0
  pub rows : length c.row_idx ≡ get_or c.col_ptr c.n 0
  pub entries : length c.values ≡ get_or c.col_ptr c.n 0

-- What passing says of the signed arrays.
record Passed (n : ℕ) (col_ptr : List ℤ) (rows values : ℕ) : Type 0 where
  size : length col_ptr ≡ suc n
  start : at col_ptr 0 ≡ pos 0
  rises : (i : ℕ) → 0 ≤ i → i < 0 + n → LeZ (at col_ptr i) (at col_ptr (i + 1))
  sizes : (c : ℕ) → at col_ptr n ≡ pos c → (rows ≡ c) × (values ≡ c)

map-pos_part : (v : List ℕ) → map pos_part (map pos v) ≡ v
map-pos_part [] = refl
map-pos_part (x ∷ v) = ap (◌∷◌ x) (map-pos_part v)

PassesChecks-Passed :
    {V : Type 0} (a : CscLower V) (c : Checked V)
    → PassesChecks a c
    → Passed (pos_part a.n) a.col_ptr (length a.row_idx) (length a.values)
PassesChecks-Passed {V} a c p =
    let entry : (i : ℕ) → at (map pos c.col_ptr) i ≡ pos (get_or c.col_ptr i 0) =
      λ i. get_or-map pos c.col_ptr i 0 in
    subst (λ (b : CscLower V). Passed (pos_part b.n) b.col_ptr (length b.row_idx) (length b.values))
      (sym p.arrays)
      (record {
        size = omega (arith, length-map c.col_ptr pos, p.columns);
        start = entry 0 ∙ ap pos p.starts;
        rises = λ i l h. rw (entry i, entry (i + 1)) (omega (arith, p.monotone i (omega arith)));
        sizes = λ k e.
            let same : get_or c.col_ptr c.n 0 ≡ k = ap pos_part (sym (entry c.n) ∙ e) in
            (p.rows ∙ same, p.entries ∙ same);
      })

module _ {V : Type 0} (zero_value : V) (add : V → V → V) (sort : List (Item V) → List (Item V))
    (info : Info) (check : Bool) where
  abbrev run_clean : CscLower V → Option (CleanedPattern V × Info)
  run_clean a = clean_lower_csc zero_value add sort a info check

  abbrev pub refused : Option (CleanedPattern V × Info)
  refused = some (rejected zero_value add sort info)

  abbrev pub taken : Checked V → Option (CleanedPattern V × Info)
  taken c = some (accepted zero_value add sort (clean_checked zero_value add sort c check) info)

  -- Either the checks pass and the arrays are cleaned, or nothing passes and the input is refused.
  abbrev pub Outcome : CscLower V → Option (CleanedPattern V × Info) → Type 0
  Outcome a r =
      ((c : Checked V) × PassesChecks a c × (r ≡ taken c))
      ⊎ (((c : Checked V) → ¬ PassesChecks a c) × (r ≡ refused))

  Outcome-if :
      (a : CscLower V) (bad : Bool) (r : Option (CleanedPattern V × Info))
      → (bad ≡ true → (c : Checked V) → ¬ PassesChecks a c)
      → (bad ≡ false → Outcome a r)
      → Outcome a (if bad then refused else r)
  Outcome-if a true r rejects accepts = inr (rejects refl, refl)
  Outcome-if a false r rejects accepts = accepts refl

  module _ (n : ℕ) (col_ptr row_idx : List ℤ) (values : List V) where
    abbrev matrix : CscLower V
    matrix = record { n = pos n; col_ptr = col_ptr; row_idx = row_idx; values = values }

    need :
        (c : Checked V) → PassesChecks matrix c → Passed n col_ptr (length row_idx) (length values)
    need c p = PassesChecks-Passed matrix c p

    abbrev pointers : Checked V
    pointers = record { n = n; col_ptr = map pos_part col_ptr; row_idx = row_idx; values = values }

    -- The check that follows those of the column pointers.
    abbrev sizes : ℤ → Option (CleanedPattern V × Info)
    sizes nnz =
        if not (is_size (length row_idx) nnz) || not (is_size (length values) nnz)
        then refused
        else taken pointers

    sizes-Outcome :
        length col_ptr ≡ suc n
        → at col_ptr 0 ≡ pos 0
        → ((i : ℕ) → 0 ≤ i → i < 0 + n → LeZ (at col_ptr i) (at col_ptr (i + 1)))
        → Outcome matrix (sizes (at col_ptr n))
    sizes-Outcome size start rises =
        let v = map pos_part col_ptr in
        let natural : col_ptr ≡ map pos v =
          map-pos col_ptr
            (λ i p. rising_nonneg col_ptr i start (λ k q. rises k (omega arith) (omega arith))) in
        let entry : (i : ℕ) → at col_ptr i ≡ pos (get_or v i 0) =
          λ i. ap (λ c. at c i) natural ∙ get_or-map pos v i 0 in
        rw (entry n) (
          Outcome-if matrix
            (not (length row_idx == get_or v n 0) || not (length values == get_or v n 0)) _
            (λ e c p.
              let s = (need c p).sizes (get_or v n 0) (entry n) in ground (arith, s.0, s.1, e))
            (λ e. inl (
              pointers,
              record {
                arrays = ap (λ x. record matrix { col_ptr = x }) natural;
                columns = omega (arith, size, length-map col_ptr pos_part);
                starts = ground (arith, start, entry 0);
                monotone = λ j p.
                    ground (arith, rises j (omega arith) (omega arith), entry j, entry (j + 1));
                rows = ground (arith, e);
                entries = ground (arith, e);
              },
              refl,
            )))

    checked-Outcome : Outcome matrix (run_clean matrix)
    unfolding clean_lower_csc
    checked-Outcome =
        Outcome-if matrix (ltz (pos n) (pos 0)) _ (λ e c p. absurd (ground (arith, e)))
          λ _.
            Outcome-if matrix (not (length col_ptr == suc n)) _
              (λ e c p. ground (arith, (need c p).size, e))
              λ e.
                let size : length col_ptr ≡ suc n = ground (arith, e) in
                rw (get_elem?-at col_ptr 0 (omega arith)) (
                  Outcome-if matrix (not (eqz (at col_ptr 0) (pos 0))) _
                    (λ f c p. ground (arith, (need c p).start, f))
                    λ f.
                      let (b, g, (sound, complete)) = monotone_from_lem col_ptr n 0 (omega arith) in
                      rw g (
                        Outcome-if matrix (not b) _ (λ h c p. cc (h, complete (need c p).rises))
                          λ h.
                            rw (get_elem?-at col_ptr n (omega arith))
                              (sizes-Outcome size (ground (arith, f)) (sound (ground (arith, h))))))

  -- clean_lower_csc never reads out of range in its checks: it refuses the input with IllegalValue,
  -- the rest of Info as it was, exactly when the column pointers do not start at 0, fall somewhere or
  -- do not fit the arrays' sizes, and else it cleans the arrays.
  pub clean_lower_csc-Outcome :
      (a : CscLower V) → Outcome a (clean_lower_csc zero_value add sort a info check)
  clean_lower_csc-Outcome a = by_order a.n a.col_ptr a.row_idx a.values
    where
      by_order :
          (n : ℤ) (col_ptr row_idx : List ℤ) (values : List V)
          → Outcome
              (record { n = n; col_ptr = col_ptr; row_idx = row_idx; values = values })
              (run_clean (record { n = n; col_ptr = col_ptr; row_idx = row_idx; values = values }))
      by_order (pos n) col_ptr row_idx values = checked-Outcome n col_ptr row_idx values
      by_order (negsuc k) col_ptr row_idx values = inr (
        λ c p. cc (ap (λ (b : CscLower V). b.n) p.arrays),
        unfold clean_lower_csc in (ground arith),
      )
