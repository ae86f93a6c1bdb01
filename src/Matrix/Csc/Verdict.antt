-- ===== src/Matrix/Csc/Verdict.antt =====
-- What validate_shape decides.
use opt_solver.Base.{
  ℕ, zero, suc, ◌+◌, ◌≤◌, ◌<◌, ◌≡◌, refl, sym, ap, subst, ◌∙◌, ◌↔◌, Bool, true, false, not, ◌&&◌,
  ◌||◌, List, [], ◌∷◌, map, ◌==◌, if◌then◌else◌, length, get_or, get_or-map, length-map,
  rising_le_of_le, Option, some, none, arith,
}
use opt_solver.Base.Ints.{ℤ, pos, negsuc, pos_part, eqz}
use opt_solver.Matrix.Csc.{
  ErrorCode, CscLower, Lower, ◌>>=◌, read, is_size, columns_from, validate_shape,
}
use opt_solver.Matrix.Csc.Shape.{col_start, row, Shaped}
use opt_solver.Matrix.Csc.Loops.{
  LeZ, at, get_elem?-at, monotone_from_lem, columns_from_lem, ColumnIsLower, get_elem?-pos,
  neg_part-zero_of_ge, rising_nonneg, map-pos, column_of,
}

-- A run without a fault, whose verdict is Success exactly when `P` holds, and else IllegalValue.
abbrev pub Verdict : Type 0 → Option ErrorCode → Type 0
Verdict P r =
    (b : Bool) × (r ≡ some (if b then ErrorCode.success else ErrorCode.illegal_value))
    × ((b ≡ true) ↔ P)

Verdict-if :
    (P : Type 0) (bad : Bool) (r : Option ErrorCode)
    → (bad ≡ true → ¬ P)
    → (bad ≡ false → Verdict P r)
    → Verdict P (if bad then some ErrorCode.illegal_value else r)
Verdict-if P true r rejects accepts = (false, refl, (λ c. cc, λ p. absurd (rejects refl p)))
Verdict-if P false r rejects accepts = accepts refl

-- The matrix of order n with the given arrays.
abbrev pub signed : {V : Type 0} → ℕ → List ℤ → List ℤ → List V → CscLower V
signed n col_ptr row_idx values = record {
  n = pos n;
  col_ptr = col_ptr;
  row_idx = row_idx;
  values = values;
}

-- The checks that follow the column pointers' own.
abbrev sizes_and_rows : {V : Type 0} → ℕ → List ℤ → List ℤ → List V → Option ErrorCode
sizes_and_rows n col_ptr row_idx values = do
  count ← read col_ptr (pos n)
  if not (is_size (length row_idx) count) || not (is_size (length values) count)
      then some ErrorCode.illegal_value
      else do
        lower ← columns_from col_ptr row_idx (pos n) n 0
        some (if lower then ErrorCode.success else ErrorCode.illegal_value)

map-pos_part : (v : List ℕ) → map pos_part (map pos v) ≡ v
map-pos_part [] = refl
map-pos_part (x ∷ v) = ap (◌∷◌ x) (map-pos_part v)

-- The checks after the column pointers have passed, at their unsigned form `v`.
module _ {V : Type 0} (n : ℕ) (v : List ℕ) (rows : List ℤ) (values : List V)
    (size : length v ≡ n + 1) (start : get_or v 0 0 ≡ 0)
    (mono : (j : ℕ) → j < n → get_or v j 0 ≤ get_or v (j + 1) 0) where
  abbrev matrix : CscLower V
  matrix = signed n (map pos v) rows values

  rows_nonneg :
      length rows ≡ get_or v n 0
      → ((j : ℕ) → 0 ≤ j → j < 0 + n → ColumnIsLower v rows n j)
      → rows ≡ map pos (map pos_part rows)
  rows_nonneg r lower = map-pos rows (λ k p.
      let (j, q, s, t) = column_of v n k start (omega arith) in
      neg_part-zero_of_ge (pos j) (at rows k) refl
        (ground (arith, lower j (omega arith) (omega arith) k s t)))

  pub Shaped-of_columns :
      length rows ≡ get_or v n 0
      → length values ≡ get_or v n 0
      → ((j : ℕ) → 0 ≤ j → j < 0 + n → ColumnIsLower v rows n j)
      → Shaped matrix
  Shaped-of_columns r e lower =
      let signed = rows_nonneg r lower in
      let l : Lower V = record {
        n = n;
        col_ptr = v;
        row_idx = map pos_part rows;
        values = values;
      } in
      (
        l,
        ap (λ x. record matrix { row_idx = x }) signed,
        record {
          columns = size;
          starts = start;
          monotone = mono;
          rows = length-map rows pos_part ∙ r;
          entries = e;
          lower = λ j k p q s.
              let ok = lower j (omega arith) (omega arith) k q s in
              let same : at rows k ≡ pos (row l k) =
                ap (λ x. at x k) signed ∙ get_or-map pos (map pos_part rows) k 0 in
              ground (arith, ok, same);
        },
      )

  columns_of_Shaped : Shaped matrix → (j : ℕ) → 0 ≤ j → j < 0 + n → ColumnIsLower v rows n j
  columns_of_Shaped (l, e, s) j p q k h t =
      let starts : v ≡ l.col_ptr =
        sym (map-pos_part v)
        ∙ (ap (λ (a : CscLower V). map pos_part a.col_ptr) e ∙ map-pos_part l.col_ptr) in
      let order : n ≡ l.n = ap (λ (a : CscLower V). pos_part a.n) e in
      let same : at rows k ≡ pos (row l k) =
        ap (λ (a : CscLower V). at a.row_idx k) e ∙ get_or-map pos l.row_idx k 0 in
      let inside = s.lower j k (omega arith) (rw starts at h) (rw starts at t) in
      ground (arith, same, inside, order)

  sizes_of_Shaped : Shaped matrix → (length rows ≡ get_or v n 0) × (length values ≡ get_or v n 0)
  sizes_of_Shaped (l, e, s) =
      let starts : v ≡ l.col_ptr =
        sym (map-pos_part v)
        ∙ (ap (λ (a : CscLower V). map pos_part a.col_ptr) e ∙ map-pos_part l.col_ptr) in
      let order : n ≡ l.n = ap (λ (a : CscLower V). pos_part a.n) e in
      (
        rw (starts, order)
            (ap (λ (a : CscLower V). length a.row_idx) e ∙ (length-map l.row_idx pos ∙ s.rows)),
        rw (starts, order) (ap (λ (a : CscLower V). length a.values) e ∙ s.entries),
      )

  sizes_and_rows-Verdict : Verdict (Shaped matrix) (sizes_and_rows n (map pos v) rows values)
  sizes_and_rows-Verdict =
      let total = get_or v n 0 in
      rw (get_elem?-pos v n (omega arith)) (
        Verdict-if (Shaped matrix) (not (length rows == total) || not (length values == total)) _
          (λ e s. let z = sizes_of_Shaped s in ground (arith, z.0, z.1, e))
          (λ e.
            let r : length rows ≡ total = ground (arith, e) in
            let w : length values ≡ total = ground (arith, e) in
            let (b, q, (sound, complete)) = columns_from_lem v rows n n 0 (omega arith) (λ i p q. (
              mono i (omega arith),
              omega (
                arith,
                r,
                rising_le_of_le (λ k. get_or v k 0) n (i + 1) n mono (omega arith) (omega arith),
              ),
            )) in
            rw q (
              b,
              refl,
              (λ t. Shaped-of_columns r w (sound t), λ s. complete (columns_of_Shaped s)),
            )))

-- What a well-shaped matrix says of its column pointers.
record PointersRise (n : ℕ) (col_ptr : List ℤ) : Type 0 where
  size : length col_ptr ≡ suc n
  start : at col_ptr 0 ≡ pos 0
  rises : (i : ℕ) → 0 ≤ i → i < 0 + n → LeZ (at col_ptr i) (at col_ptr (i + 1))

Shaped-PointersRise :
    {V : Type 0} (n : ℕ) (col_ptr row_idx : List ℤ) (values : List V)
    → Shaped (signed n col_ptr row_idx values)
    → PointersRise n col_ptr
Shaped-PointersRise {V} n col_ptr row_idx values (l, e, s) =
    let cols : col_ptr ≡ map pos l.col_ptr = ap (λ (a : CscLower V). a.col_ptr) e in
    let order : n ≡ l.n = ap (λ (a : CscLower V). pos_part a.n) e in
    let entry : (i : ℕ) → at col_ptr i ≡ pos (col_start l i) =
      λ i. ap (λ c. at c i) cols ∙ get_or-map pos l.col_ptr i 0 in
    record {
      size = omega (arith, ap length cols, length-map l.col_ptr pos, s.columns, order);
      start = entry 0 ∙ ap pos s.starts;
      rises = λ i p q. rw (entry i, entry (i + 1)) (omega (arith, s.monotone i (omega arith)));
    }

-- Once the column pointers pass, the rest decides the shape.
pointers_pass :
    {V : Type 0} (n : ℕ) (col_ptr row_idx : List ℤ) (values : List V)
    → length col_ptr ≡ suc n
    → at col_ptr 0 ≡ pos 0
    → ((i : ℕ) → 0 ≤ i → i < 0 + n → LeZ (at col_ptr i) (at col_ptr (i + 1)))
    → Verdict (Shaped (signed n col_ptr row_idx values)) (sizes_and_rows n col_ptr row_idx values)
pointers_pass n col_ptr row_idx values size start rises =
    let v = map pos_part col_ptr in
    let natural : col_ptr ≡ map pos v =
      map-pos col_ptr
        (λ i p. rising_nonneg col_ptr i start (λ k q. rises k (omega arith) (omega arith))) in
    let entry : (i : ℕ) → at col_ptr i ≡ pos (get_or v i 0) =
      λ i. ap (λ c. at c i) natural ∙ get_or-map pos v i 0 in
    subst (λ c. Verdict (Shaped (signed n c row_idx values)) (sizes_and_rows n c row_idx values))
      (sym natural)
      (sizes_and_rows-Verdict n v row_idx values (omega (arith, size, length-map col_ptr pos_part))
        (ground (arith, start, entry 0))
        (λ j p. ground (arith, rises j (omega arith) (omega arith), entry j, entry (j + 1))))

-- For a matrix order that is not negative the check never reads out of range, whatever the arrays
-- hold, and it reports Success exactly for the signed forms of well-shaped lower triangles; for all
-- else it reports IllegalValue.
pub validate_shape_lem :
    {V : Type 0} (n : ℕ) (col_ptr row_idx : List ℤ) (values : List V)
    → Verdict
        (Shaped (signed n col_ptr row_idx values))
        (validate_shape (signed n col_ptr row_idx values))
unfolding validate_shape
validate_shape_lem n col_ptr row_idx values =
    let a = signed n col_ptr row_idx values in
    let need = Shaped-PointersRise n col_ptr row_idx values in
    Verdict-if (Shaped a) (not (length col_ptr == suc n)) _
      (λ e s. ground (arith, (need s).size, e))
      λ e.
        let size : length col_ptr ≡ suc n = ground (arith, e) in
        rw (get_elem?-at col_ptr 0 (omega arith)) (
          Verdict-if (Shaped a) (not (eqz (at col_ptr 0) (pos 0))) _
            (λ f s. ground (arith, (need s).start, f))
            λ f.
              let (b, g, (sound, complete)) = monotone_from_lem col_ptr n 0 (omega arith) in
              rw g (
                Verdict-if (Shaped a) (not b) _ (λ h s. cc (h, complete (need s).rises))
                  λ h.
                    pointers_pass n col_ptr row_idx values size (ground (arith, f))
                      (sound (ground (arith, h)))))

-- A negative order is IllegalValue, except that order -1 with no column pointers passes the size
-- check, so that the read of col_ptr[0] is out of range.
validate_shape-negsuc :
    {V : Type 0} (k : ℕ) (col_ptr row_idx : List ℤ) (values : List V)
    → validate_shape
        (record { n = negsuc k; col_ptr = col_ptr; row_idx = row_idx; values = values })
      ≡ (if k == 0 && length col_ptr == 0 then none else some ErrorCode.illegal_value)
unfolding validate_shape
validate_shape-negsuc zero [] row_idx values = refl
validate_shape-negsuc zero (c ∷ col_ptr) row_idx values = ground arith
validate_shape-negsuc (suc k) col_ptr row_idx values = ground arith
