-- ===== src/Matrix/Columns/Laws.antt =====
-- A matrix packed from columns has those columns, and is well shaped when their rows are in range.
use native.Mathlib.Numerals.{add-one}
use mathlib.Core.List.{append-nil, append_assoc}
use opt_solver.Base.{
  ℕ, zero, suc, ◌+◌, ◌-◌, ◌≤◌, ◌<◌, ◌≡◌, refl, sym, ap, ◌∙◌, List, [], ◌∷◌, ◌++◌, map, length,
  get_or, take, drop, slice, arith, length-append, length-map, get_or-slice,
}
use opt_solver.Matrix.Csc.{Lower}
use opt_solver.Matrix.Csc.Shape.{IsShaped, col_start, row}
use opt_solver.Matrix.Columns.{
  Pair, append_column, append_columns, pack, no_columns, zip_pairs, column,
}

-- The entries before column j.
abbrev pub offset : {A : Type 0} → List (List A) → ℕ → ℕ
offset cs zero = 0
offset [] (suc j) = 0
offset (c ∷ cs) (suc j) = length c + offset cs j

abbrev pub nth : {A : Type 0} → List (List A) → ℕ → List A
nth cs j = get_or cs j []

abbrev pub gather : {A B : Type 0} → (A → B) → List (List A) → List B
gather f [] = []
gather f (c ∷ cs) = map f c ++ gather f cs

abbrev ends : {A : Type 0} → ℕ → List (List A) → List ℕ
ends a [] = []
ends a (c ∷ cs) = (a + length c) ∷ ends (a + length c) cs

take-append_length : {A : Type 0} (xs ys : List A) (k : ℕ) → k ≡ length xs → take k (xs ++ ys) ≡ xs
take-append_length [] ys zero e = refl
take-append_length [] ys (suc k) e = absurd (omega arith)
take-append_length (x ∷ xs) ys zero e = absurd (omega arith)
take-append_length (x ∷ xs) ys (suc k) e = ap (◌∷◌ x) (take-append_length xs ys k (omega arith))

drop-append_add :
    {A : Type 0} (xs ys : List A) (a k : ℕ) → k ≡ length xs + a → drop k (xs ++ ys) ≡ drop a ys
drop-append_add [] ys a k e = ap (λ m. drop m ys) (omega arith)
drop-append_add (x ∷ xs) ys a zero e = absurd (omega arith)
drop-append_add (x ∷ xs) ys a (suc k) e = drop-append_add xs ys a k (omega arith)

slice-gather :
    {A B : Type 0} (f : A → B) (cs : List (List A)) (j : ℕ)
    → j < length cs
    → slice (offset cs j) (offset cs (suc j)) (gather f cs) ≡ map f (nth cs j)
slice-gather f [] j h = absurd (omega arith)
slice-gather f (c ∷ cs) zero h =
    take-append_length (map f c) (gather f cs) (length c + 0 - 0) (omega (arith, length-map c f))
slice-gather f (c ∷ cs) (suc j) h =
    ap (take (length c + offset cs (suc j) - (length c + offset cs j)))
      (drop-append_add (map f c) (gather f cs) (offset cs j) _ (omega (arith, length-map c f)))
    ∙ (ap (λ k. take k (drop (offset cs j) (gather f cs)))
          {x = length c + offset cs (suc j) - (length c + offset cs j)} (omega arith)
        ∙ slice-gather f cs j (omega arith))

zip_pairs-map :
    {V : Type 0} (c : List (Pair V)) → zip_pairs (map (λ p. p.row) c) (map (λ p. p.val) c) ≡ c
zip_pairs-map [] = refl
zip_pairs-map (p ∷ c) = ap (◌∷◌ p) (zip_pairs-map c)

length-gather :
    {A B : Type 0} (f : A → B) (cs : List (List A)) → length (gather f cs) ≡ offset cs (length cs)
length-gather f [] = refl
length-gather f (c ∷ cs) =
    omega (arith, length-append (map f c) (gather f cs), length-map c f, length-gather f cs)

length-ends : {A : Type 0} (a : ℕ) (cs : List (List A)) → length (ends a cs) ≡ length cs
length-ends a [] = refl
length-ends a (c ∷ cs) = ap suc (length-ends (a + length c) cs)

module _ {V : Type 0} where
  append_columns_lem :
      (l : Lower V) (cs : List (List (Pair V)))
      → append_columns l cs ≡ record l {
        col_ptr = l.col_ptr ++ ends (length l.row_idx) cs;
        row_idx = l.row_idx ++ gather (λ p. p.row) cs;
        values = l.values ++ gather (λ p. p.val) cs;
      }
  unfolding append_columns append_column
  append_columns_lem l [] = simp append-nil
  append_columns_lem l (c ∷ cs) =
      append_columns_lem (append_column l c) cs ∙ simp (append_assoc, length-append, length-map)

  get_or-ends :
      (a : ℕ) (cs : List (List (Pair V))) (j : ℕ)
      → j < length cs
      → get_or (ends a cs) j 0 ≡ a + offset cs (suc j)
  get_or-ends a [] j h = absurd (omega arith)
  get_or-ends a (c ∷ cs) zero h = omega arith
  get_or-ends a (c ∷ cs) (suc j) h = omega (arith, get_or-ends (a + length c) cs j (omega arith))

  -- The columns' entries lie in the lower triangle of order n.
  abbrev pub RowsWithin : ℕ → ℕ → List (Pair V) → Type 0
  RowsWithin lo n [] = Unit
  RowsWithin lo n (p ∷ c) = (lo ≤ p.row) × (p.row < n) × RowsWithin lo n c

  RowsWithin-get_or :
      (lo n : ℕ) (c : List (Pair V)) (t : ℕ)
      → RowsWithin lo n c
      → t < length c
      → (lo ≤ get_or (map (λ p. p.row) c) t 0) × (get_or (map (λ p. p.row) c) t 0 < n)
  RowsWithin-get_or lo n [] t w h = absurd (omega arith)
  RowsWithin-get_or lo n (p ∷ c) zero w h = (w.0, w.1)
  RowsWithin-get_or lo n (p ∷ c) (suc t) w h = RowsWithin-get_or lo n c t w.2 (omega arith)

  module _ (n : ℕ) (cs : List (List (Pair V))) (count : length cs ≡ n) where
    abbrev packed : Lower V
    packed = pack n cs

    pub packed_lem : packed ≡ record {
      n = n;
      col_ptr = 0 ∷ ends 0 cs;
      row_idx = gather (λ p. p.row) cs;
      values = gather (λ p. p.val) cs;
    }
    unfolding pack append_columns
    packed_lem = append_columns_lem (no_columns n) cs

    pub col_start-pack : (j : ℕ) → j ≤ n → col_start packed j ≡ offset cs j
    col_start-pack zero h = rw packed_lem
    col_start-pack (suc j) h = rw packed_lem (omega (arith, get_or-ends 0 cs j (omega arith)))

    -- Column j of the packed matrix is the j-th of the columns it was packed from.
    pub column-pack : (j : ℕ) → j < n → column packed j ≡ nth cs j
    column-pack j h =
        rw (col_start-pack j (omega arith), col_start-pack (suc j) h)
          (rw packed_lem (
            rw
              (
                slice-gather (λ (p : Pair V). p.row) cs j (omega arith),
                slice-gather (λ (p : Pair V). p.val) cs j (omega arith),
              )
              (zip_pairs-map (nth cs j))))

    pub row-pack :
        (j k : ℕ)
        → j < n
        → offset cs j ≤ k
        → k < offset cs (suc j)
        → row packed k ≡ get_or (map (λ p. p.row) (nth cs j)) (k - offset cs j) 0
    row-pack j k h a b =
        let rows = gather (λ (p : Pair V). p.row) cs in
        let same : offset cs j + (k - offset cs j) ≡ k = omega arith in
        rw packed_lem (
          ap (λ i. get_or rows i 0) (sym same)
          ∙ (sym (
                get_or-slice (offset cs j) (offset cs (suc j)) rows (k - offset cs j) 0
                  (omega arith))
              ∙ ap (λ l. get_or l (k - offset cs j) 0)
                  (slice-gather (λ (p : Pair V). p.row) cs j (omega arith))))

    pub offset_step : (j : ℕ) → j < n → offset cs (suc j) ≡ offset cs j + length (nth cs j)
    offset_step j h = step cs j (omega arith)
      where
        step :
            (ds : List (List (Pair V))) (i : ℕ)
            → i < length ds
            → offset ds (suc i) ≡ offset ds i + length (nth ds i)
        step [] i h = absurd (omega arith)
        step (c ∷ ds) zero h = omega arith
        step (c ∷ ds) (suc i) h = omega (arith, step ds i (omega arith))

    pub n-pack : packed.n ≡ n
    n-pack = ap (λ (l : Lower V). l.n) packed_lem

    -- The whole of the packed arrays.
    pub total : {B : Type 0} (f : Pair V → B) → length (gather f cs) ≡ col_start packed packed.n
    total f =
        length-gather f cs
        ∙ (ap (offset cs) count
            ∙ (sym (col_start-pack n (omega arith)) ∙ ap (col_start packed) (sym n-pack)))

    -- Packed from columns whose rows are in range, the matrix is well shaped.
    pub pack-IsShaped : ((j : ℕ) → j < n → RowsWithin j n (nth cs j)) → IsShaped packed
    pack-IsShaped within = record {
      columns =
          ap (λ (l : Lower V). length l.col_ptr) packed_lem
          ∙ omega (arith, length-ends 0 cs, n-pack);
      starts = col_start-pack 0 (omega arith);
      monotone = λ j h.
          rw
            (
              add-one j,
              col_start-pack j (omega (arith, n-pack)),
              col_start-pack (suc j) (omega (arith, n-pack)),
            )
            (omega (arith, offset_step j (omega (arith, n-pack))));
      rows = ap (λ (l : Lower V). length l.row_idx) packed_lem ∙ total (λ p. p.row);
      entries = ap (λ (l : Lower V). length l.values) packed_lem ∙ total (λ p. p.val);
      lower = λ j k h a b.
          let inside : j < n = omega (arith, n-pack) in
          let above : offset cs j ≤ k = rw (col_start-pack j (omega arith)) at a in
          let below : k < offset cs (suc j) = rw (add-one j, col_start-pack (suc j) inside) at b in
          let r =
            RowsWithin-get_or j n (nth cs j) (k - offset cs j) (within j inside)
              (omega (arith, offset_step j inside)) in
          rw (row-pack j k inside above below) (r.0, omega (arith, r.1, n-pack));
    }
