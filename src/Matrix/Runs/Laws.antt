-- ===== src/Matrix/Runs/Laws.antt =====
-- Sorting and merging keeps the rows in range, makes them strictly ascending, and keeps the sum of
-- the values of every row.
use mathlib.Core.List.{Permᴰ}
use mathlib.Core.HLevel.{×₃_prop}
use mathlib.Core.Logic.{∥∥₁_elim}
use native.Mathlib.Bridge.{le_prop}
use opt_solver.Base.{
  ℕ, suc, ◌≤◌, ◌<◌, ◌≡◌, refl, sym, ap, subst, ◌∙◌, inl, inr, true, false, List, [], ◌∷◌, Perm,
  ◌==◌, if◌then◌else◌, arith, Bool-cases, ==_iff,
}
use opt_solver.Matrix.Columns.{Pair}
use opt_solver.Matrix.Columns.Laws.{RowsWithin}
use opt_solver.Matrix.Runs.{merge_from, merge_runs}

-- The rows are at least `lo` and do not fall.
abbrev pub Ascends : {V : Type 0} → ℕ → List (Pair V) → Type 0
Ascends lo [] = Unit
Ascends lo (p ∷ ps) = (lo ≤ p.row) × Ascends p.row ps

-- The rows are at least `lo` and rise strictly.
abbrev pub Climbs : {V : Type 0} → ℕ → List (Pair V) → Type 0
Climbs lo [] = Unit
Climbs lo (p ∷ ps) = (lo ≤ p.row) × Climbs (suc p.row) ps

pub Ascends-within :
    {V : Type 0} (lo n : ℕ) (c : List (Pair V)) → RowsWithin lo n c → Ascends 0 c → Ascends lo c
Ascends-within lo n [] w a = tt
Ascends-within lo n (p ∷ c) w a = (w.0, a.1)

-- What the program needs of addition where it sums duplicates in another order than they came: exact
-- arithmetic, which floating point approximates.
pub record Addition (V : Type 0) : Type 0 where
  pub zero_value : V
  pub add : V → V → V
  pub add_assoc : (a b c : V) → add (add a b) c ≡ add a (add b c)
  pub add_comm : (a b : V) → add a b ≡ add b a
  pub is_set : IsSet V

-- The documented behaviour of std::sort by ascending row.
pub record SortsByRow {V : Type 0} (sort : List (Pair V) → List (Pair V)) : Type 0 where
  pub sort-perm : (ps : List (Pair V)) → Perm (sort ps) ps
  pub sort-Ascends : (ps : List (Pair V)) → Ascends 0 (sort ps)

module _ {V : Type 0} where
  RowsWithin-prop : (lo n : ℕ) (c : List (Pair V)) → IsProp (RowsWithin lo n c)
  RowsWithin-prop lo n [] = λ x y. refl
  RowsWithin-prop lo n (p ∷ c) = ×₃_prop le_prop le_prop (RowsWithin-prop lo n c)

  RowsWithin-permᴰ :
      (lo n : ℕ) {xs ys : List (Pair V)} → Permᴰ xs ys → RowsWithin lo n ys → RowsWithin lo n xs
  RowsWithin-permᴰ lo n Permᴰ.nil w = w
  RowsWithin-permᴰ lo n (Permᴰ.cons e p) w =
      let row = ap (λ (x : Pair V). x.row) e in
      (omega (arith, row, w.0), omega (arith, row, w.1), RowsWithin-permᴰ lo n p w.2)
  RowsWithin-permᴰ lo n (Permᴰ.swap e f) w =
      let row = ap (λ (x : Pair V). x.row) e in
      let row' = ap (λ (x : Pair V). x.row) f in
      (
        omega (arith, row, w.2.0),
        omega (arith, row, w.2.1),
        (omega (arith, row', w.0), omega (arith, row', w.1), w.2.2),
      )
  RowsWithin-permᴰ lo n (Permᴰ.trans p q) w = RowsWithin-permᴰ lo n p (RowsWithin-permᴰ lo n q w)

  pub RowsWithin-perm :
      (lo n : ℕ) {xs ys : List (Pair V)} → Perm xs ys → RowsWithin lo n ys → RowsWithin lo n xs
  RowsWithin-perm lo n p w = ∥∥₁_elim p (RowsWithin-prop lo n _) (λ d. RowsWithin-permᴰ lo n d w)

  module _ (add : V → V → V) where
    pub merge_from-same :
        (r : ℕ) (s : V) (p : Pair V) (ps : List (Pair V))
        → (p.row == r) ≡ true
        → merge_from add r s (p ∷ ps) ≡ merge_from add r (add s p.val) ps
    unfolding merge_from
    merge_from-same r s p ps e = rw (e, merge_from)

    pub merge_from-other :
        (r : ℕ) (s : V) (p : Pair V) (ps : List (Pair V))
        → (p.row == r) ≡ false
        → merge_from add r s (p ∷ ps) ≡ record { row = r; val = s } ∷ merge_from add p.row p.val ps
    unfolding merge_from
    merge_from-other r s p ps e = rw (e, merge_from)

    merge_from-within :
        (lo n r : ℕ) (s : V) (ps : List (Pair V))
        → lo ≤ r
        → r < n
        → RowsWithin lo n ps
        → RowsWithin lo n (merge_from add r s ps)
    merge_from-within lo n r s [] h k w = unfold merge_from in (h, k, tt)
    merge_from-within lo n r s (p ∷ ps) h k w = elim (Bool-cases (p.row == r)) [
      | inl same ↦
          rw (merge_from-same r s p ps same) (merge_from-within lo n r (add s p.val) ps h k w.2)
      | inr other ↦
          rw (merge_from-other r s p ps other)
            (h, k, merge_from-within lo n p.row p.val ps w.0 w.1 w.2)
    ]

    pub merge_runs-within :
        (lo n : ℕ) (ps : List (Pair V)) → RowsWithin lo n ps → RowsWithin lo n (merge_runs add ps)
    unfolding merge_runs
    merge_runs-within lo n [] w = w
    merge_runs-within lo n (p ∷ ps) w = merge_from-within lo n p.row p.val ps w.0 w.1 w.2

    merge_from-Climbs :
        (lo r : ℕ) (s : V) (ps : List (Pair V))
        → lo ≤ r
        → Ascends r ps
        → Climbs lo (merge_from add r s ps)
    merge_from-Climbs lo r s [] h a = unfold merge_from in (h, tt)
    merge_from-Climbs lo r s (p ∷ ps) h a = elim (Bool-cases (p.row == r)) [
      | inl same ↦ rw (merge_from-same r s p ps same) (
          merge_from-Climbs lo r (add s p.val) ps h
            (subst (λ k. Ascends k ps) ((==_iff p.row r).0 same) a.1))
      | inr other ↦
          rw (merge_from-other r s p ps other)
            (h, merge_from-Climbs (suc r) p.row p.val ps (ground (arith, a.0)) a.1)
    ]

    pub merge_runs-Climbs :
        (lo : ℕ) (ps : List (Pair V)) → Ascends lo ps → Climbs lo (merge_runs add ps)
    unfolding merge_runs
    merge_runs-Climbs lo [] a = a
    merge_runs-Climbs lo (p ∷ ps) a = merge_from-Climbs lo p.row p.val ps a.0 a.1

-- The sum of the values at row `i`.
module _ {V : Type 0} (a : Addition V) where
  open a use {zero_value, add, add_assoc, add_comm, is_set}

  unfoldable pub entry_sum : ℕ → List (Pair V) → V
  entry_sum i [] = zero_value
  entry_sum i (p ∷ ps) = let rest = entry_sum i ps in if p.row == i then add p.val rest else rest

  merge_from-sum :
      (i r : ℕ) (s : V) (ps : List (Pair V))
      → entry_sum i (merge_from add r s ps) ≡ entry_sum i (record { row = r; val = s } ∷ ps)
  unfolding merge_from entry_sum
  merge_from-sum i r s [] = refl
  merge_from-sum i r s (p ∷ ps) = ground (
    arith,
    merge_from-sum i r (add s p.val) ps,
    merge_from-sum i p.row p.val ps,
    add_assoc s p.val (entry_sum i ps),
  )

  -- Merging runs keeps every row's sum.
  pub merge_runs-sum :
      (i : ℕ) (ps : List (Pair V)) → entry_sum i (merge_runs add ps) ≡ entry_sum i ps
  unfolding merge_runs
  merge_runs-sum i [] = refl
  merge_runs-sum i (p ∷ ps) = merge_from-sum i p.row p.val ps

  add_swap : (x y z : V) → add x (add y z) ≡ add y (add x z)
  add_swap x y z = sym (add_assoc x y z) ∙ (ap (λ t. add t z) (add_comm x y) ∙ add_assoc y x z)

  -- One entry's part of a row's sum.
  abbrev head_sum : ℕ → Pair V → V → V
  head_sum i x t = if x.row == i then add x.val t else t

  head_sum_swap :
      (i : ℕ) (x y : Pair V) (t : V) → head_sum i x (head_sum i y t) ≡ head_sum i y (head_sum i x t)
  head_sum_swap i x y t = ground (arith, add_swap x.val y.val t)

  entry_sum-permᴰ : (i : ℕ) {xs ys : List (Pair V)} → Permᴰ xs ys → entry_sum i xs ≡ entry_sum i ys
  unfolding entry_sum
  entry_sum-permᴰ i Permᴰ.nil = refl
  entry_sum-permᴰ i (Permᴰ.cons {a = x} {l₂ = l} e p) =
      ap (head_sum i x) (entry_sum-permᴰ i p) ∙ ap (λ z. head_sum i z (entry_sum i l)) e
  entry_sum-permᴰ i (Permᴰ.swap {a = x} {b = y} {a' = y'} {l = l} e f) =
      head_sum_swap i x y (entry_sum i l)
      ∙ (ap (λ z. head_sum i z (head_sum i x (entry_sum i l))) f
          ∙ ap (λ z. head_sum i y' (head_sum i z (entry_sum i l))) e)
  entry_sum-permᴰ i (Permᴰ.trans p q) = entry_sum-permᴰ i p ∙ entry_sum-permᴰ i q

  pub entry_sum-perm :
      (i : ℕ) {xs ys : List (Pair V)} → Perm xs ys → entry_sum i xs ≡ entry_sum i ys
  entry_sum-perm i p = ∥∥₁_elim p (is_set _ _) (entry_sum-permᴰ i)
