-- ===== src/Matrix/Coo/Tests.antt =====
-- The conversion on a concrete matrix, with an insertion sort by row and the addition of numbers.
use mathlib.Core.Option
use mathlib.Core.List.Perm
use native.Mathlib.Nat.{ℕ_set}
use opt_solver.Base.{
  ℕ, ◌+◌, ◌≤◌, ◌≡◌, refl, inl, inr, List, [], ◌∷◌, Perm, leb, leb→le, Bool-cases, if◌then◌else◌,
  some, arith,
}
use opt_solver.Base.Ints.{pos, negsuc}
use opt_solver.Matrix.Csc.{Lower}
use opt_solver.Matrix.Columns.{Pair, column}
use opt_solver.Matrix.Runs.Laws.{Addition, SortsByRow, Ascends, entry_sum}
use opt_solver.Matrix.Coo.{CooMatrix, coo_to_lower_csc}
use opt_solver.Matrix.Coo.Laws.{IsConverted, coo_to_lower_csc_lem}
use opt_solver.Matrix.Coo.Sums.{coo_to_lower_csc-sum, triplet_sum}

unfoldable insert : Pair ℕ → List (Pair ℕ) → List (Pair ℕ)
insert p [] = p ∷ []
insert p (q ∷ qs) = if leb p.row q.row then p ∷ q ∷ qs else q ∷ insert p qs

unfoldable insertion_sort : List (Pair ℕ) → List (Pair ℕ)
unfolding insert
insertion_sort [] = []
insertion_sort (p ∷ ps) = insert p (insertion_sort ps)

abbrev sample : CooMatrix ℕ
sample = record {
  n = pos 3;
  row = pos 2 ∷ pos 0 ∷ pos 1 ∷ pos 2 ∷ negsuc 0 ∷ pos 2 ∷ pos 0 ∷ [];
  col = pos 0 ∷ pos 0 ∷ pos 0 ∷ pos 2 ∷ pos 0 ∷ pos 0 ∷ pos 1 ∷ [];
  val = 1 ∷ 2 ∷ 3 ∷ 4 ∷ 5 ∷ 6 ∷ 7 ∷ [];
}

sample_converts :
    coo_to_lower_csc 0 (λ a b. a + b) insertion_sort sample
    ≡ some (record {
      n = 3;
      col_ptr = 0 ∷ 3 ∷ 3 ∷ 4 ∷ [];
      row_idx = 0 ∷ 1 ∷ 2 ∷ 2 ∷ [];
      values = 2 ∷ 3 ∷ 7 ∷ 4 ∷ [];
    })
unfolding coo_to_lower_csc insertion_sort opt_solver.Matrix.Columns.pack
    opt_solver.Bucket.bucket_ptr opt_solver.Matrix.Runs.merge_runs opt_solver.Bucket.sort_by_key
    opt_solver.Bucket.scatter
sample_converts = refl

insert-perm : (p : Pair ℕ) (qs : List (Pair ℕ)) → Perm (insert p qs) (p ∷ qs)
unfolding insert
insert-perm p [] = Perm.refl (p ∷ [])
insert-perm p (q ∷ qs) = elim (Bool-cases (leb p.row q.row)) [
  | inl le ↦ rw (le, insert) (Perm.refl (p ∷ q ∷ qs))
  | inr gt ↦ rw (gt, insert) (Perm.trans (Perm.cons q (insert-perm p qs)) (Perm.swap p q qs))
]

insertion_sort-perm : (ps : List (Pair ℕ)) → Perm (insertion_sort ps) ps
unfolding insertion_sort
insertion_sort-perm [] = Perm.refl []
insertion_sort-perm (p ∷ ps) =
    Perm.trans (insert-perm p (insertion_sort ps)) (Perm.cons p (insertion_sort-perm ps))

insert-Ascends :
    (lo : ℕ) (p : Pair ℕ) (qs : List (Pair ℕ))
    → lo ≤ p.row
    → Ascends lo qs
    → Ascends lo (insert p qs)
unfolding insert
insert-Ascends lo p [] h a = (h, tt)
insert-Ascends lo p (q ∷ qs) h a = elim (Bool-cases (leb p.row q.row)) [
  | inl le ↦ rw (le, insert) (h, (leb→le p.row q.row le, a.1))
  | inr gt ↦ rw (gt, insert) (a.0, insert-Ascends q.row p qs (ground (arith, gt)) a.1)
]

insertion_sort-Ascends : (ps : List (Pair ℕ)) → Ascends 0 (insertion_sort ps)
unfolding insertion_sort
insertion_sort-Ascends [] = tt
insertion_sort-Ascends (p ∷ ps) =
    insert-Ascends 0 p (insertion_sort ps) (omega arith) (insertion_sort-Ascends ps)

insertion_sort-SortsByRow : SortsByRow insertion_sort
insertion_sort-SortsByRow = record {
  sort-perm = insertion_sort-perm;
  sort-Ascends = insertion_sort-Ascends;
}

numbers : Addition ℕ
numbers = record {
  zero_value = 0;
  add = λ a b. a + b;
  add_assoc = λ a b c. omega arith;
  add_comm = λ a b. omega arith;
  is_set = ℕ_set;
}

coo_to_lower_csc_lem_example :
    (l : Lower ℕ) × (coo_to_lower_csc 0 (λ a b. a + b) insertion_sort sample ≡ some l)
    × IsConverted 3 l
coo_to_lower_csc_lem_example =
    coo_to_lower_csc_lem 0 (λ a b. a + b) insertion_sort insertion_sort-SortsByRow sample
      (omega arith) (omega arith)

coo_to_lower_csc-sum_example :
    Option.map
      (λ l. entry_sum numbers 2 (column l 0))
      (coo_to_lower_csc 0 (λ a b. a + b) insertion_sort sample)
    ≡ some 7
unfolding triplet_sum numbers
coo_to_lower_csc-sum_example =
    coo_to_lower_csc-sum numbers insertion_sort insertion_sort-SortsByRow 3 2 0 (omega arith)
      (omega arith) sample.row sample.col sample.val (omega arith) (omega arith)
