-- ===== src/Etree/Postorder/Tests.antt =====
-- Tests of the postorder on a small forest, and an instance of each theorem.
use opt_solver.Base.{
  ℕ, zero, suc, ◌+◌, ◌≡◌, refl, ap, ◌∙◌, and_parts, ◌&&◌, Bool, true, List, [], ◌∷◌, ltb, ◌==◌,
  length, some, arith,
}
use opt_solver.Base.Ints.{ℤ, pos, negsuc}
use opt_solver.Etree.Path.{above}
use opt_solver.Etree.Postorder.{roots, etree_postorder}
use opt_solver.Bucket.{scatter}
use opt_solver.Etree.Postorder.Kids.{IsParents}
use opt_solver.Etree.Postorder.Laws.{IsPostorder}
use opt_solver.Etree.Postorder.Room.{rounds, IsInside, roots-IsInside}
use opt_solver.Etree.Postorder.Depth.{IsHeight, etree_postorder_lem}

-- The children of 4 are 2 and 3, that of 2 is 1 and that of 3 is 0; 5 is alone.
abbrev branches : List ℤ
branches = pos 3 ∷ pos 2 ∷ pos 4 ∷ pos 4 ∷ negsuc 0 ∷ negsuc 0 ∷ []

etree_postorder-branches : etree_postorder 6 branches ≡ some (1 ∷ 2 ∷ 0 ∷ 3 ∷ 4 ∷ 5 ∷ [], 2)
unfolding etree_postorder scatter
etree_postorder-branches = refl

-- A greater parent below n, or -1.
abbrev is_good : ℕ → ℕ → ℤ → Bool
is_good n r z = elim z [ pos t ↦ ltb r t && ltb t n | negsuc m ↦ m == 0 ]

abbrev are_good : ℕ → ℕ → List ℤ → Bool
are_good n r [] = true
are_good n r (z ∷ zs) = is_good n r z && are_good n (suc r) zs

good-all :
    (n r i : ℕ) (zs : List ℤ) → are_good n r zs ≡ true → is_good n (r + i) (above zs i) ≡ true
good-all n r i [] h = refl
good-all n r zero (z ∷ zs) h =
    ap (λ k. is_good n k z) {x = r + 0} {y = r} (omega arith) ∙ (and_parts h).0
good-all n r (suc i) (z ∷ zs) h =
    ap (λ k. is_good n k (above zs i)) {x = r + suc i} {y = suc r + i} (omega arith)
    ∙ good-all n (suc r) i zs (and_parts {a = is_good n r z} h).1

good-IsParents : (n : ℕ) (zs : List ℤ) → length zs ≡ n → are_good n 0 zs ≡ true → IsParents n zs
good-IsParents n zs wide h = record {
  wide = wide;
  rising = λ r t e. let g = good-all n 0 r zs h in ground arith;
  bounded = λ r t e. let g = good-all n 0 r zs h in ground arith;
  unset = λ r m e. let g = good-all n 0 r zs h in ground arith;
}

etree_postorder_lem_example :
    (order : List ℕ) × ((depth : ℕ) × ((etree_postorder 6 branches ≡ some (order, depth))
        × IsPostorder 6 branches order
        × IsHeight branches depth))
etree_postorder_lem_example = etree_postorder_lem 6 branches (good-IsParents 6 branches refl refl)

roots-IsInside_example : IsInside 6 (rounds 6 branches 5 (roots 6 branches))
roots-IsInside_example = roots-IsInside 6 branches 5 (good-IsParents 6 branches refl refl)
