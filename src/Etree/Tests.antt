-- ===== src/Etree/Tests.antt =====
-- Tests on small trees, and an instance of each theorem on the elimination tree.
use opt_solver.Base.{
  ℕ, zero, suc, ◌<◌, ◌≡◌, refl, sym, ap, subst, ◌∙◌, inl, inr, Bool, true, false, not, List, [],
  ◌∷◌, get_elem?, ltb, leb, ◌==◌, ◌&&◌, ◌||◌, and_parts, ltb→lt, Option, some, none, if◌then◌else◌,
  arith, ℕ_discrete,
}
use opt_solver.Base.Ints.{ℤ, pos, negsuc}
use opt_solver.Etree.{
  parents_of_rows, read_row, parents_from_rows, parents_of_lower, etree_from_adjacency,
}
use opt_solver.Etree.Entries.{start, IsArrays, IsEntry, IsListed, read_row-IsEntry}
use opt_solver.Etree.Permuted.{IsPermutation, IsEdge, etree_from_adjacency-IsEtree}
use opt_solver.Bucket.{scatter}
use opt_solver.Etree.Rows.{IsLeft}
use opt_solver.Etree.Laws.{IsEtree}
use opt_solver.Etree.Order.{parents_of_rows-order}
use opt_solver.Etree.Lower.{IsLower}
use opt_solver.Etree.Postorder.{
  EliminationTree, build_elimination_tree, build_elimination_tree_from_rows,
}
use opt_solver.Etree.Postorder.Build.{
  IsTree, build_elimination_tree-from_rows, build_elimination_tree_from_rows-IsTree,
}
use mathlib.Core.List.{Memᴰ}
use mathlib.Core.List.Memᴰ
use mathlib.Core.List.Memᴰ.{head, tail}

abbrev every : (ℕ → Bool) → List ℕ → Bool
every test [] = true
every test (x ∷ xs) = test x && every test xs

every-all :
    (test : ℕ → Bool) (xs : List ℕ) → every test xs ≡ true → (x : ℕ) → Memᴰ x xs → test x ≡ true
every-all test [] h x m = elim m [ ]
every-all test (y ∷ xs) h x m = elim (Memᴰ.cases_cons m) [
  | inl q ↦ ap test q ∙ (and_parts h).0
  | inr m' ↦ every-all test xs (and_parts {a = test y} h).1 x m'
]

abbrev below : (ℕ → Bool) → ℕ → Bool
below test zero = true
below test (suc n) = test n && below test n

below-all : (test : ℕ → Bool) (n : ℕ) → below test n ≡ true → (k : ℕ) → k < n → test k ≡ true
below-all test zero h k lt = absurd (omega arith)
below-all test (suc n) h k lt = elim (ℕ_discrete k n) [
  | yes q ↦ ap test q ∙ (and_parts h).0
  | no ne ↦ below-all test n (and_parts {a = test n} h).1 k (omega arith)
]

abbrev member : ℕ → List ℕ → Bool
member r [] = false
member r (x ∷ xs) = (r == x) || member r xs

member-Memᴰ : (r : ℕ) (xs : List ℕ) → member r xs ≡ true → Memᴰ r xs
member-Memᴰ r [] h = ground arith
member-Memᴰ r (x ∷ xs) h = elim (ℕ_discrete r x) [
  | yes q ↦ head q
  | no ne ↦ tail (member-Memᴰ r xs (ground arith))
]

-- Each row's entries are left of the diagonal; those of the second row sets are in the first.
rows-IsLeft :
    (n : ℕ) (rows : ℕ → List ℕ)
    → below (λ k. every (λ r. ltb r k) (rows k)) n ≡ true
    → (k : ℕ) → k < n
    → IsLeft k (rows k)
rows-IsLeft n rows h k lt r m =
    ltb→lt r k (every-all (λ r. ltb r k) (rows k) (below-all _ n h k lt) r m)

rows-within :
    (n : ℕ) (rows other : ℕ → List ℕ)
    → below (λ k. every (λ r. member r (other k)) (rows k)) n ≡ true
    → (k r : ℕ) → k < n
    → Memᴰ r (rows k)
    → Memᴰ r (other k)
rows-within n rows other h k r lt m =
    member-Memᴰ r (other k)
      (every-all (λ r. member r (other k)) (rows k) (below-all _ n h k lt) r m)

-- There and not negative.
abbrev is_there : List ℤ → ℕ → Bool
is_there xs k = elim (get_elem? xs k) [
  | none ↦ false
  | some z ↦ elim z [ pos p ↦ true | negsuc m ↦ false ]
]

is_there-pos :
    (xs : List ℤ) (k : ℕ) → is_there xs k ≡ true → get_elem? xs k ≡ some (pos (start xs k))
is_there-pos [] k h = ground arith
is_there-pos (pos p ∷ xs) zero h = refl
is_there-pos (negsuc m ∷ xs) zero h = absurd (ground arith)
is_there-pos (x ∷ xs) (suc k) h = is_there-pos xs k h

-- The arrays of n rows are there.
abbrev there : ℕ → List ℤ → List ℤ → Bool
there n ptr idx =
    below (is_there ptr) (suc n)
    && below (λ k. below (λ p. not (leb (start ptr k) p) || is_there idx p) (start ptr (suc k))) n

there-IsArrays : (n : ℕ) (ptr idx : List ℤ) → there n ptr idx ≡ true → IsArrays n ptr idx
there-IsArrays n ptr idx h = record {
  pointers =
      λ k le. is_there-pos ptr k (below-all (is_there ptr) (suc n) (and_parts h).0 k (omega arith));
  indices = λ k p lt lo hi.
      let row =
        below-all
          (λ k. below (λ p. not (leb (start ptr k) p) || is_there idx p) (start ptr (suc k))) n
          (and_parts {a = below (is_there ptr) (suc n)} h).1 k lt in
      let place =
        below-all (λ p. not (leb (start ptr k) p) || is_there idx p) (start ptr (suc k)) row p hi in
      (start idx p, is_there-pos idx p (ground arith));
}

-- The entries of row k, as read.
abbrev row_of : List ℤ → List ℤ → ℕ → List ℕ
row_of ptr idx k = elim (read_row ptr idx k) [ none ↦ [] | some l ↦ l ]

row_of-IsListed :
    {n : ℕ} {ptr idx : List ℤ}
    → IsArrays n ptr idx
    → (k : ℕ) → k < n
    → IsListed (IsEntry ptr idx k) (row_of ptr idx k)
row_of-IsListed {ptr} {idx} a k lt =
    let (l, e, q) = read_row-IsEntry a k lt in
    let same : l ≡ row_of ptr idx k =
      sym (ap (λ (o : Option (List ℕ)). elim o [ none ↦ [] | some l ↦ l ]) e) in
    subst (IsListed (IsEntry ptr idx k)) same q

-- The matrix with the entries (1, 0), (2, 0) and (3, 1), by columns and by rows.
abbrev col_ptr : List ℤ
col_ptr = pos 0 ∷ pos 3 ∷ pos 5 ∷ pos 6 ∷ pos 7 ∷ []

abbrev row_idx : List ℤ
row_idx = pos 0 ∷ pos 1 ∷ pos 2 ∷ pos 1 ∷ pos 3 ∷ pos 2 ∷ pos 3 ∷ []

abbrev row_ptr : List ℤ
row_ptr = pos 0 ∷ pos 1 ∷ pos 3 ∷ pos 5 ∷ pos 7 ∷ []

abbrev row_cols : List ℤ
row_cols = pos 0 ∷ pos 0 ∷ pos 1 ∷ pos 0 ∷ pos 2 ∷ pos 1 ∷ pos 3 ∷ []

-- The same as a graph, and the order 3, 1, 0, 2 of its vertices.
abbrev xadj : List ℤ
xadj = pos 0 ∷ pos 2 ∷ pos 4 ∷ pos 5 ∷ pos 6 ∷ []

abbrev adj : List ℤ
adj = pos 1 ∷ pos 2 ∷ pos 0 ∷ pos 3 ∷ pos 0 ∷ pos 1 ∷ []

abbrev perm : List ℤ
perm = pos 3 ∷ pos 1 ∷ pos 0 ∷ pos 2 ∷ []

abbrev iperm : List ℤ
iperm = pos 2 ∷ pos 1 ∷ pos 3 ∷ pos 0 ∷ []

abbrev chain : List ℤ
chain = pos 1 ∷ pos 2 ∷ pos 3 ∷ negsuc 0 ∷ []

lower_chain : parents_of_lower 4 col_ptr row_idx ≡ some chain
unfolding parents_of_lower scatter
lower_chain = refl

rows_chain : parents_from_rows 4 row_ptr row_cols ≡ some chain
unfolding parents_from_rows
rows_chain = refl

permuted_chain : etree_from_adjacency 4 xadj adj perm iperm ≡ some chain
unfolding etree_from_adjacency
permuted_chain = refl

abbrev fan : ℕ → List ℕ
fan k = if k == 3 then 0 ∷ 1 ∷ 2 ∷ [] else []

abbrev fan_again : ℕ → List ℕ
fan_again k = if k == 3 then 2 ∷ 1 ∷ 0 ∷ 2 ∷ [] else []

fan_parents : parents_of_rows 4 fan ≡ some (pos 3 ∷ pos 3 ∷ pos 3 ∷ negsuc 0 ∷ [])
unfolding parents_of_rows
fan_parents = refl

fan-IsLeft : (k : ℕ) → k < 4 → IsLeft k (fan k)
fan-IsLeft = rows-IsLeft 4 fan refl

fan_again-IsLeft : (k : ℕ) → k < 4 → IsLeft k (fan_again k)
fan_again-IsLeft = rows-IsLeft 4 fan_again refl

perm-IsPermutation : IsPermutation 4 perm iperm
perm-IsPermutation = record { old = old; new = new }
  where
    old :
        (k : ℕ)
        → k < 4
        → (v : ℕ) × (v < 4) × (get_elem? perm k ≡ some (pos v)) × (get_elem? iperm v ≡ some (pos k))
    old zero lt = (3, omega arith, refl, refl)
    old (suc zero) lt = (1, omega arith, refl, refl)
    old (suc (suc zero)) lt = (0, omega arith, refl, refl)
    old (suc (suc (suc zero))) lt = (2, omega arith, refl, refl)
    old (suc (suc (suc (suc k)))) lt = absurd (omega arith)

    new :
        (v : ℕ)
        → v < 4
        → (k : ℕ) × (k < 4) × (get_elem? perm k ≡ some (pos v)) × (get_elem? iperm v ≡ some (pos k))
    new zero lt = (2, omega arith, refl, refl)
    new (suc zero) lt = (1, omega arith, refl, refl)
    new (suc (suc zero)) lt = (3, omega arith, refl, refl)
    new (suc (suc (suc zero))) lt = (0, omega arith, refl, refl)
    new (suc (suc (suc (suc v)))) lt = absurd (omega arith)

graph-IsArrays : IsArrays 4 xadj adj
graph-IsArrays = there-IsArrays 4 xadj adj refl

graph_within : (v w : ℕ) → v < 4 → IsEntry xadj adj v w → w < 4
unfolding read_row
graph_within v w lt e = ltb→lt w 4 (
    every-all (λ w. ltb w 4) (row_of xadj adj v)
      (below-all (λ v. every (λ w. ltb w 4) (row_of xadj adj v)) 4 refl v lt) w
      ((row_of-IsListed graph-IsArrays v lt).1 w e))

etree_from_adjacency-IsEtree_example :
    (parent : List ℤ) × (etree_from_adjacency 4 xadj adj perm iperm ≡ some parent)
    × IsEtree 4 (IsEdge xadj adj perm) parent
etree_from_adjacency-IsEtree_example =
    etree_from_adjacency-IsEtree 4 xadj adj perm iperm graph-IsArrays graph_within
      perm-IsPermutation

parents_of_rows-order_example : parents_of_rows 4 fan ≡ parents_of_rows 4 fan_again
parents_of_rows-order_example =
    parents_of_rows-order 4 fan fan_again fan-IsLeft fan_again-IsLeft
      (rows-within 4 fan fan_again refl) (rows-within 4 fan_again fan refl)

abbrev column : ℕ → List ℕ
column = row_of col_ptr row_idx

abbrev row : ℕ → List ℕ
row = row_of row_ptr row_cols

columns-IsArrays : IsArrays 4 col_ptr row_idx
columns-IsArrays = there-IsArrays 4 col_ptr row_idx refl

rows-IsArrays : IsArrays 4 row_ptr row_cols
rows-IsArrays = there-IsArrays 4 row_ptr row_cols refl

columns-IsLower : IsLower 4 col_ptr row_idx
unfolding read_row
columns-IsLower j i lt e =
    let test : (leb j i && ltb i 4) ≡ true =
      every-all (λ i. leb j i && ltb i 4) (column j)
        (below-all (λ j. every (λ i. leb j i && ltb i 4) (column j)) 4 refl j lt) i
        ((row_of-IsListed columns-IsArrays j lt).1 i e) in
    ground arith

column_of_row :
    (k r : ℕ) → r < k → k < 4 → IsEntry row_ptr row_cols k r → IsEntry col_ptr row_idx r k
unfolding read_row
column_of_row k r less lt e = (row_of-IsListed columns-IsArrays r (omega arith)).0 k (
    member-Memᴰ k (column r) (
      every-all (λ r. member k (column r)) (row k)
        (below-all (λ k. every (λ r. member k (column r)) (row k)) 4 refl k lt) r
        ((row_of-IsListed rows-IsArrays k lt).1 r e)))

row_of_column :
    (k r : ℕ) → r < k → k < 4 → IsEntry col_ptr row_idx r k → IsEntry row_ptr row_cols k r
unfolding read_row
row_of_column k r less lt e = (row_of-IsListed rows-IsArrays k lt).0 r (
    member-Memᴰ r (row k) (
      every-all (λ k. member r (row k)) (column r)
        (below-all (λ r. every (λ k. member r (row k)) (column r)) 4 refl r (omega arith)) k
        ((row_of-IsListed columns-IsArrays r (omega arith)).1 k e)))

build_elimination_tree-from_rows_example :
    build_elimination_tree 4 col_ptr row_idx ≡ build_elimination_tree_from_rows 4 row_ptr row_cols
build_elimination_tree-from_rows_example =
    build_elimination_tree-from_rows 4 col_ptr row_idx row_ptr row_cols columns-IsArrays
      rows-IsArrays columns-IsLower column_of_row row_of_column

build_elimination_tree_from_rows-IsTree_example :
    (tree : EliminationTree) × (build_elimination_tree_from_rows 4 row_ptr row_cols ≡ some tree)
    × IsTree 4 (λ k r. (r < k) × IsEntry row_ptr row_cols k r) tree
build_elimination_tree_from_rows-IsTree_example =
    build_elimination_tree_from_rows-IsTree 4 row_ptr row_cols rows-IsArrays
