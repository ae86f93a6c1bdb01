-- ===== src/Etree/Postorder/Build.antt =====
-- solver/src/etree.cpp: what the builders of the elimination tree return.
use opt_solver.Base.{
  ℕ, zero, suc, ◌≤◌, ◌<◌, ◌≡◌, refl, sym, ap, ◌∙◌, List, [], ◌==◌, if◌then◌else◌, length, some,
  arith, if_both,
}
use opt_solver.Base.Ints.{not_both, ℤ}
use opt_solver.Matrix.Csc.{◌>>=◌}
use opt_solver.Etree.Postorder.{
  EliminationTree, finish_elimination_tree, empty_tree, build_elimination_tree,
  build_elimination_tree_from_rows,
}
use opt_solver.Etree.{left_of, parents_of_rows, read_row, nth_row, parents_from_rows}
use opt_solver.Etree.Entries.{IsArrays, IsEntry, IsListed, read_row-IsEntry, read_rows_all}
use opt_solver.Etree.Left.{left_of-IsLeft, left_of-IsListed}
use opt_solver.Etree.Rows.{IsBuilt, parents_of_rows-IsBuilt}
use opt_solver.Etree.Laws.{IsEtree, IsBuilt-IsEtree}
use opt_solver.Etree.Lower.{IsLower, parents_of_lower-parents_from_rows}
use opt_solver.Etree.Postorder.Kids.{IsParents}
use opt_solver.Etree.Postorder.Laws.{IsPostorder}
use opt_solver.Etree.Postorder.Deep.{Climbs, stay, climb_on}
use opt_solver.Etree.Postorder.Depth.{IsHeight, etree_postorder_lem}

-- The parents by the entries, a postorder of them, and the length of a longest path.
pub record IsTree (n : ℕ) (e : ℕ → ℕ → Type 0) (tree : EliminationTree) : Type 0 where
  pub parents : IsEtree n e tree.parent
  pub order : IsPostorder n tree.parent tree.postorder
  pub height : IsHeight tree.parent tree.max_depth

empty_tree-IsTree : (n : ℕ) (e : ℕ → ℕ → Type 0) → n ≡ 0 → IsTree n e empty_tree
empty_tree-IsTree n entries e = record {
  parents = record {
    wide = sym e;
    first = λ s t g. absurd (not_both refl g);
    root = λ s m g t r lt inside. absurd (omega arith);
  };
  order = record { wide = sym e; once = λ x lt. absurd (omega arith); children_first = tt };
  height = record { longest = (0, (0, stay)); bound = no_path };
}
  where
    no_path : (x p d : ℕ) → Climbs [] x p d → d ≤ 0
    no_path x p zero path = omega arith
    no_path x p (suc d) (climb_on path e) = absurd (not_both refl e)

IsBuilt-IsParents :
    {n : ℕ} {rows : ℕ → List ℕ} {parent : List ℤ}
    → length parent ≡ n
    → IsBuilt rows n parent
    → IsParents n parent
IsBuilt-IsParents wide b = record {
  wide = wide;
  rising = b.rising;
  bounded = b.bounded;
  unset = b.unset;
}

-- For arrays that are there and rows without negative columns, build_elimination_tree_from_rows returns: the parent of
-- s is the first row after s with an entry, left of the diagonal, in the subtree of s, the postorder has each node once
-- and its children before it, and the depth is the number of edges of a longest path.
pub build_elimination_tree_from_rows-IsTree :
    (n : ℕ) (row_ptr row_cols : List ℤ)
    → IsArrays n row_ptr row_cols
    → (tree : EliminationTree) × (build_elimination_tree_from_rows n row_ptr row_cols ≡ some tree)
      × IsTree n (λ k r. (r < k) × IsEntry row_ptr row_cols k r) tree
unfolding build_elimination_tree_from_rows parents_from_rows finish_elimination_tree
build_elimination_tree_from_rows-IsTree n row_ptr row_cols a =
    let entry : ℕ → ℕ → Type 0 = λ k r. (r < k) × IsEntry row_ptr row_cols k r in
    let (lists, f, q) =
      read_rows_all (read_row row_ptr row_cols) (λ k l. IsListed (IsEntry row_ptr row_cols k) l) n
        (read_row-IsEntry a) in
    let rows : ℕ → List ℕ = λ k. left_of k (nth_row lists k) in
    let (parent, e, wide, b) = parents_of_rows-IsBuilt n rows (λ k lt. left_of-IsLeft k _) in
    let (order, (depth, (g, p, h))) = etree_postorder_lem n parent (IsBuilt-IsParents wide b) in
    let tree : EliminationTree = record { parent = parent; postorder = order; max_depth = depth } in
    if_both (λ o. (tree : EliminationTree) × (o ≡ some tree) × IsTree n entry tree) (n == 0) _ _
      (λ q. (empty_tree, refl, empty_tree-IsTree n entry (ground arith)))
      (λ z. (
        tree,
        ap
              (λ o.
                (o >>= (λ rows. parents_of_rows n (λ k. left_of k (nth_row rows k))))
                >>= finish_elimination_tree n)
              f
            ∙ ap (λ o. o >>= finish_elimination_tree n) e
            ∙ ap
                (λ o. o >>= (λ (r : List ℕ × ℕ).
                  some (record { parent = parent; postorder = r.0; max_depth = r.1 })))
                g,
        record {
          parents = IsBuilt-IsEtree b {e = entry} (λ k lt. left_of-IsListed k (q k lt)) wide;
          order = p;
          height = h;
        },
      ))

-- For arrays that are there, a lower triangle by columns, and rows whose entries left of the diagonal are those of the
-- columns below it, build_elimination_tree and build_elimination_tree_from_rows return the same tree.
pub build_elimination_tree-from_rows :
    (n : ℕ) (col_ptr row_idx row_ptr row_cols : List ℤ)
    → IsArrays n col_ptr row_idx
    → IsArrays n row_ptr row_cols
    → IsLower n col_ptr row_idx
    → ((k r : ℕ) → r < k → k < n → IsEntry row_ptr row_cols k r → IsEntry col_ptr row_idx r k)
    → ((k r : ℕ) → r < k → k < n → IsEntry col_ptr row_idx r k → IsEntry row_ptr row_cols k r)
    → build_elimination_tree n col_ptr row_idx ≡ build_elimination_tree_from_rows n row_ptr row_cols
unfolding build_elimination_tree build_elimination_tree_from_rows
build_elimination_tree-from_rows n col_ptr row_idx row_ptr row_cols a b lower to_column to_row =
    ap (λ o. if n == 0 then some empty_tree else o >>= finish_elimination_tree n)
      (parents_of_lower-parents_from_rows n col_ptr row_idx row_ptr row_cols a b lower to_column
        to_row)
