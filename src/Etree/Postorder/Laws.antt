-- ===== src/Etree/Postorder/Laws.antt =====
-- solver/src/etree.cpp: what etree_postorder and finish_elimination_tree return.
use opt_solver.Base.{
  concat_map, ℕ, zero, suc, ◌+◌, ◌*◌, ◌≤◌, ◌<◌, ◌≡◌, refl, sym, ap, ◌∙◌, Bool, List, [], ◌∷◌, map,
  ◌==◌, if◌then◌else◌, length, replicate, some, arith, if_both, ℕ_discrete,
}
use opt_solver.Base.Ints.{ℤ}
use opt_solver.Matrix.Csc.{◌>>=◌}
use opt_solver.Etree.Postorder.{
  nodes_where, is_root, ch_start, children, enter_node, walk, roots, max_depth_of, etree_postorder,
}
use opt_solver.Etree.Postorder.Kids.{IsParents, nodes_where-to}
use opt_solver.Etree.Postorder.Visit.{visit, visit-kids}
use opt_solver.Etree.Postorder.Total.{tally, total, tally-roots}
use opt_solver.Etree.Postorder.First.{
  IsChildrenFirst, IsChildrenFirst-concat_map, visit-IsChildrenFirst,
}
use opt_solver.Etree.Postorder.Loop.{pending, IsBelow, walk-pending}

-- How often x stands in a list.
abbrev pub occurrences : ℕ → List ℕ → ℕ
occurrences x l = tally (λ y. if y == x then 1 else 0) l

-- Each of the nodes below n once, the children of a node before it.
pub record IsPostorder (n : ℕ) (parent : List ℤ) (order : List ℕ) : Type 0 where
  pub wide : length order ≡ n
  pub once : (x : ℕ) → x < n → occurrences x order ≡ 1
  pub children_first : IsChildrenFirst parent [] order

tally-one : (l : List ℕ) → tally (λ y. 1) l ≡ length l
tally-one [] = refl
tally-one (x ∷ l) = omega (arith, tally-one l)

total-one : (j count : ℕ) → total (λ y. 1) j count ≡ count
total-one j zero = refl
total-one j (suc count) = omega (arith, total-one (suc j) count)

total-past : (x j count : ℕ) → x < j → total (λ y. if y == x then 1 else 0) j count ≡ 0
total-past x j zero lt = refl
total-past x j (suc count) lt = let rest = total-past x (suc j) count (omega arith) in ground arith

total-once :
    (x j count : ℕ) → j ≤ x → x < j + count → total (λ y. if y == x then 1 else 0) j count ≡ 1
total-once x j zero le lt = absurd (omega arith)
total-once x j (suc count) le lt = elim (ℕ_discrete j x) [
  | yes q ↦ let rest = total-past x (suc j) count (omega arith) in ground arith
  | no ne ↦ let rest = total-once x (suc j) count (omega arith) (omega arith) in ground arith
]

module _ {n : ℕ} {parent : List ℤ} (t : IsParents n parent) where
  abbrev pub subtrees : List ℕ
  subtrees = concat_map (visit n parent n) (nodes_where (is_root parent) 0 n)

  pub length-subtrees : length subtrees ≡ n
  length-subtrees = sym (tally-one subtrees) ∙ tally-roots t (λ y. 1) ∙ total-one 0 n

  nodes_where-below :
      (test : ℕ → Bool) (j count : ℕ)
      → j + count ≤ n
      → IsBelow n parent (map enter_node (nodes_where test j count))
  unfolding nodes_where
  nodes_where-below test j zero le = tt
  nodes_where-below test j (suc count) le =
      let rest = nodes_where-below test (suc j) count (omega arith) in
      if_both (λ l. IsBelow n parent (map enter_node l)) (test j) _ _ (λ e. (omega arith, rest))
        (λ e. rest)

  pending-map :
      (vs : List ℕ)
      → IsBelow n parent (map enter_node vs)
      → pending n parent (map enter_node vs) ≡ concat_map (visit n parent n) vs
  pending-map [] below = refl
  pending-map (v ∷ vs) (lt, below) =
      let first = visit-kids t v lt in let rest = pending-map vs below in cc (first, rest)

  pub roots-below : IsBelow n parent (roots n parent).stack
  unfolding roots
  roots-below = nodes_where-below (is_root parent) 0 n (omega arith)

  pub roots-pending : pending n parent (roots n parent).stack ≡ subtrees
  unfolding roots
  roots-pending =
      pending-map (nodes_where (is_root parent) 0 n)
        (nodes_where-below (is_root parent) 0 n (omega arith))

  subtrees-IsPostorder : IsPostorder n parent subtrees
  subtrees-IsPostorder = record {
    wide = length-subtrees;
    once = λ x lt.
        tally-roots t (λ y. if y == x then 1 else 0) ∙ total-once x 0 n (omega arith) (omega arith);
    children_first =
        IsChildrenFirst-concat_map parent (visit n parent n) (nodes_where (is_root parent) 0 n)
          (λ v m.
            visit-IsChildrenFirst t n v
              (omega (arith, (nodes_where-to (is_root parent) 0 n v m).1)))
          [];
  }

pub etree_postorder-IsPostorder :
    (n : ℕ) (parent : List ℤ)
    → IsParents n parent
    → (order : List ℕ) × (etree_postorder n parent
        ≡ some (order, max_depth_of parent order (replicate n 0) 0))
      × IsPostorder n parent order
unfolding etree_postorder roots
etree_postorder-IsPostorder n parent t =
    let listed = roots-pending t in
    let enough : 2 * length (pending n parent (roots n parent).stack)
        ≤ 2 * n + length (roots n parent).stack =
      omega (arith, ap length listed, length-subtrees t) in
    let ended : walk (2 * n) (ch_start n parent) (children n parent) (roots n parent)
        ≡ some (subtrees t) =
      walk-pending t (2 * n) (roots n parent).stack [] (roots-below t) enough ∙ ap some listed in
    (
      subtrees t,
      ap (λ o. o >>= (λ order. some (order, max_depth_of parent order (replicate n 0) 0))) ended,
      subtrees-IsPostorder t,
    )
