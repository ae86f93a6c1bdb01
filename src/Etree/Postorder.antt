-- ===== src/Etree/Postorder.antt =====
-- solver/src/etree.cpp: etree_postorder and finish_elimination_tree. The two stacks are one list of frames, the
-- top first; the loop runs on fuel, 2 n rounds, and is `none` when they do not suffice. The array of the
-- children is as long as there are nodes with a parent.
pub mod Kids
pub mod Visit
pub mod Total
pub mod First
pub mod Loop
pub mod Laws
pub mod Room
pub mod Deep
pub mod Depth
pub mod Build
mod Tests
use opt_solver.Base.{
  ℕ, zero, suc, ◌+◌, ◌-◌, ◌*◌, ◌≤◌, ◌<◌, ◌≡◌, ◌≢◌, refl, sym, ap, subst, ◌∙◌, ◌⊎◌, inl, inr, Bool,
  true, false, not, List, [], ◌∷◌, ◌++◌, map, ltb, ◌==◌, if◌then◌else◌, length, get_or, set, slice,
  is_empty, take, drop, max, replicate, Option, some, none, arith, if_both, if_true, if_false,
  Holds, dec_lt, ℕ_discrete, Bool-cases, length-append, length-slice, get_or-slice, get_or_ext,
}
use opt_solver.Base.Ints.{ℤ, pos, negsuc, pos_part}
use opt_solver.Matrix.Csc.{◌>>=◌}
use opt_solver.Bucket.{bucket, bucket_ptr, sort_by_key}
use opt_solver.Etree.{row_slice}
use opt_solver.Etree.Path.{above}
use opt_solver.Etree.{parents_of_lower, parents_from_rows}

-- The nodes j, j + 1, ... that pass a test.
unfoldable pub nodes_where : (ℕ → Bool) → ℕ → ℕ → List ℕ
nodes_where test j zero = []
nodes_where test j (suc count) =
    let rest = nodes_where test (suc j) count in if test j then j ∷ rest else rest

-- parent[j] >= 0
abbrev pub has_parent : List ℤ → ℕ → Bool
has_parent parent j = elim (above parent j) [ pos t ↦ true | negsuc m ↦ false ]

-- parent[j] == -1
abbrev pub is_root : List ℤ → ℕ → Bool
is_root parent j = elim (above parent j) [ pos t ↦ false | negsuc m ↦ m == 0 ]

abbrev pub parent_of : List ℤ → ℕ → ℕ
parent_of parent j = pos_part (above parent j)

unfoldable pub ch_start : ℕ → List ℤ → List ℕ
unfolding nodes_where bucket_ptr
ch_start n parent = bucket_ptr (parent_of parent) n (nodes_where (has_parent parent) 0 n)

unfoldable pub children : ℕ → List ℤ → List ℕ
unfolding nodes_where sort_by_key
children n parent = sort_by_key (parent_of parent) 0 n (nodes_where (has_parent parent) 0 n)

-- stk_node[top - 1] and stk_ci[top - 1]
pub record Frame : Type 0 where
  pub node : ℕ
  pub cursor : ℕ

pub record Walk : Type 0 where
  pub stack : List Frame
  pub postorder : List ℕ

abbrev pub enter_node : ℕ → Frame
enter_node v = record { node = v; cursor = 0 }

-- One round of the loop: the next child is entered, or the node is done.
unfoldable pub walk_step : List ℕ → List ℕ → Walk → Walk
walk_step start kids w = elim w.stack [
  | [] ↦ w
  | f ∷ rest ↦
      let at = get_or start f.node 0 + f.cursor in
      let moved : Frame = record { node = f.node; cursor = f.cursor + 1 } in
      if ltb at (get_or start (suc f.node) 0)
      then record { stack = enter_node (get_or kids at 0) ∷ moved ∷ rest; postorder = w.postorder }
      else record { stack = rest; postorder = w.postorder ++ f.node ∷ [] }
]

unfoldable pub walk : ℕ → List ℕ → List ℕ → Walk → Option (List ℕ)
unfolding walk_step
walk zero start kids w = if is_empty w.stack then some w.postorder else none
walk (suc fuel) start kids w =
    let rest = walk fuel start kids (walk_step start kids w) in
    if is_empty w.stack then some w.postorder else rest

unfoldable pub roots : ℕ → List ℤ → Walk
unfolding nodes_where
roots n parent = record {
  stack = map enter_node (nodes_where (is_root parent) 0 n);
  postorder = [];
}

-- depth[pj] = max(depth[pj], depth[j] + 1)
unfoldable pub raise : List ℤ → ℕ → List ℕ → List ℕ
raise parent j depth = elim (above parent j) [
  | pos p ↦ set depth p (max (get_or depth p 0) (get_or depth j 0 + 1))
  | negsuc m ↦ depth
]

unfoldable pub max_depth_of : List ℤ → List ℕ → List ℕ → ℕ → ℕ
unfolding raise
max_depth_of parent [] depth deepest = deepest
max_depth_of parent (j ∷ js) depth deepest =
    let raised = raise parent j depth in
    max_depth_of parent js raised (max deepest (get_or raised j 0))

-- The postorder and the depth.
unfoldable pub etree_postorder : ℕ → List ℤ → Option (List ℕ × ℕ)
unfolding walk roots ch_start children max_depth_of
etree_postorder n parent = do
  postorder ← walk (2 * n) (ch_start n parent) (children n parent) (roots n parent)
  some (postorder, max_depth_of parent postorder (replicate n 0) 0)

pub record EliminationTree : Type 0 where
  pub parent : List ℤ
  pub postorder : List ℕ
  pub max_depth : ℕ

unfoldable pub finish_elimination_tree : ℕ → List ℤ → Option EliminationTree
unfolding etree_postorder
finish_elimination_tree n parent = do
  (postorder, depth) ← etree_postorder n parent
  some (record { parent = parent; postorder = postorder; max_depth = depth })

abbrev pub empty_tree : EliminationTree
empty_tree = record { parent = []; postorder = []; max_depth = 0 }

unfoldable pub build_elimination_tree : ℕ → List ℤ → List ℤ → Option EliminationTree
unfolding parents_of_lower finish_elimination_tree
build_elimination_tree n col_ptr row_idx =
    let built = (do
      parent ← parents_of_lower n col_ptr row_idx
      finish_elimination_tree n parent) in
    if n == 0 then some empty_tree else built

unfoldable pub build_elimination_tree_from_rows : ℕ → List ℤ → List ℤ → Option EliminationTree
unfolding parents_from_rows finish_elimination_tree
build_elimination_tree_from_rows n row_ptr row_cols =
    let built = (do
      parent ← parents_from_rows n row_ptr row_cols
      finish_elimination_tree n parent) in
    if n == 0 then some empty_tree else built
