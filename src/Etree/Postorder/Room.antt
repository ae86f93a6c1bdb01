-- ===== src/Etree/Postorder/Room.antt =====
-- solver/src/etree.cpp: the stacks and the list of etree_postorder stay within their n places.
use opt_solver.Base.{
  ℕ, zero, suc, ◌≤◌, ◌≡◌, ap, ◌∙◌, List, [], ◌∷◌, ◌++◌, length, arith, length-append,
}
use opt_solver.Base.Ints.{ℤ}
use opt_solver.Etree.Postorder.{ch_start, children, Frame, Walk, walk_step, roots}
use opt_solver.Etree.Postorder.Kids.{IsParents}
use opt_solver.Etree.Postorder.Loop.{pending, IsBelow, length-pending, IsRound-step}
use opt_solver.Etree.Postorder.Laws.{length-subtrees, roots-below, roots-pending}

-- The state of the loop after some rounds.
unfoldable pub rounds : ℕ → List ℤ → ℕ → Walk → Walk
unfolding walk_step
rounds n parent zero w = w
rounds n parent (suc k) w = rounds n parent k (walk_step (ch_start n parent) (children n parent) w)

abbrev pub IsInside : ℕ → Walk → Type 0
IsInside n w = (length w.stack ≤ n) × (length w.postorder ≤ n)

module _ {n : ℕ} {parent : List ℤ} (t : IsParents n parent) where
  rounds-IsInside :
      (k : ℕ) (stack : List Frame) (out : List ℕ)
      → IsBelow n parent stack
      → length (out ++ pending n parent stack) ≡ n
      → IsInside n (rounds n parent k (record { stack = stack; postorder = out }))
  unfolding rounds
  rounds-IsInside zero stack out below whole =
      let fits = length-pending n parent stack in
      let sum = length-append out (pending n parent stack) in (omega arith, omega arith)
  rounds-IsInside (suc k) [] out below whole = rounds-IsInside k [] out below whole
  rounds-IsInside (suc k) (f ∷ rest) out below whole =
      let r = IsRound-step t f rest out below.0 below.1 in
      let next =
        walk_step (ch_start n parent) (children n parent)
          (record { stack = f ∷ rest; postorder = out }) in
      rounds-IsInside k next.stack next.postorder r.below (ap length r.same ∙ whole)

-- For the parents of a forest on n nodes, after any number of rounds the stacks and the list of etree_postorder
-- take at most n places each.
pub roots-IsInside :
    (n : ℕ) (parent : List ℤ) (k : ℕ)
    → IsParents n parent
    → IsInside n (rounds n parent k (roots n parent))
unfolding roots
roots-IsInside n parent k t =
    rounds-IsInside t k (roots n parent).stack [] (roots-below t)
      (ap length (roots-pending t) ∙ length-subtrees t)
