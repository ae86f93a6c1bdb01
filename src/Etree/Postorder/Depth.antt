-- ===== src/Etree/Postorder/Depth.antt =====
-- solver/src/etree.cpp: the depth that etree_postorder returns is the length of a longest path.
use opt_solver.Base.{
  ℕ, zero, suc, ◌≤◌, ◌<◌, ◌≡◌, sym, subst, List, [], ◌∷◌, replicate, some, arith, ℕ_discrete,
  get_or-replicate, length-replicate,
}
use opt_solver.Base.Ints.{ℤ}
use opt_solver.Etree.Postorder.{max_depth_of, etree_postorder}
use mathlib.Core.List.{Memᴰ}
use mathlib.Core.List.Memᴰ.{head, tail}
use opt_solver.Etree.Postorder.Kids.{IsParents}
use opt_solver.Etree.Postorder.First.{gather-listed}
use opt_solver.Etree.Postorder.Laws.{occurrences, IsPostorder}
use opt_solver.Etree.Postorder.Deep.{Climbs, stay, climb_on, at, IsDeep, max_depth_of-IsDeep}
use opt_solver.Etree.Postorder.Laws.{etree_postorder-IsPostorder}

-- A longest path has m edges.
pub record IsHeight (parent : List ℤ) (m : ℕ) : Type 0 where
  pub longest : (x : ℕ) × ((p : ℕ) × Climbs parent x p m)
  pub bound : (x p d : ℕ) → Climbs parent x p d → d ≤ m

occurrences-Memᴰ : (x : ℕ) (l : List ℕ) → occurrences x l ≡ 1 → Memᴰ x l
occurrences-Memᴰ x [] e = absurd (omega arith)
occurrences-Memᴰ x (y ∷ l) e = elim (ℕ_discrete x y) [
  | yes q ↦ head q
  | no ne ↦ tail (occurrences-Memᴰ x l (ground arith))
]

module _ {n : ℕ} {parent : List ℤ} (t : IsParents n parent) {seen depth : List ℕ} {m : ℕ}
    (v : IsDeep parent seen depth m) (all : (x : ℕ) → x < n → Memᴰ x seen) where
  Climbs-at : (x p d : ℕ) → Climbs parent x p d → d ≤ at depth p
  Climbs-at x p zero path = omega arith
  Climbs-at x p (suc d) (climb_on {t = u} path e) = omega (
    arith,
    Climbs-at x u d path,
    v.above_child u p (all u (omega (arith, t.rising u p e, t.bounded u p e))) e,
  )

  Climbs-le : (x p d : ℕ) → Climbs parent x p d → d ≤ m
  Climbs-le x p zero path = omega arith
  Climbs-le x p (suc d) (climb_on {t = u} path e) =
      omega (arith, Climbs-at x p (suc d) (climb_on path e), v.covers p (all p (t.bounded u p e)))

  IsDeep-IsHeight : IsHeight parent m
  IsDeep-IsHeight = record { longest = v.taken; bound = Climbs-le }

max_depth_of-IsHeight :
    (n : ℕ) (parent : List ℤ) (order : List ℕ)
    → IsParents n parent
    → IsPostorder n parent order
    → IsHeight parent (max_depth_of parent order (replicate n 0) 0)
max_depth_of-IsHeight n parent order t o =
    let start : IsDeep parent [] (replicate n 0) 0 = record {
      closed = λ p x m e. elim m [ ];
      above_child = λ x p m e. elim m [ ];
      reached = λ p. (p, subst (Climbs parent p p) (sym (get_or-replicate n p 0)) stay);
      covers = λ x m. elim m [ ];
      taken = (0, (0, stay));
    } in
    let (last, v) =
      max_depth_of-IsDeep t order [] (replicate n 0) 0 o.children_first (length-replicate n 0)
        start in
    IsDeep-IsHeight t v (λ x lt. gather-listed order [] x (occurrences-Memᴰ x order (o.once x lt)))

-- For the parents of a forest on n nodes, etree_postorder ends within 2 n rounds of its loop; its list has each node
-- once and the children of a node before it, and its depth is the number of edges of a longest path to an ancestor.
pub etree_postorder_lem :
    (n : ℕ) (parent : List ℤ)
    → IsParents n parent
    → (order : List ℕ) × ((depth : ℕ) × ((etree_postorder n parent ≡ some (order, depth))
          × IsPostorder n parent order
          × IsHeight parent depth))
etree_postorder_lem n parent t =
    let (order, e, o) = etree_postorder-IsPostorder n parent t in
    (order, (_, (e, o, max_depth_of-IsHeight n parent order t o)))
