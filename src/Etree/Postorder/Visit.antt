-- ===== src/Etree/Postorder/Visit.antt =====
-- solver/src/etree.cpp: the postorder by recursion on the children.
use opt_solver.Base.{concat_map, ℕ, zero, suc, ◌<◌, ◌≡◌, refl, ap, ◌∙◌, List, [], ◌∷◌, ◌++◌, arith}
use opt_solver.Base.Ints.{ℤ}
use opt_solver.Etree.Postorder.{nodes_where}
use mathlib.Core.List.{Memᴰ}
use mathlib.Core.List.Memᴰ.{head, tail}
use opt_solver.Etree.Postorder.Kids.{IsParents, kids, kids-to}

pub concat_map-ext :
    (f g : ℕ → List ℕ) (vs : List ℕ)
    → ((v : ℕ) → Memᴰ v vs → f v ≡ g v)
    → concat_map f vs ≡ concat_map g vs
concat_map-ext f g [] h = refl
concat_map-ext f g (v ∷ vs) h =
    let rest = concat_map-ext f g vs (λ x m. h x (tail m)) in
    let first = h v (head refl) in cc (first, rest)

-- The subtree of v, its children's subtrees first; for v below the fuel.
unfoldable pub visit : ℕ → List ℤ → ℕ → ℕ → List ℕ
unfolding nodes_where
visit n parent zero v = []
visit n parent (suc fuel) v = concat_map (visit n parent fuel) (kids n parent v) ++ v ∷ []

module _ {n : ℕ} {parent : List ℤ} (f : IsParents n parent) where
  visit-enough : (a b v : ℕ) → v < a → v < b → visit n parent a v ≡ visit n parent b v
  unfolding visit
  visit-enough zero b v h k = absurd (omega arith)
  visit-enough (suc a) zero v h k = absurd (omega arith)
  visit-enough (suc a) (suc b) v h k =
      ap (λ l. l ++ v ∷ [])
        (concat_map-ext _ _ (kids n parent v) (λ x m.
          let less : x < v = f.rising x v (kids-to f v x m) in
          visit-enough a b x (omega arith) (omega arith)))

  pub visit-kids :
      (v : ℕ)
      → v < n
      → visit n parent n v ≡ concat_map (visit n parent n) (kids n parent v) ++ v ∷ []
  visit-kids v lt = visit-enough n (suc n) v lt (omega arith) ∙ unfold visit in refl
