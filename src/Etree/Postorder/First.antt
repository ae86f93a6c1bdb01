-- ===== src/Etree/Postorder/First.antt =====
-- solver/src/etree.cpp: in the postorder of a tree the children of a node are before it.
use opt_solver.Base.{concat_map, ℕ, zero, suc, ◌<◌, ◌≡◌, refl, subst, List, [], ◌∷◌, ◌++◌, arith}
use opt_solver.Base.Ints.{ℤ, pos}
use opt_solver.Etree.Path.{above}
use mathlib.Core.List.{Memᴰ}
use mathlib.Core.List.Memᴰ
use mathlib.Core.List.Memᴰ.{head, tail}
use opt_solver.Etree.Postorder.Kids.{IsParents, kids, kids-to, kids-from}
use opt_solver.Etree.Postorder.Visit.{visit}

-- Before a node all its children are listed, or in `seen` already.
abbrev pub IsChildrenFirst : List ℤ → List ℕ → List ℕ → Type 0
IsChildrenFirst parent seen [] = Unit
IsChildrenFirst parent seen (p ∷ l) =
    ((x : ℕ) → above parent x ≡ pos p → Memᴰ x seen) × IsChildrenFirst parent (p ∷ seen) l

-- What is seen after a list.
abbrev pub gather : List ℕ → List ℕ → List ℕ
gather [] seen = seen
gather (p ∷ l) seen = gather l (p ∷ seen)

gather-seen : (l seen : List ℕ) (x : ℕ) → Memᴰ x seen → Memᴰ x (gather l seen)
gather-seen [] seen x m = m
gather-seen (p ∷ l) seen x m = gather-seen l (p ∷ seen) x (tail m)

pub gather-listed : (l seen : List ℕ) (x : ℕ) → Memᴰ x l → Memᴰ x (gather l seen)
gather-listed [] seen x m = elim m [ ]
gather-listed (p ∷ l) seen x (head e) = gather-seen l (p ∷ seen) x (head e)
gather-listed (p ∷ l) seen x (tail m) = gather-listed l (p ∷ seen) x m

module _ (parent : List ℤ) where
  IsChildrenFirst-append :
      (l m seen : List ℕ)
      → IsChildrenFirst parent seen l
      → IsChildrenFirst parent (gather l seen) m
      → IsChildrenFirst parent seen (l ++ m)
  IsChildrenFirst-append [] m seen h k = k
  IsChildrenFirst-append (p ∷ l) m seen (now, h) k =
      (now, IsChildrenFirst-append l m (p ∷ seen) h k)

  pub IsChildrenFirst-concat_map :
      (f : ℕ → List ℕ) (vs : List ℕ)
      → ((v : ℕ) → Memᴰ v vs → (seen : List ℕ) → IsChildrenFirst parent seen (f v))
      → (seen : List ℕ) → IsChildrenFirst parent seen (concat_map f vs)
  IsChildrenFirst-concat_map f [] h seen = tt
  IsChildrenFirst-concat_map f (v ∷ vs) h seen =
      IsChildrenFirst-append (f v) (concat_map f vs) seen (h v (head refl) seen)
        (IsChildrenFirst-concat_map f vs (λ x m. h x (tail m)) (gather (f v) seen))

concat_map-listed :
    (f : ℕ → List ℕ) (vs : List ℕ) (v x : ℕ) → Memᴰ v vs → Memᴰ x (f v) → Memᴰ x (concat_map f vs)
concat_map-listed f [] v x m' m = elim m' [ ]
concat_map-listed f (u ∷ vs) v x (head e) m =
    Memᴰ.append_left (concat_map f vs) (subst (λ z. Memᴰ x (f z)) e m)
concat_map-listed f (u ∷ vs) v x (tail m') m =
    Memᴰ.append_right (f u) (concat_map-listed f vs v x m' m)

module _ {n : ℕ} {parent : List ℤ} (t : IsParents n parent) where
  visit-self : (a v : ℕ) → v < a → Memᴰ v (visit n parent a v)
  unfolding visit
  visit-self zero v lt = absurd (omega arith)
  visit-self (suc a) v lt =
      Memᴰ.append_right (concat_map (visit n parent a) (kids n parent v)) (head refl)

  pub visit-IsChildrenFirst :
      (a v : ℕ) → v < a → (seen : List ℕ) → IsChildrenFirst parent seen (visit n parent a v)
  unfolding visit
  visit-IsChildrenFirst zero v lt seen = absurd (omega arith)
  visit-IsChildrenFirst (suc a) v lt seen =
      let before : List ℕ = concat_map (visit n parent a) (kids n parent v) in
      let smaller : (x : ℕ) → above parent x ≡ pos v → x < a =
        λ x e. omega (arith, t.rising x v e) in
      let below : (x : ℕ)
          → Memᴰ x (kids n parent v)
          → (seen : List ℕ) → IsChildrenFirst parent seen (visit n parent a x) =
        λ x m. visit-IsChildrenFirst a x (smaller x (kids-to t v x m)) in
      IsChildrenFirst-append parent before (v ∷ []) seen
        (IsChildrenFirst-concat_map parent (visit n parent a) (kids n parent v) below seen)
        (
          λ x e. gather-listed before seen x (
              concat_map-listed (visit n parent a) (kids n parent v) x x (kids-from t v x e)
                (visit-self a x (smaller x e))),
          tt,
        )
