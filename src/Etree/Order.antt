-- ===== src/Etree/Order.antt =====
-- solver/src/etree.cpp: the parents do not depend on the order of the entries of a row, nor on repeated ones.
use opt_solver.Base.{
  ℕ, zero, suc, ◌<◌, ◌≡◌, sym, ap, subst, ◌∙◌, inl, inr, List, some, arith, dec_lt, ℕ_discrete,
  get_or_ext,
}
use opt_solver.Base.Ints.{pos_inj, ℤ, pos, negsuc}
use opt_solver.Etree.{parents_of_rows}
use opt_solver.Etree.Path.{ℤ-cases, above, Up, here, up, IsRising, Up-le, Up-linear, Up-first}
use opt_solver.Etree.Rows.{IsLeft, IsBuilt, parents_of_rows-IsBuilt}
use mathlib.Core.List.{Memᴰ}

-- The edges to the nodes before t of the first are edges of the second.
abbrev IsWithin : ℕ → List ℤ → List ℤ → Type 0
IsWithin t p q = (s u : ℕ) → u < t → above p s ≡ pos u → above q s ≡ pos u

-- A path that ends before t uses such edges only.
Up-IsWithin :
    {t : ℕ} {p q : List ℤ} {r s : ℕ} → IsRising p → IsWithin t p q → s < t → Up p r s → Up q r s
Up-IsWithin v w lt here = here
Up-IsWithin v w lt (up {r} {t = u} e path) =
    up (w r u (omega (arith, Up-le v path)) e) (Up-IsWithin v w lt path)

-- Every entry of a row of the first, of the rows before n, is one of the same row of the second.
abbrev pub IsSubset : ℕ → (ℕ → List ℕ) → (ℕ → List ℕ) → Type 0
IsSubset n rows other = (k r : ℕ) → k < n → Memᴰ r (rows k) → Memᴰ r (other k)

module _ {n : ℕ} {rows other : ℕ → List ℕ} {p q : List ℤ} (b : IsBuilt rows n p)
    (c : IsBuilt other n q) (to : IsSubset n rows other) where
  -- An edge of the first to t, when the edges to the nodes before t agree.
  edge_agrees :
      (t : ℕ) → IsWithin t p q → IsWithin t q p → (s : ℕ) → above p s ≡ pos t → above q s ≡ pos t
  edge_agrees t w w' s e =
      let less : s < t = b.rising s t e in
      let inside : t < n = b.bounded s t e in
      let (r, m, path) = b.edges s t e in
      let path' : Up q r s = Up-IsWithin b.rising w less path in
      let (u, e', rest) =
        Up-first less
          (Up-linear c.rising path' (c.reaches t r inside (to t r inside m)) (omega arith)) in
      elim (dec_lt u t) [
        | yes lt ↦ absurd (omega (arith, pos_inj (sym (w' s u lt e') ∙ e)))
        | no ge ↦ e' ∙ ap pos (omega (arith, Up-le c.rising rest))
      ]

module _ {n : ℕ} {rows other : ℕ → List ℕ} {p q : List ℤ} (b : IsBuilt rows n p)
    (c : IsBuilt other n q) (to : IsSubset n rows other) (from : IsSubset n other rows) where
  edges_agree : (t : ℕ) → IsWithin t p q × IsWithin t q p
  edges_agree zero = (λ s u lt e. absurd (omega arith), λ s u lt e. absurd (omega arith))
  edges_agree (suc t) =
      let (w, w') = edges_agree t in
      (
        λ s u lt e. elim (ℕ_discrete u t) [
          | yes g ↦
              subst (λ z. above q s ≡ pos z) (sym g) (edge_agrees b c to t w w' s (e ∙ ap pos g))
          | no ne ↦ w s u (omega arith) e
        ],
        λ s u lt e. elim (ℕ_discrete u t) [
          | yes g ↦
              subst (λ z. above p s ≡ pos z) (sym g) (edge_agrees c b from t w' w s (e ∙ ap pos g))
          | no ne ↦ w' s u (omega arith) e
        ],
      )

  IsBuilt-above : (s : ℕ) → above p s ≡ above q s
  IsBuilt-above s = elim (ℤ-cases (above p s)) [
    | inl (t, e) ↦ e ∙ sym ((edges_agree (suc t)).0 s t (omega arith) e)
    | inr (m, e) ↦ elim (ℤ-cases (above q s)) [
      | inl (u, g) ↦ (edges_agree (suc u)).1 s u (omega arith) g ∙ sym g
      | inr (j, g) ↦ e ∙ ap negsuc (b.unset s m e ∙ sym (c.unset s j g)) ∙ sym g
    ]
  ]

-- When row k lists columns left of k only, for every k < n, in both, and the rows before n have the same entries, in
-- whatever order and however often, the two trees are equal.
pub parents_of_rows-order :
    (n : ℕ) (rows other : ℕ → List ℕ)
    → ((k : ℕ) → k < n → IsLeft k (rows k))
    → ((k : ℕ) → k < n → IsLeft k (other k))
    → IsSubset n rows other
    → IsSubset n other rows
    → parents_of_rows n rows ≡ parents_of_rows n other
parents_of_rows-order n rows other left left' to from =
    let (p, e, wide, b) = parents_of_rows-IsBuilt n rows left in
    let (q, e', wide', c) = parents_of_rows-IsBuilt n other left' in
    let same : p ≡ q =
      get_or_ext p q (negsuc 0) (wide ∙ sym wide') (λ i lt. IsBuilt-above b c to from i) in
    e ∙ ap some same ∙ sym e'
