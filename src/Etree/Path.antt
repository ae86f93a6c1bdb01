-- ===== src/Etree/Path.antt =====
-- solver/src/etree.cpp: paths in a forest that is given by its parents.
use opt_solver.Base.{◌⊎◌, inl, inr, refl, ℕ, ◌≤◌, ◌<◌, ◌≡◌, sym, subst, ◌∙◌, List, get_or, arith}
use opt_solver.Base.Ints.{pos_inj, ℤ, pos, negsuc}

abbrev pub above : List ℤ → ℕ → ℤ
above parent r = get_or parent r (negsuc 0)

-- s is r or an ancestor of r.
pub data Up (parent : List ℤ) : ℕ → ℕ → Type 0 where
  here : {r : ℕ} → Up parent r r
  up : {r t s : ℕ} → above parent r ≡ pos t → Up parent t s → Up parent r s

-- Each parent has a greater number.
abbrev pub IsRising : List ℤ → Type 0
IsRising parent = (r t : ℕ) → above parent r ≡ pos t → r < t

-- The edges of the first are edges of the second.
abbrev pub Grows : List ℤ → List ℤ → Type 0
Grows p q = (r t : ℕ) → above p r ≡ pos t → above q r ≡ pos t

pub Up-trans : {p : List ℤ} {r s t : ℕ} → Up p r s → Up p s t → Up p r t
Up-trans here q = q
Up-trans (up e p) q = up e (Up-trans p q)

pub Up-Grows : {p q : List ℤ} {r s : ℕ} → Grows p q → Up p r s → Up q r s
Up-Grows g here = here
Up-Grows g (up {r} {t} e p) = up (g r t e) (Up-Grows g p)

pub Up-le : {p : List ℤ} {r s : ℕ} → IsRising p → Up p r s → r ≤ s
Up-le v here = omega arith
Up-le v (up {r} {t} e p) = omega (arith, v r t e, Up-le v p)

pub ℤ-cases : (z : ℤ) → ((t : ℕ) × (z ≡ pos t)) ⊎ ((m : ℕ) × (z ≡ negsuc m))
ℤ-cases (pos t) = inl (t, refl)
ℤ-cases (negsuc m) = inr (m, refl)

-- Of two ancestors of one node the greater is an ancestor of the lesser.
pub Up-linear : {p : List ℤ} {r s t : ℕ} → IsRising p → Up p r s → Up p r t → s ≤ t → Up p s t
Up-linear v here q le = q
Up-linear v (up {r} {t = a} e p) here le = absurd (omega (arith, v r a e, Up-le v p))
Up-linear {p} {t = top} v (up {t = a} e u) (up {t = b} f w) le =
    Up-linear v u (subst (λ z. Up p z top) (pos_inj (sym f ∙ e)) w) le

-- The path to an ancestor with a greater number goes over the parent.
pub Up-first : {p : List ℤ} {s t : ℕ} → s < t → Up p s t → (u : ℕ) × (above p s ≡ pos u) × Up p u t
Up-first lt here = absurd (omega arith)
Up-first lt (up {t = u} e path) = (u, e, path)
