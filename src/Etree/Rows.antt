-- ===== src/Etree/Rows.antt =====
-- solver/src/etree.cpp: the forest after a row, and after several rows.
use opt_solver.Base.{
  ℕ, zero, suc, ◌+◌, ◌<◌, ◌≡◌, refl, sym, ap, subst, ◌∙◌, ◌⊎◌, inl, inr, List, [], ◌∷◌, length,
  replicate, some, arith, ℕ_discrete, get_or-replicate, length-replicate,
}
use opt_solver.Base.Ints.{not_both, ℤ, pos, negsuc}
use opt_solver.Matrix.Csc.{◌>>=◌}
use opt_solver.Etree.{Forest, enter_row, enter_rows, unlinked, parents_of_rows}
use opt_solver.Etree.Path.{above, Up, IsRising, Grows, Up-Grows}
use opt_solver.Etree.Climb.{IsForest}
use opt_solver.Etree.Link.{IsEntered, enter-IsEntered}
use mathlib.Core.List.{Memᴰ}
use mathlib.Core.List.Memᴰ.{head, tail}

-- The entries of row k are left of the diagonal.
abbrev pub IsLeft : ℕ → List ℕ → Type 0
IsLeft k rs = (r : ℕ) → Memᴰ r rs → r < k

pub record IsRowEntered (n k : ℕ) (f : Forest) (rs : List ℕ) (g : Forest) : Type 0 where
  pub valid : IsForest n k g
  pub grows : Grows f.parent g.parent
  pub reaches : (r : ℕ) → Memᴰ r rs → Up g.parent r k
  pub edges :
      (s t : ℕ)
      → above g.parent s ≡ pos t
      → (above f.parent s ≡ pos t) ⊎ ((t ≡ k) × ((r : ℕ) × Memᴰ r rs × Up g.parent r s))

-- The first entry, then the others.
IsRowEntered-cons :
    {n k : ℕ} {f next g : Forest} {r : ℕ} {rs : List ℕ}
    → IsEntered n k f r next
    → IsRowEntered n k next rs g
    → IsRowEntered n k f (r ∷ rs) g
IsRowEntered-cons {k} {f} {next} {g} {r} {rs} a b = record {
  valid = b.valid;
  grows = λ s t e. b.grows s t (a.grows s t e);
  reaches = reaches;
  edges = λ s t e. elim (b.edges s t e) [
    | inl old ↦ elim (a.edges s t old) [
      | inl first ↦ inl first
      | inr (q, path) ↦ inr (q, (r, head refl, Up-Grows b.grows path))
    ]
    | inr (q, (r', m, path)) ↦ inr (q, (r', tail m, path))
  ];
}
  where
    reaches : (r' : ℕ) → Memᴰ r' (r ∷ rs) → Up g.parent r' k
    reaches r' (head e) = subst (λ z. Up g.parent z k) (sym e) (Up-Grows b.grows a.reaches)
    reaches r' (tail m) = b.reaches r' m

pub enter_row-IsRowEntered :
    {n k : ℕ}
    → k < n
    → (fuel : ℕ) → k < fuel
    → (rs : List ℕ) → IsLeft k rs
    → {f : Forest} → IsForest n k f
    → (g : Forest) × (enter_row fuel k rs f ≡ some g) × IsRowEntered n k f rs g
unfolding enter_row
enter_row-IsRowEntered inside fuel enough [] left {f} v = (
  f,
  refl,
  record { valid = v; grows = λ s t e. e; reaches = λ r m. elim m [ ]; edges = λ s t e. inl e },
)
enter_row-IsRowEntered {k} inside fuel enough (r ∷ rs) left v =
    let (next, e, a) =
      enter-IsEntered v inside fuel r (left r (head refl)) (omega (arith, left r (head refl))) in
    let (g, e', b) =
      enter_row-IsRowEntered inside fuel enough rs (λ s m. left s (tail m)) {f = next} a.valid in
    (g, ap (λ o. o >>= (λ next. enter_row fuel k rs next)) e ∙ e', IsRowEntered-cons a b)

-- The parents that the rows before k determine: an entry of row j has the ancestor j, and an edge to t comes from an
-- entry of row t.
pub record IsBuilt (rows : ℕ → List ℕ) (k : ℕ) (parent : List ℤ) : Type 0 where
  pub rising : IsRising parent
  pub bounded : (r t : ℕ) → above parent r ≡ pos t → t < k
  pub unset : (r m : ℕ) → above parent r ≡ negsuc m → m ≡ 0
  pub reaches : (j r : ℕ) → j < k → Memᴰ r (rows j) → Up parent r j
  pub edges : (s t : ℕ) → above parent s ≡ pos t → (r : ℕ) × Memᴰ r (rows t) × Up parent r s

-- One row more.
IsBuilt-row :
    {n k : ℕ} {f g : Forest} {rows : ℕ → List ℕ}
    → IsRowEntered n k f (rows k) g
    → IsBuilt rows k f.parent
    → IsBuilt rows (suc k) g.parent
IsBuilt-row {k} {f} {g} {rows} a b = record {
  rising = a.valid.rising;
  bounded = λ r t e. omega (arith, a.valid.bounded r t e);
  unset = a.valid.unset;
  reaches = λ j r lt m. elim (ℕ_discrete j k) [
    | yes q ↦ subst (Up g.parent r) (sym q) (a.reaches r (subst (λ z. Memᴰ r (rows z)) q m))
    | no ne ↦ Up-Grows a.grows (b.reaches j r (omega arith) m)
  ];
  edges = λ s t e. elim (a.edges s t e) [
    | inl old ↦ let (r, m, path) = b.edges s t old in (r, m, Up-Grows a.grows path)
    | inr (q, (r, m, path)) ↦ (r, subst (λ z. Memᴰ r (rows z)) (sym q) m, path)
  ];
}

-- What holds for the row k holds for the row after it.
IsForest-suc : {n k : ℕ} {f : Forest} → IsForest n k f → IsForest n (suc k) f
IsForest-suc v = record {
  parents = v.parents;
  ancestors = v.ancestors;
  rising = v.rising;
  bounded = λ r t e. omega (arith, v.bounded r t e);
  jump = λ r t e. let (less, bound, path) = v.jump r t e in (less, omega arith, path);
  unset = v.unset;
  root = v.root;
}

enter_rows-IsBuilt :
    (n : ℕ) (rows : ℕ → List ℕ)
    → ((k : ℕ) → k < n → IsLeft k (rows k))
    → (count k : ℕ) → k + count ≡ n
    → (f : Forest) → IsForest n k f
    → IsBuilt rows k f.parent
    → (g : Forest) × (enter_rows n rows k count f ≡ some g)
      × (length g.parent ≡ n)
      × IsBuilt rows n g.parent
unfolding enter_rows
enter_rows-IsBuilt n rows left zero k q f v b =
    (f, refl, v.parents, subst (λ z. IsBuilt rows z f.parent) (omega arith) b)
enter_rows-IsBuilt n rows left (suc count) k q f v b =
    let inside : k < n = omega arith in
    let (next, e, a) = enter_row-IsRowEntered inside n inside (rows k) (left k inside) v in
    let (g, e', wide, c) =
      enter_rows-IsBuilt n rows left count (suc k) (omega arith) next (IsForest-suc a.valid)
        (IsBuilt-row a b) in
    (g, ap (λ o. o >>= (λ next. enter_rows n rows (suc k) count next)) e ∙ e', wide, c)

negsuc_inj : {a b : ℕ} → negsuc a ≡ negsuc b → a ≡ b
negsuc_inj e = ground arith

above-unlinked : (n r t : ℕ) → above (replicate n (negsuc 0)) r ≡ pos t → ⊥
above-unlinked n r t e = not_both (get_or-replicate n r (negsuc 0)) e

pub parents_of_rows-IsBuilt :
    (n : ℕ) (rows : ℕ → List ℕ)
    → ((k : ℕ) → k < n → IsLeft k (rows k))
    → (parent : List ℤ) × (parents_of_rows n rows ≡ some parent)
      × (length parent ≡ n)
      × IsBuilt rows n parent
unfolding parents_of_rows
parents_of_rows-IsBuilt n rows left =
    let unlinked_unset : (r m : ℕ) → above (replicate n (negsuc 0)) r ≡ negsuc m → m ≡ 0 =
      λ r m e. sym (negsuc_inj (sym (get_or-replicate n r (negsuc 0)) ∙ e)) in
    let start : IsForest n 0 (unlinked n) = record {
      parents = length-replicate n (negsuc 0);
      ancestors = length-replicate n (negsuc 0);
      rising = λ r t e. absurd (above-unlinked n r t e);
      bounded = λ r t e. absurd (above-unlinked n r t e);
      jump = λ r t e. absurd (above-unlinked n r t e);
      unset = unlinked_unset;
      root = λ r m e. (0, get_or-replicate n r (negsuc 0));
    } in
    let empty : IsBuilt rows 0 (unlinked n).parent = record {
      rising = λ r t e. absurd (above-unlinked n r t e);
      bounded = λ r t e. absurd (above-unlinked n r t e);
      unset = unlinked_unset;
      reaches = λ j r lt m. absurd (omega arith);
      edges = λ s t e. absurd (above-unlinked n s t e);
    } in
    let (g, e, wide, b) =
      enter_rows-IsBuilt n rows left n 0 (omega arith) (unlinked n) start empty in
    (g.parent, ap (λ o. o >>= (λ f. some f.parent)) e, wide, b)
