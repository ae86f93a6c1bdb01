-- ===== src/Ordering/Pivot/Permutation.antt =====
-- Where the diagonal entries eliminate every pivot index once, the realized order is a permutation of
-- the factor's order.
use mathlib.Core.List.{Permᴰ, map-append}
use mathlib.Core.List.Perm
use mathlib.Core.Logic.{∥∥₁_elim}
use mathlib.Core.HLevel.{×_prop}
use opt_solver.Base.{
  concat_map, ℕ, zero, suc, ◌+◌, ◌≤◌, ◌<◌, ◌≡◌, refl, sym, ap, subst, ◌∙◌, inl, inr, Bool, true,
  false, not, List, [], ◌∷◌, ◌++◌, Perm, length, length-append, length-map, length-perm, get_or,
  get_or_ext, arith, Bool-cases,
}
use opt_solver.Base.Ints.{ℤ, pos, eqz}
use opt_solver.Ordering.Pivot.{
  DiagSolveEntry, AnalysisKeep, FactorKeep, RealizedOrder, is_pivot, orig, realized_pivot_order,
}
use opt_solver.Ordering.Pivot.Laws.{
  pivots_of, zero_of, entry_ok, all_ok, originals, order_of, pivot_count, realized_pivot_order_lem,
}

-- k, k + 1, ...
abbrev pub indices : ℕ → ℕ → List ℤ
indices zero k = []
indices (suc rounds) k = pos k ∷ indices rounds (suc k)

-- The pivots of all entries, the zero pivots last.
abbrev pub all_pivots : {V : Type 0} → List (DiagSolveEntry V) → List ℤ
all_pivots es = concat_map pivots_of es ++ concat_map zero_of es

module _ (n : ℕ) (perm : List ℤ) (size : length perm ≡ n) where
  abbrev AllPivots : List ℤ → Type 0
  AllPivots [] = Unit
  AllPivots (r ∷ rs) = (is_pivot n perm r ≡ true) × AllPivots rs

  Bool-prop : (b : Bool) → IsProp (b ≡ true)
  Bool-prop b = hlevel

  AllPivots-prop : (rs : List ℤ) → IsProp (AllPivots rs)
  AllPivots-prop [] = λ x y. refl
  AllPivots-prop (r ∷ rs) = ×_prop (Bool-prop _) (AllPivots-prop rs)

  AllPivots-permᴰ : {xs ys : List ℤ} → Permᴰ xs ys → AllPivots ys → AllPivots xs
  AllPivots-permᴰ Permᴰ.nil h = h
  AllPivots-permᴰ (Permᴰ.cons e p) h = (ap (is_pivot n perm) e ∙ h.0, AllPivots-permᴰ p h.1)
  AllPivots-permᴰ (Permᴰ.swap e f) h =
      (ap (is_pivot n perm) e ∙ h.1.0, (ap (is_pivot n perm) f ∙ h.0, h.1.1))
  AllPivots-permᴰ (Permᴰ.trans p q) h = AllPivots-permᴰ p (AllPivots-permᴰ q h)

  AllPivots-perm : {xs ys : List ℤ} → Perm xs ys → AllPivots ys → AllPivots xs
  AllPivots-perm p h = ∥∥₁_elim p (AllPivots-prop _) (λ d. AllPivots-permᴰ d h)

  indices-AllPivots : (rounds k : ℕ) → k + rounds ≤ n → AllPivots (indices rounds k)
  indices-AllPivots zero k h = tt
  indices-AllPivots (suc rounds) k h =
      (unfold is_pivot in (ground (arith, size, h)), indices-AllPivots rounds (suc k) (omega arith))

  AllPivots-append : (xs ys : List ℤ) → AllPivots (xs ++ ys) → AllPivots xs × AllPivots ys
  AllPivots-append [] ys h = (tt, h)
  AllPivots-append (x ∷ xs) ys h = let (a, b) = AllPivots-append xs ys h.1 in ((h.0, a), b)

  AllPivots-all_ok :
      {V : Type 0} (es : List (DiagSolveEntry V))
      → AllPivots (concat_map pivots_of es)
      → AllPivots (concat_map zero_of es)
      → all_ok n perm es ≡ true
  AllPivots-all_ok [] h k = refl
  AllPivots-all_ok (e ∷ es) h k =
      let (h0, h1) = AllPivots-append (pivots_of e) (concat_map pivots_of es) h in
      let (k0, k1) = AllPivots-append (zero_of e) (concat_map zero_of es) k in
      ground (arith, one e h0 k0, AllPivots-all_ok es h1 k1)
    where
      one :
          {V : Type 0} (e : DiagSolveEntry V)
          → AllPivots (pivots_of e)
          → AllPivots (zero_of e)
          → entry_ok n perm e ≡ true
      one e h k = elim (Bool-cases (not (eqz e.was_zero (pos 0)))) [
        | inl z ↦ rw z ((rw z at k).0)
        | inr nz ↦ elim (Bool-cases (eqz e.tag (pos 2))) [
          | inl two ↦ let h' = rw (nz, two) at h in rw (nz, two) (ground (arith, h'.0, h'.1.0))
          | inr other ↦ rw (nz, other) ((rw (nz, other) at h).0)
        ]
      ]

  orig_lem : (i : ℕ) → i < n → orig n perm (pos i) ≡ get_or perm i (pos 0)
  unfolding orig is_pivot
  orig_lem i h = ground (arith, size)

  length-indices : (rounds k : ℕ) → length (indices rounds k) ≡ rounds
  length-indices zero k = refl
  length-indices (suc rounds) k = ap suc (length-indices rounds (suc k))

  get_or-originals :
      (rounds k t : ℕ)
      → k + rounds ≤ n
      → t < rounds
      → get_or (originals n perm (indices rounds k)) t (pos 0) ≡ get_or perm (k + t) (pos 0)
  get_or-originals zero k t h q = absurd (omega arith)
  get_or-originals (suc rounds) k zero h q =
      orig_lem k (omega arith) ∙ ap (λ i. get_or perm i (pos 0)) {x = k} (omega arith)
  get_or-originals (suc rounds) k (suc t) h q =
      get_or-originals rounds (suc k) t (omega arith) (omega arith)
      ∙ ap (λ i. get_or perm i (pos 0)) {x = suc k + t} (omega arith)

  originals-indices : originals n perm (indices n 0) ≡ perm
  originals-indices =
      get_or_ext (originals n perm (indices n 0)) perm (pos 0)
        (omega (arith, length-map (indices n 0) (orig n perm), length-indices n 0))
        (λ t h.
          get_or-originals n 0 t (omega arith)
            (omega (arith, length-map (indices n 0) (orig n perm), length-indices n 0))
          ∙ ap (λ i. get_or perm i (pos 0)) {x = 0 + t} (omega arith))

  order-perm :
      {V : Type 0} (es : List (DiagSolveEntry V))
      → Perm (all_pivots es) (indices n 0)
      → (all_ok n perm es ≡ true)
        × (pivot_count n perm es ≡ n)
        × Perm (order_of n perm es).perm perm
  order-perm es p =
      let (some_ok, zero_ok) =
        AllPivots-append (concat_map pivots_of es) (concat_map zero_of es)
          (AllPivots-perm p (indices-AllPivots n 0 (omega arith))) in
      (
        AllPivots-all_ok es some_ok zero_ok,
        omega (
          arith,
          length-perm p,
          length-indices n 0,
          length-append (concat_map pivots_of es) (concat_map zero_of es),
        ),
        subst (λ l. Perm l perm)
            (map-append (orig n perm) (concat_map pivots_of es) (concat_map zero_of es))
            (subst (Perm (originals n perm (all_pivots es))) originals-indices
              (Perm.map (orig n perm) p)),
      )

-- Where an indefinite factor has an order of length n and its diagonal entries eliminate each index
-- below n once, the realized order is a permutation of the factor's order.
pub realized_pivot_order-perm :
    {V : Type 0} (ak : AnalysisKeep) (fk : FactorKeep V)
    → fk.is_posdef ≡ false
    → length fk.perm ≡ ak.n
    → Perm (all_pivots fk.diag_entries) (indices ak.n 0)
    → Perm (realized_pivot_order ak fk).perm fk.perm
realized_pivot_order-perm ak fk indefinite size p =
    let (ok, count, permuted) = order-perm ak.n fk.perm size fk.diag_entries p in
    let whole : realized_pivot_order ak fk ≡ order_of ak.n fk.perm fk.diag_entries =
      ground (arith, realized_pivot_order_lem ak fk, indefinite, ok, count) in
    subst (λ (o : RealizedOrder). Perm o.perm fk.perm) (sym whole) permuted
