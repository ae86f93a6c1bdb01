-- ===== src/Ordering/Pivot/Realized.antt =====
-- The realized order by the pivots of the diagonal entries: what each index names, and when the order is empty.
use opt_solver.Base.{
  concat_map, ℕ, ◌<◌, ◌≡◌, refl, sym, ap, ◌∙◌, ◌⊎◌, inl, inr, Bool, true, false, ◌&&◌, List, [],
  ◌∷◌, ◌++◌, map, ◌==◌, if◌then◌else◌, length, length-append, get_or, arith, Bool-cases, and_parts,
}
use opt_solver.Base.Ints.{ℤ, pos, negsuc, pos_part}
use opt_solver.Ordering.Pivot.{
  DiagSolveEntry, AnalysisKeep, FactorKeep, RealizedOrder, is_pivot, orig, no_order,
  realized_pivot_order,
}
use opt_solver.Ordering.Pivot.Laws.{
  pivots_of, pair_of, zero_of, entry_ok, all_ok, originals, order_of, pivot_count,
  realized_pivot_order_lem,
}
use mathlib.Core.List.{Memᴰ, map-append}
use mathlib.Core.List.Memᴰ
use mathlib.Core.List.Memᴰ.{head, tail}

-- The pivot is an index of an order of length n.
abbrev pub IsIndex : ℕ → List ℤ → ℤ → Type 0
IsIndex n perm piv = (j : ℕ) × (piv ≡ pos j) × (j < length perm) × (length perm ≡ n)

-- The original columns of pivots.
abbrev pub columns : List ℤ → List ℤ → List ℤ
columns perm rows = map (λ r. get_or perm (pos_part r) (pos 0)) rows

module _ (n : ℕ) (perm : List ℤ) where
  IsIndex-pivot : (piv : ℤ) → is_pivot n perm piv ≡ true → IsIndex n perm piv
  unfolding is_pivot
  IsIndex-pivot (pos j) h = (j, refl, ground arith, ground arith)
  IsIndex-pivot (negsuc m) h = absurd (ground arith)

  pivot-IsIndex : (piv : ℤ) → IsIndex n perm piv → is_pivot n perm piv ≡ true
  unfolding is_pivot
  pivot-IsIndex piv (j, e, lt, size) = ground (arith, e)

  abbrev every : List ℤ → Bool
  every [] = true
  every (r ∷ rs) = is_pivot n perm r && every rs

  every-append : (rs ss : List ℤ) → every (rs ++ ss) ≡ (every rs && every ss)
  every-append [] ss = refl
  every-append (r ∷ rs) ss = let rest = every-append rs ss in ground (arith, rest)

  every-to : (rs : List ℤ) → every rs ≡ true → (r : ℤ) → Memᴰ r rs → IsIndex n perm r
  every-to [] h r m = elim m [ ]
  every-to (s ∷ rs) h r m = elim (Memᴰ.cases_cons m) [
    | inl q ↦ IsIndex-pivot r (ap (is_pivot n perm) q ∙ (and_parts h).0)
    | inr m' ↦ every-to rs (and_parts {a = is_pivot n perm s} h).1 r m'
  ]

  every-from : (rs : List ℤ) → ((r : ℤ) → Memᴰ r rs → IsIndex n perm r) → every rs ≡ true
  every-from [] h = refl
  every-from (s ∷ rs) h =
      let first = pivot-IsIndex s (h s (head refl)) in
      let rest = every-from rs (λ r m. h r (tail m)) in cc (first, rest)

  originals-columns : (rs : List ℤ) → every rs ≡ true → originals n perm rs ≡ columns perm rs
  unfolding orig
  originals-columns [] h = refl
  originals-columns (r ∷ rs) h =
      let here : is_pivot n perm r ≡ true = (and_parts {a = is_pivot n perm r} h).0 in
      let rest = originals-columns rs (and_parts {a = is_pivot n perm r} h).1 in
      rw here (ap (λ l. get_or perm (pos_part r) (pos 0) ∷ l) rest)

  module _ {V : Type 0} where
    -- The pivots that are taken as they come, and the zero pivots.
    abbrev taken : List (DiagSolveEntry V) → List ℤ
    taken es = concat_map pivots_of es

    abbrev zeros : List (DiagSolveEntry V) → List ℤ
    zeros es = concat_map zero_of es

    entry_every :
        (e : DiagSolveEntry V) → entry_ok n perm e ≡ (every (pivots_of e) && every (zero_of e))
    entry_every e = ground arith

    pair_every : (e : DiagSolveEntry V) → every (pivots_of e) ≡ true → every (pair_of e) ≡ true
    pair_every e h = ground (arith, h)

    all_ok-every :
        (es : List (DiagSolveEntry V)) → all_ok n perm es ≡ (every (taken es) && every (zeros es))
    all_ok-every [] = refl
    all_ok-every (e ∷ es) =
        let a = entry_every e in
        let b = all_ok-every es in
        let c = every-append (pivots_of e) (taken es) in
        let d = every-append (zero_of e) (zeros es) in
        rw (a, b, c, d)
          (exchange (every (pivots_of e)) (every (zero_of e)) (every (taken es)) (every (zeros es)))
      where
        exchange : (a b c d : Bool) → (a && b && (c && d)) ≡ (a && c && (b && d))
        exchange a b c d = ground arith

    pairs-every :
        (es : List (DiagSolveEntry V))
        → every (taken es) ≡ true
        → every (concat_map pair_of es) ≡ true
    pairs-every [] h = refl
    pairs-every (e ∷ es) h =
        let both = and_parts (sym (every-append (pivots_of e) (taken es)) ∙ h) in
        let first = pair_every e both.0 in
        let rest = pairs-every es both.1 in
        every-append (pair_of e) (concat_map pair_of es) ∙ cc (first, rest)

-- What realized_pivot_order makes of the pivots `taken` and `zeros`: their columns, where all are indices and there are
-- n of them, and else nothing.
pub record IsRealized {V : Type 0} (n : ℕ) (perm : List ℤ) (es : List (DiagSolveEntry V))
    (o : RealizedOrder) : Type 0 where
  pub whole :
      ((r : ℤ) → Memᴰ r (concat_map pivots_of es ++ concat_map zero_of es) → IsIndex n perm r)
      → length (concat_map pivots_of es ++ concat_map zero_of es) ≡ n
      → o ≡ record {
        perm = columns perm (concat_map pivots_of es ++ concat_map zero_of es);
        pairs = columns perm (concat_map pair_of es);
        zero_pivots = length (concat_map zero_of es);
      }
  pub empty :
      (o ≡ no_order)
      ⊎ (((r : ℤ) → Memᴰ r (concat_map pivots_of es ++ concat_map zero_of es) → IsIndex n perm r)
          × (length (concat_map pivots_of es ++ concat_map zero_of es) ≡ n))

module _ {V : Type 0} (n : ℕ) (perm : List ℤ) (es : List (DiagSolveEntry V)) where
  abbrev pivots : List ℤ
  pivots = concat_map pivots_of es ++ concat_map zero_of es

  order_columns :
      every n perm pivots ≡ true
      → order_of n perm es ≡ record {
        perm = columns perm pivots;
        pairs = columns perm (concat_map pair_of es);
        zero_pivots = length (concat_map zero_of es);
      }
  order_columns h =
      let both =
        and_parts
          (sym (every-append n perm (concat_map pivots_of es) (concat_map zero_of es)) ∙ h) in
      let a = originals-columns n perm pivots h in
      let b = originals-columns n perm (concat_map pair_of es) (pairs-every n perm es both.0) in
      let c : originals n perm pivots
          ≡ originals n perm (concat_map pivots_of es) ++ originals n perm (concat_map zero_of es) =
        map-append (orig n perm) (concat_map pivots_of es) (concat_map zero_of es) in
      cc (a, b, c)

  IsRealized-order :
      (o : RealizedOrder)
      → o
        ≡ (if all_ok n perm es && pivot_count n perm es == n then order_of n perm es else no_order)
      → IsRealized n perm es o
  IsRealized-order o e =
      let ok : all_ok n perm es ≡ every n perm pivots =
        all_ok-every n perm es
        ∙ sym (every-append n perm (concat_map pivots_of es) (concat_map zero_of es)) in
      let count : length pivots ≡ pivot_count n perm es =
        omega (arith, length-append (concat_map pivots_of es) (concat_map zero_of es)) in
      record {
        whole = λ all size.
            let good = every-from n perm pivots all in
            let same = order_columns good in ground (arith, e, ok, good, count, size) ∙ same;
        empty = elim (Bool-cases (every n perm pivots)) [
          | inl good ↦ elim (Bool-cases (pivot_count n perm es == n)) [
            | inl size ↦ inr (every-to n perm pivots good, ground (arith, size, count))
            | inr other ↦ inl (ground (arith, e, other))
          ]
          | inr bad ↦ inl (ground (arith, e, ok, bad))
        ];
      }

-- Of a positive definite factor the realized order is the analysis order. Of any other it lists the original columns of
-- the pivots in the order of the diagonal entries, those of the zero pivots last, the 2x2 pivots' columns also as
-- pairs, where all pivots are indices of an order of length n and there are n of them; else it is empty.
pub realized_pivot_order-IsRealized :
    {V : Type 0} (ak : AnalysisKeep) (fk : FactorKeep V)
    → ((fk.is_posdef ≡ true)
        × (realized_pivot_order ak fk ≡ record { perm = ak.perm; pairs = []; zero_pivots = 0 }))
      ⊎ ((fk.is_posdef ≡ false)
          × IsRealized ak.n fk.perm fk.diag_entries (realized_pivot_order ak fk))
realized_pivot_order-IsRealized ak fk = elim (Bool-cases fk.is_posdef) [
  | inl yes_posdef ↦ inl (yes_posdef, realized_pivot_order_lem ak fk ∙ rw yes_posdef refl)
  | inr indefinite ↦ inr (
    indefinite,
    IsRealized-order ak.n fk.perm fk.diag_entries (realized_pivot_order ak fk)
        (realized_pivot_order_lem ak fk ∙ rw indefinite refl),
  )
]
