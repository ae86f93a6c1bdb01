-- ===== src/Ordering/Pivot/Laws.antt =====
-- The order read off a factor lists its pivots, the zero pivots last, or is empty.
use mathlib.Core.List.{append-nil, append_assoc, map-append}
use opt_solver.Base.{
  concat_map, ℕ, ◌+◌, ◌≡◌, refl, sym, ap, ◌∙◌, inl, inr, Bool, true, false, not, ◌&&◌, List, [],
  ◌∷◌, ◌++◌, map, ◌==◌, if◌then◌else◌, length, length-append, length-map, arith, Bool-cases,
  and_parts,
}
use opt_solver.Base.Ints.{ℤ, pos, eqz}
use opt_solver.Ordering.Pivot.{
  DiagSolveEntry, AnalysisKeep, FactorKeep, RealizedOrder, Realizing, is_pivot, orig, realize_step,
  realize, no_order, not_started, finish_order, realized_pivot_order,
}

-- The original indices of pivots.
abbrev pub originals : ℕ → List ℤ → List ℤ → List ℤ
originals n perm rows = map (orig n perm) rows

module _ {V : Type 0} where
  abbrev is_zero : DiagSolveEntry V → Bool
  is_zero e = not (eqz e.was_zero (pos 0))

  abbrev is_pair : DiagSolveEntry V → Bool
  is_pair e = eqz e.tag (pos 2)

  -- The pivots that an entry eliminates, where it is not a zero pivot, and where it is.
  abbrev pub pivots_of : DiagSolveEntry V → List ℤ
  pivots_of e = if is_zero e then [] else if is_pair e then e.row0 ∷ e.row1 ∷ [] else e.row0 ∷ []

  abbrev pub pair_of : DiagSolveEntry V → List ℤ
  pair_of e = if is_zero e then [] else if is_pair e then e.row0 ∷ e.row1 ∷ [] else []

  abbrev pub zero_of : DiagSolveEntry V → List ℤ
  zero_of e = if is_zero e then e.row0 ∷ [] else []

  module _ (n : ℕ) (perm : List ℤ) where
    -- Every pivot of the entry is an index of the factor's order.
    abbrev pub entry_ok : DiagSolveEntry V → Bool
    entry_ok e =
        if is_zero e
        then is_pivot n perm e.row0
        else if is_pair e
        then is_pivot n perm e.row0 && is_pivot n perm e.row1
        else is_pivot n perm e.row0

    abbrev pub all_ok : List (DiagSolveEntry V) → Bool
    all_ok [] = true
    all_ok (e ∷ es) = entry_ok e && all_ok es

    -- The state after entries that were all in range.
    abbrev after : Realizing → List (DiagSolveEntry V) → Realizing
    after s es = record {
      perm = s.perm ++ originals n perm (concat_map pivots_of es);
      pairs = s.pairs ++ originals n perm (concat_map pair_of es);
      zeros = s.zeros ++ originals n perm (concat_map zero_of es);
      bad = false;
    }

    step_ok :
        (s : Realizing) (e : DiagSolveEntry V)
        → s.bad ≡ false
        → entry_ok e ≡ true
        → realize_step n perm s e ≡ record {
          perm = s.perm ++ originals n perm (pivots_of e);
          pairs = s.pairs ++ originals n perm (pair_of e);
          zeros = s.zeros ++ originals n perm (zero_of e);
          bad = false;
        }
    unfolding realize_step
    step_ok s e b ok =
        ground (arith, append-nil s.perm, append-nil s.pairs, append-nil s.zeros, b, ok)

    step_bad :
        (s : Realizing) (e : DiagSolveEntry V)
        → entry_ok e ≡ false
        → (realize_step n perm s e).bad ≡ true
    unfolding realize_step
    step_bad s e ok = ground (arith, ok)

    realize-next :
        (s : Realizing) (e : DiagSolveEntry V) (es : List (DiagSolveEntry V))
        → (realize_step n perm s e).bad ≡ false
        → realize n perm s (e ∷ es) ≡ realize n perm (realize_step n perm s e) es
    unfolding realize
    realize-next s e es good = rw (good, realize)

    realize-stop :
        (s : Realizing) (e : DiagSolveEntry V) (es : List (DiagSolveEntry V))
        → (realize_step n perm s e).bad ≡ true
        → realize n perm s (e ∷ es) ≡ realize_step n perm s e
    unfolding realize
    realize-stop s e es bad = rw (bad, realize)

    gathers :
        (f : DiagSolveEntry V → List ℤ) (before : List ℤ) (e : DiagSolveEntry V)
        (es : List (DiagSolveEntry V))
        → (before ++ originals n perm (f e)) ++ originals n perm (concat_map f es)
          ≡ before ++ originals n perm (concat_map f (e ∷ es))
    gathers f before e es =
        append_assoc before _ _
        ∙ ap (λ l. before ++ l) (sym (map-append (orig n perm) (f e) (concat_map f es)))

    realize_ok :
        (es : List (DiagSolveEntry V)) (s : Realizing)
        → s.bad ≡ false
        → all_ok es ≡ true
        → realize n perm s es ≡ after s es
    realize_ok [] s b ok =
        unfold realize in
        ground (arith, append-nil s.perm, append-nil s.pairs, append-nil s.zeros, b)
    realize_ok (e ∷ es) s b ok =
        let (here, rest) = and_parts ok in
        let step = step_ok s e b here in
        let next = after s (e ∷ []) in
        realize-next s e es (ap (λ (r : Realizing). r.bad) step)
        ∙ (ap (λ r. realize n perm r es) step
            ∙ (realize_ok es _ refl rest
                ∙ rw (
                  gathers pivots_of s.perm e es,
                  gathers pair_of s.pairs e es,
                  gathers zero_of s.zeros e es,
                )))

    realize_bad :
        (es : List (DiagSolveEntry V)) (s : Realizing)
        → all_ok es ≡ false
        → (realize n perm s es).bad ≡ true
    realize_bad [] s ok = absurd (cc ok)
    realize_bad (e ∷ es) s ok = elim (Bool-cases (realize_step n perm s e).bad) [
      | inl bad ↦ rw (realize-stop s e es bad) bad
      | inr good ↦ elim (Bool-cases (entry_ok e)) [
        | inl fine ↦ rw (realize-next s e es good) (realize_bad es _ (ground (arith, ok, fine)))
        | inr wrong ↦ absurd (cc (step_bad s e wrong, good))
      ]
    ]

    -- The order that the entries spell out: all other pivots before the zero pivots.
    abbrev pub order_of : List (DiagSolveEntry V) → RealizedOrder
    order_of es = record {
      perm = originals n perm (concat_map pivots_of es) ++ originals n perm (concat_map zero_of es);
      pairs = originals n perm (concat_map pair_of es);
      zero_pivots = length (concat_map zero_of es);
    }

    abbrev pub pivot_count : List (DiagSolveEntry V) → ℕ
    pivot_count es = length (concat_map pivots_of es) + length (concat_map zero_of es)

    realize_order :
        (es : List (DiagSolveEntry V))
        → finish_order n (realize n perm not_started es)
          ≡ (if all_ok es && pivot_count es == n then order_of es else no_order)
    unfolding finish_order
    realize_order es =
        let ps = originals n perm (concat_map pivots_of es) in
        let zs = originals n perm (concat_map zero_of es) in
        let whole : length (ps ++ zs) ≡ pivot_count es = omega (
          arith,
          length-append ps zs,
          length-map (concat_map pivots_of es) (orig n perm),
          length-map (concat_map zero_of es) (orig n perm),
        ) in
        elim (Bool-cases (all_ok es)) [
          | inl ok ↦
              rw
                (
                  realize_ok es not_started refl ok,
                  ok,
                  whole,
                  length-map (concat_map zero_of es) (orig n perm),
                )
                (ground arith)
          | inr wrong ↦ rw (realize_bad es not_started wrong, wrong) refl
        ]

-- A positive definite factor has the analysis order. Of any other the realized order lists the
-- original columns of the pivots in the order of the diagonal entries, those of the zero pivots last,
-- the 2x2 pivots' columns also as pairs; it is empty if some pivot is no index of the factor's order
-- or if there are not n pivots.
pub realized_pivot_order_lem :
    {V : Type 0} (ak : AnalysisKeep) (fk : FactorKeep V)
    → realized_pivot_order ak fk ≡ (
        if fk.is_posdef
        then record no_order { perm = ak.perm }
        else if all_ok ak.n fk.perm fk.diag_entries
            && pivot_count ak.n fk.perm fk.diag_entries == ak.n
        then order_of ak.n fk.perm fk.diag_entries
        else no_order)
unfolding realized_pivot_order
realized_pivot_order_lem ak fk = rw (realize_order ak.n fk.perm fk.diag_entries) refl
