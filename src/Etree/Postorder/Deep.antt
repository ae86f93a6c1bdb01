-- ===== src/Etree/Postorder/Deep.antt =====
-- solver/src/etree.cpp: the depths while etree_postorder passes the nodes.
use opt_solver.Base.{
  ℕ, suc, ◌+◌, ◌≤◌, ◌<◌, ◌≡◌, ◌≢◌, refl, sym, ap, subst, ◌∙◌, inl, inr, List, [], ◌∷◌, length,
  get_or, set, max, arith, dec_lt, ℕ_discrete, get_or-set_ne, get_or-set_same, length-set,
}
use opt_solver.Base.Ints.{pos_inj, not_both, ℤ, pos, negsuc}
use opt_solver.Etree.Path.{above}
use opt_solver.Etree.Postorder.{raise, max_depth_of}
use mathlib.Core.List.{Memᴰ}
use mathlib.Core.List.Memᴰ
use mathlib.Core.List.Memᴰ.{tail}
use opt_solver.Etree.Postorder.Kids.{IsParents}
use opt_solver.Etree.Postorder.First.{IsChildrenFirst, gather}

-- From x there are d edges up to s.
pub data Climbs (parent : List ℤ) : ℕ → ℕ → ℕ → Type 0 where
  stay : {x : ℕ} → Climbs parent x x 0
  climb_on :
      {x t s d : ℕ} → Climbs parent x t d → above parent t ≡ pos s → Climbs parent x s (suc d)

abbrev pub at : List ℕ → ℕ → ℕ
at depth p = get_or depth p 0

-- What is known of the depths when the nodes in `seen` have been passed.
pub record IsDeep (parent : List ℤ) (seen : List ℕ) (depth : List ℕ) (deepest : ℕ) : Type 0 where
  pub closed : (p x : ℕ) → Memᴰ p seen → above parent x ≡ pos p → Memᴰ x seen
  pub above_child : (x p : ℕ) → Memᴰ x seen → above parent x ≡ pos p → at depth x < at depth p
  pub reached : (p : ℕ) → (x : ℕ) × Climbs parent x p (at depth p)
  pub covers : (x : ℕ) → Memᴰ x seen → at depth x ≤ deepest
  pub taken : (x : ℕ) × ((p : ℕ) × Climbs parent x p deepest)

module _ {n : ℕ} {parent : List ℤ} (t : IsParents n parent) where
  module _ (seen : List ℕ) (depth : List ℕ) (deepest j : ℕ) (v : IsDeep parent seen depth deepest)
      (wide : length depth ≡ n) (kids_seen : (x : ℕ) → above parent x ≡ pos j → Memᴰ x seen) where
    closed_next : (p x : ℕ) → Memᴰ p (j ∷ seen) → above parent x ≡ pos p → Memᴰ x (j ∷ seen)
    closed_next p x m e = elim (Memᴰ.cases_cons m) [
      | inl q ↦ tail (kids_seen x (e ∙ ap pos q))
      | inr m' ↦ tail (v.closed p x m' e)
    ]

    -- The depths after the node j, when those of the nodes that have been passed stay.
    IsDeep-next :
        (next : List ℕ)
        → ((x : ℕ) → Memᴰ x (j ∷ seen) → at next x ≡ at depth x)
        → ((x : ℕ) → at depth x ≤ at next x)
        → ((p : ℕ) → above parent j ≡ pos p → at depth j < at next p)
        → ((p : ℕ) → (x : ℕ) × Climbs parent x p (at next p))
        → IsDeep parent (j ∷ seen) next (max deepest (at next j))
    IsDeep-next next kept grown now reached = record {
      closed = closed_next;
      above_child = λ x p g h. elim (Memᴰ.cases_cons g) [
        | inl q ↦ omega (arith, kept x g, ap (at depth) q, now p (ap (above parent) (sym q) ∙ h))
        | inr m' ↦ omega (arith, kept x g, v.above_child x p m' h, grown p)
      ];
      reached = reached;
      covers = λ x g. elim (Memᴰ.cases_cons g) [
        | inl q ↦ omega (arith, ap (at next) q)
        | inr m' ↦ omega (arith, kept x g, v.covers x m')
      ];
      taken = elim (dec_lt deepest (at next j)) [
        | yes lt ↦
            let (x, path) = reached j in (x, (j, subst (Climbs parent x j) (omega arith) path))
        | no ge ↦
            let (x, (p, path)) = v.taken in (x, (p, subst (Climbs parent x p) (omega arith) path))
      ];
    }

    module _ (p : ℕ) (e : above parent j ≡ pos p) where
      abbrev higher : ℕ
      higher = max (at depth p) (at depth j + 1)

      raised_at : at (set depth p higher) p ≡ higher
      raised_at = get_or-set_same depth p higher 0 (omega (arith, t.bounded j p e))

      raised_other : (x : ℕ) → p ≢ x → at (set depth p higher) x ≡ at depth x
      raised_other x ne = get_or-set_ne depth p x higher 0 ne

      -- The parent has been passed only if the node has, and then it is deep enough.
      raised_kept : (x : ℕ) → Memᴰ x (j ∷ seen) → at (set depth p higher) x ≡ at depth x
      raised_kept x m = elim (ℕ_discrete p x) [
        | no ne ↦ raised_other x ne
        | yes q ↦ elim (Memᴰ.cases_cons m) [
          | inl q' ↦ absurd (omega (arith, t.rising j p e))
          | inr m' ↦
              let again = v.closed p j (subst (λ z. Memᴰ z seen) (sym q) m') e in
              omega (
                arith,
                v.above_child j p again e,
                raised_at,
                ap (at (set depth p higher)) q,
                ap (at depth) q,
              )
        ]
      ]

      raised_reached : (s : ℕ) → (x : ℕ) × Climbs parent x s (at (set depth p higher) s)
      raised_reached s = elim (ℕ_discrete p s) [
        | no ne ↦
            let (x, path) = v.reached s in
            (x, subst (Climbs parent x s) (sym (raised_other s ne)) path)
        | yes q ↦ elim (dec_lt (at depth j) (at depth p)) [
          | yes lt ↦
              let (x, path) = v.reached p in
              (
                x,
                subst (λ z. Climbs parent x z (at (set depth p higher) z)) q
                    (subst (Climbs parent x p) (omega (arith, raised_at)) path),
              )
          | no ge ↦
              let (x, path) = v.reached j in
              (
                x,
                subst (λ z. Climbs parent x z (at (set depth p higher) z)) q
                    (subst (Climbs parent x p) (omega (arith, raised_at)) (climb_on path e)),
              )
        ]
      ]

      IsDeep-raised :
          IsDeep parent (j ∷ seen) (set depth p higher) (max deepest (at (set depth p higher) j))
      IsDeep-raised =
          IsDeep-next (set depth p higher) raised_kept
            (λ x. elim (ℕ_discrete p x) [
              | yes q ↦ omega (arith, raised_at, ap (at (set depth p higher)) q, ap (at depth) q)
              | no ne ↦ omega (arith, raised_other x ne)
            ])
            (λ q h. omega (arith, raised_at, ap (at (set depth p higher)) (pos_inj (sym e ∙ h))))
            raised_reached

    IsDeep-raise :
        IsDeep parent (j ∷ seen) (raise parent j depth) (max deepest (at (raise parent j depth) j))
    unfolding raise
    IsDeep-raise = cases (above parent j) refl
      where
        cases :
            (z : ℤ)
            → above parent j ≡ z
            → let after : List ℕ = elim z [
              | pos p ↦ set depth p (max (get_or depth p 0) (get_or depth j 0 + 1))
              | negsuc m ↦ depth
            ] in
              IsDeep parent (j ∷ seen) after (max deepest (at after j))
        cases (pos p) e = IsDeep-raised p e
        cases (negsuc m) e =
            IsDeep-next depth (λ x g. refl) (λ x. omega arith) (λ p h. absurd (not_both e h))
              v.reached

  length-raise : (j : ℕ) (depth : List ℕ) → length (raise parent j depth) ≡ length depth
  unfolding raise
  length-raise j depth = cases (above parent j)
    where
      cases :
          (z : ℤ)
          → let after : List ℕ = elim z [
            | pos p ↦ set depth p (max (get_or depth p 0) (get_or depth j 0 + 1))
            | negsuc m ↦ depth
          ] in
            length after ≡ length depth
      cases (pos p) = length-set depth p _
      cases (negsuc m) = refl

  pub max_depth_of-IsDeep :
      (l seen depth : List ℕ) (deepest : ℕ)
      → IsChildrenFirst parent seen l
      → length depth ≡ n
      → IsDeep parent seen depth deepest
      → (last : List ℕ) × IsDeep parent (gather l seen) last (max_depth_of parent l depth deepest)
  unfolding max_depth_of
  max_depth_of-IsDeep [] seen depth deepest first wide v = (depth, v)
  max_depth_of-IsDeep (j ∷ l) seen depth deepest first wide v =
      max_depth_of-IsDeep l (j ∷ seen) (raise parent j depth) _ first.1
        (length-raise j depth ∙ wide) (IsDeep-raise seen depth deepest j v wide first.0)
