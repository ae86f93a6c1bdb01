-- ===== src/Etree/Link.antt =====
-- solver/src/etree.cpp: what the entry of row k in column r makes of the forest.
use opt_solver.Base.{
  ℕ, ◌-◌, ◌≤◌, ◌<◌, ◌≡◌, ◌≢◌, refl, sym, ap, subst, ◌∙◌, ◌⊎◌, inl, inr, List, set, some, arith,
  ℕ_discrete, get_or-set_ne, get_or-set_same, length-set,
}
use opt_solver.Base.Ints.{pos_inj, not_both, ℤ, pos, negsuc}
use opt_solver.Matrix.Csc.{◌>>=◌}
use opt_solver.Etree.{Forest, link, enter}
use opt_solver.Etree.Path.{above, Up, here, up, Grows, Up-trans, Up-Grows}
use opt_solver.Etree.Climb.{IsForest, IsWalked, IsEnd, climb-Ends}

-- The entry in column r has been entered: k is an ancestor of r, and an edge that is new goes to k from an ancestor of r.
pub record IsEntered (n k : ℕ) (f : Forest) (r : ℕ) (g : Forest) : Type 0 where
  pub valid : IsForest n k g
  pub grows : Grows f.parent g.parent
  pub reaches : Up g.parent r k
  pub edges :
      (s t : ℕ)
      → above g.parent s ≡ pos t
      → (above f.parent s ≡ pos t) ⊎ ((t ≡ k) × Up g.parent r s)

module _ {n k : ℕ} {f : Forest} (v : IsForest n k f) (inside : k < n) (r : ℕ) (end : ℕ × List ℤ)
    (e : IsEnd n k f r end) where
  abbrev ancestor : List ℤ
  ancestor = end.1

  -- The walk ended at a node that jumps to k: nothing is linked.
  module _ (jumps : above f.ancestor end.0 ≡ pos k) where
    abbrev same : Forest
    same = record { parent = f.parent; ancestor = ancestor }

    last_path : Up f.parent end.0 k
    last_path = (v.jump end.0 k jumps).2

    same_jump : (s t : ℕ) → above ancestor s ≡ pos t → (s < t) × (t ≤ k) × Up f.parent s t
    same_jump s t g = elim (e.walked.changed s) [
      | inl kept ↦ v.jump s t (sym kept ∙ g)
      | inr (now, before, path) ↦
          subst (λ z. (s < z) × (z ≤ k) × Up f.parent s z) (pos_inj (sym now ∙ g))
            (omega (arith, e.below), omega arith, Up-trans path last_path)
    ]

    IsEntered-same : IsEntered n k f r same
    IsEntered-same = record {
      valid = record {
        parents = v.parents;
        ancestors = e.walked.wide;
        rising = v.rising;
        bounded = v.bounded;
        jump = same_jump;
        unset = v.unset;
        root = λ s m g. elim (e.walked.changed s) [
          | inl kept ↦ v.root s m (sym kept ∙ g)
          | inr (now, before, path) ↦ absurd (not_both g now)
        ];
      };
      grows = λ s t g. g;
      reaches = Up-trans e.path last_path;
      edges = λ s t g. inl g;
    }

  -- The walk ended at a root, which gets the parent k.
  module _ (m : ℕ) (is_root : above f.ancestor end.0 ≡ negsuc m) where
    abbrev linked : Forest
    linked = record { parent = set f.parent end.0 (pos k); ancestor = set ancestor end.0 (pos k) }

    parent_other : (s : ℕ) → end.0 ≢ s → above linked.parent s ≡ above f.parent s
    parent_other s ne = get_or-set_ne f.parent end.0 s (pos k) (negsuc 0) ne

    parent_end : above linked.parent end.0 ≡ pos k
    parent_end =
        get_or-set_same f.parent end.0 (pos k) (negsuc 0) (omega (arith, e.below, v.parents))

    ancestor_other : (s : ℕ) → end.0 ≢ s → above linked.ancestor s ≡ above ancestor s
    ancestor_other s ne = get_or-set_ne ancestor end.0 s (pos k) (negsuc 0) ne

    ancestor_end : above linked.ancestor end.0 ≡ pos k
    ancestor_end =
        get_or-set_same ancestor end.0 (pos k) (negsuc 0) (omega (arith, e.below, e.walked.wide))

    -- An edge of the linked forest is an old one or the new one.
    edge_cases :
        (s t : ℕ)
        → above linked.parent s ≡ pos t
        → (above f.parent s ≡ pos t) ⊎ ((end.0 ≡ s) × (k ≡ t))
    edge_cases s t g = elim (ℕ_discrete end.0 s) [
      | yes q ↦ inr (q, pos_inj (sym (subst (λ z. above linked.parent z ≡ pos k) q parent_end) ∙ g))
      | no ne ↦ inl (sym (parent_other s ne) ∙ g)
    ]

    grown : Grows f.parent linked.parent
    grown s t g = elim (ℕ_discrete end.0 s) [
      | yes q ↦
          let (m', old) = v.root end.0 m is_root in
          absurd (not_both old (subst (λ z. above f.parent z ≡ pos t) (sym q) g))
      | no ne ↦ parent_other s ne ∙ g
    ]

    end_path : Up linked.parent end.0 k
    end_path = up parent_end here

    linked_jump :
        (s t : ℕ) → above linked.ancestor s ≡ pos t → (s < t) × (t ≤ k) × Up linked.parent s t
    linked_jump s t g = elim (ℕ_discrete end.0 s) [
      | yes q ↦
          let kt : k ≡ t =
            pos_inj (sym (subst (λ z. above linked.ancestor z ≡ pos k) q ancestor_end) ∙ g) in
          (
            omega (arith, e.below),
            omega arith,
            subst (λ z. Up linked.parent z t) q (subst (Up linked.parent end.0) kt end_path),
          )
      | no ne ↦ elim (e.walked.changed s) [
        | inl kept ↦
            let (less, bound, path) = v.jump s t (sym kept ∙ sym (ancestor_other s ne) ∙ g) in
            (less, bound, Up-Grows grown path)
        | inr (now, before, path) ↦
            subst (λ z. (s < z) × (z ≤ k) × Up linked.parent s z)
              (pos_inj (sym now ∙ sym (ancestor_other s ne) ∙ g))
              (omega (arith, e.below), omega arith, Up-trans (Up-Grows grown path) end_path)
      ]
    ]

    linked_root :
        (s j : ℕ)
        → above linked.ancestor s ≡ negsuc j
        → (m' : ℕ) × (above linked.parent s ≡ negsuc m')
    linked_root s j g = elim (ℕ_discrete end.0 s) [
      | yes q ↦ absurd (not_both g (subst (λ z. above linked.ancestor z ≡ pos k) q ancestor_end))
      | no ne ↦ elim (e.walked.changed s) [
        | inl kept ↦
            let (m', old) = v.root s j (sym kept ∙ sym (ancestor_other s ne) ∙ g) in
            (m', parent_other s ne ∙ old)
        | inr (now, before, path) ↦ absurd (not_both (sym (ancestor_other s ne) ∙ g) now)
      ]
    ]

    linked_unset : (s j : ℕ) → above linked.parent s ≡ negsuc j → j ≡ 0
    linked_unset s j g = elim (ℕ_discrete end.0 s) [
      | yes q ↦ absurd (not_both g (subst (λ z. above linked.parent z ≡ pos k) q parent_end))
      | no ne ↦ v.unset s j (sym (parent_other s ne) ∙ g)
    ]

    IsEntered-linked : IsEntered n k f r linked
    IsEntered-linked = record {
      valid = record {
        parents = length-set f.parent end.0 (pos k) ∙ v.parents;
        ancestors = length-set ancestor end.0 (pos k) ∙ e.walked.wide;
        rising = λ s t g. elim (edge_cases s t g) [
          | inl old ↦ v.rising s t old
          | inr (q, kt) ↦ omega (arith, e.below)
        ];
        bounded = λ s t g. elim (edge_cases s t g) [
          | inl old ↦ v.bounded s t old
          | inr (q, kt) ↦ omega arith
        ];
        jump = linked_jump;
        unset = linked_unset;
        root = linked_root;
      };
      grows = grown;
      reaches = Up-trans (Up-Grows grown e.path) end_path;
      edges = λ s t g. elim (edge_cases s t g) [
        | inl old ↦ inl old
        | inr (q, kt) ↦ inr (sym kt, subst (Up linked.parent r) q (Up-Grows grown e.path))
      ];
    }

  IsEntered-at :
      (z : ℤ)
      → above f.ancestor end.0 ≡ z
      → ((j : ℕ) × (z ≡ negsuc j)) ⊎ (z ≡ pos k)
      → IsEntered n k f r (elim z [
        | negsuc m ↦ record {
          parent = set f.parent end.0 (pos k);
          ancestor = set ancestor end.0 (pos k);
        }
        | pos t ↦ record { parent = f.parent; ancestor = ancestor }
      ])
  IsEntered-at (negsuc m) g h = IsEntered-linked m g
  IsEntered-at (pos t) g (inl (j, h)) = absurd (not_both h refl)
  IsEntered-at (pos t) g (inr h) = IsEntered-same (g ∙ h)

  IsEntered-link : IsEntered n k f r (link k f.parent end)
  unfolding link
  IsEntered-link =
      let now : above ancestor end.0 ≡ above f.ancestor end.0 =
        e.walked.later end.0 (omega arith) in
      IsEntered-at (above ancestor end.0) (sym now)
        (elim e.stop [ inl (j, h) ↦ inl (j, now ∙ h) | inr h ↦ inr (now ∙ h) ])

pub enter-IsEntered :
    {n k : ℕ} {f : Forest}
    → IsForest n k f
    → k < n
    → (fuel r : ℕ) → r < k
    → k - r < fuel
    → (g : Forest) × (enter fuel k f r ≡ some g) × IsEntered n k f r g
unfolding enter
enter-IsEntered {n} {k} {f} v inside fuel r lt enough =
    let start : IsWalked n k f r f.ancestor = record {
      wide = v.ancestors;
      later = λ s le. refl;
      changed = λ s. inl refl;
    } in
    let (end, g, e) = climb-Ends v inside fuel f.ancestor r lt enough start in
    (
      link k f.parent end,
      ap (λ o. o >>= (λ end. some (link k f.parent end))) g,
      IsEntered-link v inside r end e,
    )
