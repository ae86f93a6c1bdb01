-- ===== src/Etree/Climb.antt =====
-- solver/src/etree.cpp: the walk from an entry of row k ends, and where.
use opt_solver.Base.{
  ℕ, zero, suc, ◌-◌, ◌≤◌, ◌<◌, ◌≡◌, refl, sym, ap, subst, ◌∙◌, ◌⊎◌, inl, inr, List, ◌==◌,
  if◌then◌else◌, length, set, Option, some, arith, if_both, ℕ_discrete, get_or-set_ne,
  get_or-set_same, length-set,
}
use opt_solver.Base.Ints.{ℤ, pos, negsuc}
use opt_solver.Etree.{Forest, climb}
use opt_solver.Etree.Path.{above, Up, here, IsRising, Up-trans}

-- Before and while row k is entered: parents and ancestors are greater and at most k, an ancestor is on the path,
-- a node without an ancestor has
-- no parent, and a missing parent is -1.
pub record IsForest (n k : ℕ) (f : Forest) : Type 0 where
  pub parents : length f.parent ≡ n
  pub ancestors : length f.ancestor ≡ n
  pub rising : IsRising f.parent
  pub bounded : (r t : ℕ) → above f.parent r ≡ pos t → t ≤ k
  pub jump : (r t : ℕ) → above f.ancestor r ≡ pos t → (r < t) × (t ≤ k) × Up f.parent r t
  pub unset : (r m : ℕ) → above f.parent r ≡ negsuc m → m ≡ 0
  pub root : (r m : ℕ) → above f.ancestor r ≡ negsuc m → (m' : ℕ) × (above f.parent r ≡ negsuc m')

-- What a walk that has come to r has done to the ancestors: some nodes before r now jump to k, and r is on their paths.
pub record IsWalked (n k : ℕ) (f : Forest) (r : ℕ) (ancestor : List ℤ) : Type 0 where
  pub wide : length ancestor ≡ n
  pub later : (s : ℕ) → r ≤ s → above ancestor s ≡ above f.ancestor s
  pub changed :
      (s : ℕ)
      → (above ancestor s ≡ above f.ancestor s)
        ⊎ ((above ancestor s ≡ pos k) × (s < r) × Up f.parent s r)

-- The walk from r ended at a root or at a node that jumps to k already.
pub record IsEnd (n k : ℕ) (f : Forest) (r : ℕ) (end : ℕ × List ℤ) : Type 0 where
  pub path : Up f.parent r end.0
  pub below : end.0 < k
  pub stop : ((m : ℕ) × (above f.ancestor end.0 ≡ negsuc m)) ⊎ (above f.ancestor end.0 ≡ pos k)
  pub walked : IsWalked n k f end.0 end.1

module _ {n k : ℕ} {f : Forest} (v : IsForest n k f) (inside : k < n) where
  -- One more step, from r to its ancestor t.
  IsWalked-step :
      (r t : ℕ) (ancestor : List ℤ)
      → r < k
      → above f.ancestor r ≡ pos t
      → IsWalked n k f r ancestor
      → IsWalked n k f t (set ancestor r (pos k))
  IsWalked-step r t ancestor lt e w =
      let (less, bound, path) = v.jump r t e in
      record {
        wide = length-set ancestor r (pos k) ∙ w.wide;
        later = λ s le.
            get_or-set_ne ancestor r s (pos k) (negsuc 0) (λ q. absurd (omega arith))
            ∙ w.later s (omega arith);
        changed = λ s. elim (ℕ_discrete r s) [
          | yes q ↦ inr (
            subst (λ z. above (set ancestor r (pos k)) z ≡ pos k) q
                (get_or-set_same ancestor r (pos k) (negsuc 0) (omega (arith, w.wide))),
            omega arith,
            subst (λ z. Up f.parent z t) q path,
          )
          | no ne ↦ elim (w.changed s) [
            | inl same ↦ inl (get_or-set_ne ancestor r s (pos k) (negsuc 0) ne ∙ same)
            | inr (now, before, up_to) ↦ inr (
              get_or-set_ne ancestor r s (pos k) (negsuc 0) ne ∙ now,
              omega arith,
              Up-trans up_to path,
            )
          ]
        ];
      }

  abbrev Ends : ℕ → Option (ℕ × List ℤ) → Type 0
  Ends r o = (end : ℕ × List ℤ) × (o ≡ some end) × IsEnd n k f r end

  IsEnd-from :
      (r t : ℕ) (end : ℕ × List ℤ) → Up f.parent r t → IsEnd n k f t end → IsEnd n k f r end
  IsEnd-from r t end p e = record {
    path = Up-trans p e.path;
    below = e.below;
    stop = e.stop;
    walked = e.walked;
  }

  -- The step of the loop, given what the rest of it does.
  Ends-step :
      (fuel : ℕ) (ancestor : List ℤ) (r : ℕ)
      → r < k
      → IsWalked n k f r ancestor
      → ((t : ℕ)
          → t < k
          → r < t
          → IsWalked n k f t (set ancestor r (pos k))
          → Ends t (climb fuel (set ancestor r (pos k)) k t))
      → (z : ℤ) → above ancestor r ≡ z
      → Ends r (elim z [
        | negsuc m ↦ some (r, ancestor)
        | pos t ↦
            let rest = climb fuel (set ancestor r (pos k)) k t in
            if t == k then some (r, ancestor) else rest
      ])
  Ends-step fuel ancestor r lt w later (negsuc m) e = (
    (r, ancestor),
    refl,
    record {
      path = here;
      below = lt;
      stop = inl (m, sym (w.later r (omega arith)) ∙ e);
      walked = w;
    },
  )
  Ends-step fuel ancestor r lt w later (pos t) e =
      let old : above f.ancestor r ≡ pos t = sym (w.later r (omega arith)) ∙ e in
      let (less, bound, path) = v.jump r t old in
      if_both (Ends r) (t == k) (some (r, ancestor)) (climb fuel (set ancestor r (pos k)) k t)
        (λ q. (
          (r, ancestor),
          refl,
          record { path = here; below = lt; stop = inr (old ∙ ap pos (ground arith)); walked = w },
        ))
        (λ q.
          let (end, g, x) = later t (ground arith) less (IsWalked-step r t ancestor lt old w) in
          (end, g, IsEnd-from r t end path x))

  -- The walk of an entry left of the diagonal ends on as much fuel as there are columns between.
  pub climb-Ends :
      (fuel : ℕ) (ancestor : List ℤ) (r : ℕ)
      → r < k
      → k - r < fuel
      → IsWalked n k f r ancestor
      → Ends r (climb fuel ancestor k r)
  unfolding climb
  climb-Ends zero ancestor r lt enough w = absurd (omega arith)
  climb-Ends (suc fuel) ancestor r lt enough w =
      Ends-step fuel ancestor r lt w
        (λ t below less x. climb-Ends fuel (set ancestor r (pos k)) t below (omega arith) x)
        (above ancestor r) refl
