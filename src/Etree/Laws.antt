-- ===== src/Etree/Laws.antt =====
-- solver/src/etree.cpp: the tree by the least rows, without the ancestors.
use opt_solver.Base.{ℕ, ◌≤◌, ◌<◌, ◌≡◌, sym, ◌∙◌, List, length, some, arith}
use opt_solver.Base.Ints.{pos_inj, not_both, ℤ, pos, negsuc}
use opt_solver.Etree.{parents_of_rows}
use opt_solver.Etree.Entries.{IsListed}
use opt_solver.Etree.Path.{above, Up, Up-le, Up-linear, Up-first}
use opt_solver.Etree.Rows.{IsLeft, IsBuilt, parents_of_rows-IsBuilt}
use mathlib.Core.List.{Memᴰ}

-- `e t r` says that row t has an entry in column r. Row t is the first after s with an entry in the subtree of s.
pub record IsFirst (n : ℕ) (e : ℕ → ℕ → Type 0) (parent : List ℤ) (s t : ℕ) : Type 0 where
  pub after : s < t
  pub inside : t < n
  pub entry : (r : ℕ) × e t r × Up parent r s
  pub least : (t' r : ℕ) → s < t' → t' < n → e t' r → Up parent r s → t ≤ t'

-- The parent of s is the first row after s with an entry in the subtree of s, and a root has none.
pub record IsEtree (n : ℕ) (e : ℕ → ℕ → Type 0) (parent : List ℤ) : Type 0 where
  pub wide : length parent ≡ n
  pub first : (s t : ℕ) → above parent s ≡ pos t → IsFirst n e parent s t
  pub root :
      (s m : ℕ) → above parent s ≡ negsuc m → (t r : ℕ) → s < t → t < n → e t r → Up parent r s → ⊥

module _ {n : ℕ} {rows : ℕ → List ℕ} {parent : List ℤ} (b : IsBuilt rows n parent) where
  -- An entry of row t in the subtree of s puts s below t.
  entry_below :
      (s t r : ℕ)
      → s < t
      → t < n
      → Memᴰ r (rows t)
      → Up parent r s
      → (p : ℕ) × (above parent s ≡ pos p) × (p ≤ t)
  entry_below s t r lt inside m path =
      let (p, e, rest) =
        Up-first lt (Up-linear b.rising path (b.reaches t r inside m) (omega arith)) in
      (p, e, Up-le b.rising rest)

  pub IsBuilt-IsEtree :
      {e : ℕ → ℕ → Type 0}
      → ((k : ℕ) → k < n → IsListed (e k) (rows k))
      → length parent ≡ n
      → IsEtree n e parent
  IsBuilt-IsEtree both wide = record {
    wide = wide;
    first = λ s t g. record {
      after = b.rising s t g;
      inside = b.bounded s t g;
      entry = let (r, m, path) = b.edges s t g in (r, (both t (b.bounded s t g)).0 r m, path);
      least = λ t' r lt inside m path.
          let (p, g', le) = entry_below s t' r lt inside ((both t' inside).1 r m) path in
          omega (arith, pos_inj (sym g' ∙ g));
    };
    root = λ s m g t r lt inside h path.
        let (p, g', le) = entry_below s t r lt inside ((both t inside).1 r h) path in not_both g g';
  }

-- When the rows list the columns of the entries, all left of the diagonal, Liu's algorithm returns the tree.
pub parents_of_rows-IsEtree :
    (n : ℕ) (rows : ℕ → List ℕ) (e : ℕ → ℕ → Type 0)
    → ((k : ℕ) → k < n → IsLeft k (rows k))
    → ((k : ℕ) → k < n → IsListed (e k) (rows k))
    → (parent : List ℤ) × (parents_of_rows n rows ≡ some parent) × IsEtree n e parent
parents_of_rows-IsEtree n rows e left both =
    let (parent, g, wide, b) = parents_of_rows-IsBuilt n rows left in
    (parent, g, IsBuilt-IsEtree b both wide)
