-- ===== src/Schedule/Counting.antt =====
-- solver/src/parallel/top_scheduler.cpp: the children of a node that have not completed, and how often a
-- node is in a list.
use opt_solver.Base.{
  ℕ, zero, suc, ◌+◌, ◌≤◌, ◌<◌, ◌≡◌, ◌≢◌, refl, subst, ◌∙◌, List, [], ◌∷◌, ◌++◌, ◌==◌, if◌then◌else◌,
  length, get_or, set, arith, length-set,
}
use opt_solver.Base.Ints.{ℤ, pos, negsuc}
use opt_solver.Schedule.{count_children, push_leaves}

abbrev pub mark : ℕ → ℕ → ℕ
mark v u = if v == u then 1 else 0

-- How often `v` is in the list.
abbrev pub count : ℕ → List ℕ → ℕ
count v [] = 0
count v (u ∷ us) = mark v u + count v us

pub count-append : (v : ℕ) (xs ys : List ℕ) → count v (xs ++ ys) ≡ count v xs + count v ys
count-append v [] ys = omega arith
count-append v (x ∷ xs) ys = omega (arith, count-append v xs ys)

pub mark_same : (v : ℕ) → mark v v ≡ 1
mark_same v = ground arith

pub mark_other : (v u : ℕ) → v ≢ u → mark v u ≡ 0
mark_other v u h = ground arith

abbrev pub is_child : ℤ → ℕ → ℕ
is_child (pos p) v = mark v p
is_child (negsuc p) v = 0

-- 1 where node `i`, whose parent is `p`, has not completed and is a child of `v`.
abbrev pub open_child : (ℕ → ℕ) → ℕ → ℕ → ℤ → ℕ
open_child d v i p = if d i == 0 then is_child p v else 0

abbrev pub undone : (ℕ → ℕ) → ℕ → ℤ → ℕ
undone d i p = if d i == 0 then 1 else 0

-- A sum over the nodes i, i + 1, ... of the list.
abbrev pub tally : (ℕ → ℤ → ℕ) → ℕ → List ℤ → ℕ
tally w i [] = 0
tally w i (p ∷ ps) = w i p + tally w (suc i) ps

pub tally_same :
    (w w' : ℕ → ℤ → ℕ) (i : ℕ) (ps : List ℤ)
    → ((j : ℕ) (p : ℤ) → i ≤ j → w j p ≡ w' j p)
    → tally w i ps ≡ tally w' i ps
tally_same w w' i [] h = refl
tally_same w w' i (p ∷ ps) h =
    let rest = tally_same w w' (suc i) ps (λ j q l. h j q (omega arith)) in
    omega (arith, h i p (omega arith))

-- Weights that differ at one node.
pub tally_change :
    (w w' : ℕ → ℤ → ℕ) (ps : List ℤ) (i k δ : ℕ)
    → k < length ps
    → ((j : ℕ) (p : ℤ) → j ≢ i + k → w j p ≡ w' j p)
    → w (i + k) (get_or ps k (negsuc 0)) ≡ w' (i + k) (get_or ps k (negsuc 0)) + δ
    → tally w i ps ≡ tally w' i ps + δ
tally_change w w' [] i k δ lt h e = absurd (omega arith)
tally_change w w' (p ∷ ps) i zero δ lt h e =
    let rest = tally_same w w' (suc i) ps (λ j q l. h j q (λ x. absurd (omega arith))) in
    let here : i + 0 ≡ i = omega arith in
    let now = subst (λ j. w j p ≡ w' j p + δ) here e in omega arith
tally_change w w' (p ∷ ps) i (suc k) δ lt h e =
    let shift : i + suc k ≡ suc i + k = omega arith in
    let rest =
      tally_change w w' ps (suc i) k δ (omega arith) (λ j q ne. h j q (λ x. ne (x ∙ shift)))
        (subst (λ j. w j (get_or ps k (negsuc 0)) ≡ w' j (get_or ps k (negsuc 0)) + δ) shift e) in
    omega (arith, h i p (λ x. absurd (omega arith)))

pub tally_zero :
    (w : ℕ → ℤ → ℕ) (ps : List ℤ) (i k : ℕ)
    → k < length ps
    → tally w i ps ≡ 0
    → w (i + k) (get_or ps k (negsuc 0)) ≡ 0
tally_zero w [] i k lt e = absurd (omega arith)
tally_zero w (p ∷ ps) i zero lt e =
    let here : i ≡ i + 0 = omega arith in subst (λ j. w j p ≡ 0) here (omega arith)
tally_zero w (p ∷ ps) i (suc k) lt e =
    let shift : suc i + k ≡ i + suc k = omega arith in
    subst (λ j. w j (get_or ps k (negsuc 0)) ≡ 0) shift
      (tally_zero w ps (suc i) k (omega arith) (omega arith))

get-bump :
    (xs : List ℕ) (p v : ℕ)
    → v < length xs
    → get_or (set xs p (get_or xs p 0 + 1)) v 0 ≡ get_or xs v 0 + mark v p
get-bump [] p v lt = absurd (omega arith)
get-bump (x ∷ xs) zero zero lt = refl
get-bump (x ∷ xs) zero (suc v) lt = ground arith
get-bump (x ∷ xs) (suc p) zero lt = ground arith
get-bump (x ∷ xs) (suc p) (suc v) lt = ground (arith, get-bump xs p v (omega arith))

pub count_children_get :
    (ps : List ℤ) (pending : List ℕ) (v i : ℕ)
    → v < length pending
    → get_or (count_children ps pending) v 0
      ≡ get_or pending v 0 + tally (open_child (λ j. 0) v) i ps
unfolding count_children
count_children_get [] pending v i lt = omega arith
count_children_get (pos p ∷ ps) pending v i lt =
    let ih =
      count_children_get ps (set pending p (get_or pending p 0 + 1)) v (suc i)
        (omega (arith, length-set pending p (get_or pending p 0 + 1))) in
    omega (arith, get-bump pending p v lt)
count_children_get (negsuc p ∷ ps) pending v i lt =
    omega (arith, count_children_get ps pending v (suc i) lt)

pub length-count_children :
    (ps : List ℤ) (pending : List ℕ) → length (count_children ps pending) ≡ length pending
unfolding count_children
length-count_children [] pending = refl
length-count_children (pos p ∷ ps) pending =
    length-count_children ps (set pending p (get_or pending p 0 + 1))
    ∙ length-set pending p (get_or pending p 0 + 1)
length-count_children (negsuc p ∷ ps) pending = length-count_children ps pending

-- Where node `v` stands in the list that `push_leaves` reads from `i` on: 1 if it is there and 0.
abbrev pub leaf : List ℕ → ℕ → ℕ → ℕ
leaf [] i v = 0
leaf (c ∷ pending) i v = (if c == 0 then mark v i else 0) + leaf pending (suc i) v

pub count-push_leaves :
    (pending : List ℕ) (i : ℕ) (ready : List ℕ) (v : ℕ)
    → count v (push_leaves pending i ready) ≡ count v ready + leaf pending i v
unfolding push_leaves
count-push_leaves [] i ready v = omega arith
count-push_leaves (c ∷ pending) i ready v =
    let ih = count-push_leaves pending (suc i) (if c == 0 then i ∷ ready else ready) v in
    let here : count v (if c == 0 then i ∷ ready else ready)
        ≡ count v ready + (if c == 0 then mark v i else 0) =
      ground arith in
    omega arith

mark_shift : (v i k : ℕ) → v ≡ i + k → 0 < k → mark v i ≡ 0
mark_shift v i k e h = ground arith

pub leaf_before : (pending : List ℕ) (i v : ℕ) → v < i → leaf pending i v ≡ 0
leaf_before [] i v h = refl
leaf_before (c ∷ pending) i v h =
    let rest = leaf_before pending (suc i) v (omega arith) in ground arith

pub leaf_after : (pending : List ℕ) (i v : ℕ) → i + length pending ≤ v → leaf pending i v ≡ 0
leaf_after [] i v h = refl
leaf_after (c ∷ pending) i v h =
    let rest = leaf_after pending (suc i) v (omega arith) in ground arith

pub leaf_at :
    (pending : List ℕ) (i k : ℕ)
    → k < length pending
    → leaf pending i (i + k) ≡ (if get_or pending k 0 == 0 then 1 else 0)
leaf_at [] i k h = absurd (omega arith)
leaf_at (c ∷ pending) i zero h =
    let rest = leaf_before pending (suc i) (i + 0) (omega arith) in ground arith
leaf_at (c ∷ pending) i (suc k) h =
    let shift : suc i + k ≡ i + suc k = omega arith in
    let rest =
      subst (λ v. leaf pending (suc i) v ≡ (if get_or pending k 0 == 0 then 1 else 0)) shift
        (leaf_at pending (suc i) k (omega arith)) in
    let other = mark_shift (i + suc k) i (suc k) refl (omega arith) in ground arith
