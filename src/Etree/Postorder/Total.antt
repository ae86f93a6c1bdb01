-- ===== src/Etree/Postorder/Total.antt =====
-- solver/src/etree.cpp: sums over the subtrees of the roots; each node is in them once.
use opt_solver.Base.{
  concat_map, ℕ, zero, suc, ◌+◌, ◌-◌, ◌≤◌, ◌<◌, ◌≡◌, refl, ap, ◌∙◌, inl, inr, Bool, true, false,
  List, [], ◌∷◌, ◌++◌, if◌then◌else◌, arith, if_true, if_false, Bool-cases, leb,
}
use opt_solver.Base.Ints.{ℤ, pos, negsuc}
use opt_solver.Etree.Path.{ℤ-cases, above}
use opt_solver.Etree.Postorder.{nodes_where, is_root}
use opt_solver.Etree.Postorder.Kids.{IsParents, is_child, is_child-pos, kids}
use opt_solver.Etree.Postorder.Visit.{visit, visit-kids}

-- Sums over a list and over the numbers j, j + 1, ...
abbrev pub tally : (ℕ → ℕ) → List ℕ → ℕ
tally w [] = 0
tally w (x ∷ xs) = w x + tally w xs

abbrev pub total : (ℕ → ℕ) → ℕ → ℕ → ℕ
total g j zero = 0
total g j (suc count) = g j + total g (suc j) count

pub tally-append : (w : ℕ → ℕ) (xs ys : List ℕ) → tally w (xs ++ ys) ≡ tally w xs + tally w ys
tally-append w [] ys = omega arith
tally-append w (x ∷ xs) ys = omega (arith, tally-append w xs ys)

tally-concat_map :
    (w : ℕ → ℕ) (f : ℕ → List ℕ) (vs : List ℕ)
    → tally w (concat_map f vs) ≡ tally (λ v. tally w (f v)) vs
tally-concat_map w f [] = refl
tally-concat_map w f (v ∷ vs) =
    omega (arith, tally-append w (f v) (concat_map f vs), tally-concat_map w f vs)

abbrev only : (ℕ → Bool) → (ℕ → ℕ) → ℕ → ℕ
only test g j = if test j then g j else 0

tally-nodes_where :
    (w : ℕ → ℕ) (test : ℕ → Bool) (j count : ℕ)
    → tally w (nodes_where test j count) ≡ total (only test w) j count
unfolding nodes_where
tally-nodes_where w test j zero = refl
tally-nodes_where w test j (suc count) =
    let rest = tally-nodes_where w test (suc j) count in
    elim (Bool-cases (test j)) [ inl e ↦ ground (arith, rest) | inr e ↦ ground (arith, rest) ]

total-suc : (g : ℕ → ℕ) (j count : ℕ) → total g j (suc count) ≡ total g j count + g (j + count)
total-suc g j zero = let here : g j ≡ g (j + 0) = ap g {y = j + 0} (omega arith) in omega arith
total-suc g j (suc count) =
    let here : g (suc j + count) ≡ g (j + suc count) =
      ap g {x = suc j + count} {y = j + suc count} (omega arith) in
    let rest = total-suc g (suc j) count in omega arith

total-last : (g : ℕ → ℕ) (m : ℕ) → total g 0 (suc m) ≡ total g 0 m + g m
total-last g m = total-suc g 0 m ∙ ap (λ z. total g 0 m + g z) {x = 0 + m} {y = m} (omega arith)

total-zero :
    (g : ℕ → ℕ) (m : ℕ) → ((j : ℕ) → m ≤ j → g j ≡ 0) → (d : ℕ) → total g 0 (m + d) ≡ total g 0 m
total-zero g m h zero = ap (total g 0) {x = m + 0} {y = m} (omega arith)
total-zero g m h (suc d) =
    let more : total g 0 (m + suc d) ≡ total g 0 (suc (m + d)) =
      ap (total g 0) {y = suc (m + d)} (omega arith) in
    let last = total-suc g 0 (m + d) in
    let none_there = h (0 + (m + d)) (omega arith) in let rest = total-zero g m h d in omega arith

total-split :
    (f g h : ℕ → ℕ) (j count : ℕ)
    → ((i : ℕ) → i < j + count → f i ≡ g i + h i)
    → total f j count ≡ total g j count + total h j count
total-split f g h j zero e = refl
total-split f g h j (suc count) e =
    let first = e j (omega arith) in
    let rest = total-split f g h (suc j) count (λ i lt. e i (omega arith)) in omega arith

total-ext :
    (f g : ℕ → ℕ) (j count : ℕ)
    → ((i : ℕ) → i < j + count → f i ≡ g i)
    → total f j count ≡ total g j count
total-ext f g j count e =
    let same = total-split f g (λ i. 0) j count (λ i lt. omega (arith, e i lt)) in
    let nothing = total-nothing j count in omega arith
  where
    total-nothing : (j count : ℕ) → total (λ i. 0) j count ≡ 0
    total-nothing j zero = refl
    total-nothing j (suc count) = omega (arith, total-nothing (suc j) count)

-- The nodes whose parent is m or greater, and the roots.
abbrev outside : List ℤ → ℕ → ℕ → Bool
outside parent m j = elim (above parent j) [ pos t ↦ leb m t | negsuc i ↦ true ]

outside-split :
    (parent : List ℤ) (g : ℕ → ℕ) (m j : ℕ)
    → only (outside parent m) g j ≡ only (outside parent (suc m)) g j + only (is_child parent m) g j
outside-split parent g m j = ground arith

module _ {n : ℕ} {parent : List ℤ} (f : IsParents n parent) (w : ℕ → ℕ) where
  -- The sum over the subtree of v.
  abbrev weight : ℕ → ℕ
  weight v = tally w (visit n parent n v)

  not_child : (m j : ℕ) → m ≤ j → is_child parent m j ≡ false
  not_child m j le = elim (Bool-cases (is_child parent m j)) [
    | inl e ↦ absurd (omega (arith, f.rising j m (is_child-pos parent m j e)))
    | inr e ↦ e
  ]

  outside_self : (m : ℕ) → outside parent (suc m) m ≡ true
  outside_self m = elim (ℤ-cases (above parent m)) [
    | inl (t, e) ↦ let less = f.rising m t e in ground arith
    | inr (i, e) ↦ ground arith
  ]

  weight-kids : (m : ℕ) → m < n → weight m ≡ total (only (is_child parent m) weight) 0 m + w m
  weight-kids m lt =
      let unfolded : weight m
          ≡ tally w (concat_map (visit n parent n) (kids n parent m) ++ m ∷ []) =
        ap (tally w) (visit-kids f m lt) in
      let parts = tally-append w (concat_map (visit n parent n) (kids n parent m)) (m ∷ []) in
      let below = tally-concat_map w (visit n parent n) (kids n parent m) in
      let chosen = tally-nodes_where weight (is_child parent m) 0 n in
      let gap : total (only (is_child parent m) weight) 0 n
          ≡ total (only (is_child parent m) weight) 0 (m + (n - m)) =
        ap (total (only (is_child parent m) weight) 0) {y = m + (n - m)} (omega arith) in
      let late =
        total-zero (only (is_child parent m) weight) m (λ j le. if_false _ _ _ (not_child m j le))
          (n - m) in
      omega arith

  -- The subtrees of the nodes before m that have their parent at m or later hold the nodes before m.
  total-outside : (m : ℕ) → m ≤ n → total (only (outside parent m) weight) 0 m ≡ total w 0 m
  total-outside zero le = refl
  total-outside (suc m) le =
      let before = total-outside m (omega arith) in
      let last = total-last (only (outside parent (suc m)) weight) m in
      let self : only (outside parent (suc m)) weight m ≡ weight m =
        if_true _ _ _ (outside_self m) in
      let split =
        total-split (only (outside parent m) weight) (only (outside parent (suc m)) weight)
          (only (is_child parent m) weight) 0 m (λ j lt. outside-split parent weight m j) in
      let up = weight-kids m (omega arith) in let more = total-last w m in omega arith

  root-outside : (j : ℕ) → is_root parent j ≡ outside parent n j
  root-outside j = elim (ℤ-cases (above parent j)) [
    | inl (t, e) ↦ let less = f.bounded j t e in ground arith
    | inr (i, e) ↦ let zero_there = f.unset j i e in ground arith
  ]

  -- Over the subtrees of the roots a sum is the sum over all nodes.
  pub tally-roots :
      tally w (concat_map (visit n parent n) (nodes_where (is_root parent) 0 n)) ≡ total w 0 n
  tally-roots =
      let all = tally-concat_map w (visit n parent n) (nodes_where (is_root parent) 0 n) in
      let chosen = tally-nodes_where weight (is_root parent) 0 n in
      let same =
        total-ext (only (is_root parent) weight) (only (outside parent n) weight) 0 n
          (λ i lt. ap (λ b. if b then weight i else 0) (root-outside i)) in
      let whole = total-outside n (omega arith) in omega arith
