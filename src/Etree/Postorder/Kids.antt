-- ===== src/Etree/Postorder/Kids.antt =====
-- solver/src/etree.cpp: the children of a node, in ascending order.
use opt_solver.Base.{
  ℕ, zero, suc, ◌+◌, ◌≤◌, ◌<◌, ◌≡◌, refl, sym, ap, subst, ◌∙◌, inl, inr, Bool, true, false, List,
  ◌∷◌, ◌==◌, length, get_or, ◌&&◌, arith, if_both, if_true, if_false, ℕ_discrete, Bool-cases,
  get_or-slice,
}
use opt_solver.Base.Ints.{ℤ, pos, negsuc}
use opt_solver.Bucket.{bucket}
use opt_solver.Etree.{row_slice}
use opt_solver.Bucket.Counts.{KeysBelow}
use opt_solver.Bucket.Laws.{slice-sort_by_key, bucket_ptr-suc}
use opt_solver.Etree.Path.{above, IsRising}
use opt_solver.Etree.Column.{KeysBelow-all}
use opt_solver.Etree.Postorder.{nodes_where, has_parent, parent_of, ch_start, children}
use mathlib.Core.List.{Memᴰ}
use mathlib.Core.List.Memᴰ
use mathlib.Core.List.Memᴰ.{head, tail}

-- The parents of a forest on n nodes: greater than the node, and -1 for a root.
pub record IsParents (n : ℕ) (parent : List ℤ) : Type 0 where
  pub wide : length parent ≡ n
  pub rising : IsRising parent
  pub bounded : (r t : ℕ) → above parent r ≡ pos t → t < n
  pub unset : (r m : ℕ) → above parent r ≡ negsuc m → m ≡ 0

pub nodes_where-to :
    (test : ℕ → Bool) (j count x : ℕ)
    → Memᴰ x (nodes_where test j count)
    → (test x ≡ true) × (x < j + count)
unfolding nodes_where
nodes_where-to test j zero x m = elim m [ ]
nodes_where-to test j (suc count) x m = elim (Bool-cases (test j)) [
  | inl e ↦ elim (Memᴰ.cases_cons (subst (Memᴰ x) (if_true (test j) _ _ e) m)) [
    | inl q ↦ (ap test q ∙ e, omega arith)
    | inr m' ↦ let (h, lt) = nodes_where-to test (suc j) count x m' in (h, omega arith)
  ]
  | inr e ↦
      let (h, lt) =
        nodes_where-to test (suc j) count x (subst (Memᴰ x) (if_false (test j) _ _ e) m) in
      (h, omega arith)
]

nodes_where-from :
    (test : ℕ → Bool) (j count x : ℕ)
    → test x ≡ true
    → j ≤ x
    → x < j + count
    → Memᴰ x (nodes_where test j count)
unfolding nodes_where
nodes_where-from test j zero x h le lt = absurd (omega arith)
nodes_where-from test j (suc count) x h le lt =
    let rest = nodes_where test (suc j) count in
    let later : j < x → Memᴰ x rest =
      λ less. nodes_where-from test (suc j) count x h less (omega arith) in
    if_both (Memᴰ x) (test j) (j ∷ rest) rest
      (λ e. elim (ℕ_discrete x j) [ yes q ↦ head q | no ne ↦ tail (later (omega arith)) ])
      (λ e. elim (ℕ_discrete x j) [
        | yes q ↦ absurd (ground (arith, ap test q))
        | no ne ↦ later (omega arith)
      ])

abbrev pub is_child : List ℤ → ℕ → ℕ → Bool
is_child parent v j = elim (above parent j) [ pos t ↦ t == v | negsuc m ↦ false ]

abbrev pub kids : ℕ → List ℤ → ℕ → List ℕ
kids n parent v = nodes_where (is_child parent v) 0 n

pub is_child-pos : (parent : List ℤ) (v j : ℕ) → is_child parent v j ≡ true → above parent j ≡ pos v
is_child-pos parent v j h = ground arith

has_parent-pos :
    (parent : List ℤ) (j : ℕ)
    → has_parent parent j ≡ true
    → above parent j ≡ pos (parent_of parent j)
has_parent-pos parent j h = ground arith

-- Whether a node is a child of v, by the two tests of the sort.
is_child_lem :
    (parent : List ℤ) (v j : ℕ)
    → is_child parent v j ≡ (has_parent parent j && parent_of parent j == v)
is_child_lem parent v j = ground arith

module _ (parent : List ℤ) (v : ℕ) where
  bucket-nodes_where :
      (j count : ℕ)
      → bucket (parent_of parent) v (nodes_where (has_parent parent) j count)
        ≡ nodes_where (is_child parent v) j count
  unfolding nodes_where bucket
  bucket-nodes_where j zero = refl
  bucket-nodes_where j (suc count) =
      let rest = bucket-nodes_where (suc j) count in
      let same = is_child_lem parent v j in
      elim (Bool-cases (has_parent parent j)) [
        | inl e ↦ ground (arith, rest)
        | inr e ↦ ground (arith, rest)
      ]

module _ {n : ℕ} {parent : List ℤ} (f : IsParents n parent) where
  pub kids-to : (v x : ℕ) → Memᴰ x (kids n parent v) → above parent x ≡ pos v
  kids-to v x m = is_child-pos parent v x (nodes_where-to (is_child parent v) 0 n x m).0

  pub kids-from : (v x : ℕ) → above parent x ≡ pos v → Memᴰ x (kids n parent v)
  kids-from v x e =
      nodes_where-from (is_child parent v) 0 n x (ground arith) (omega arith)
        (omega (arith, f.rising x v e, f.bounded x v e))

  keys : KeysBelow (parent_of parent) n (nodes_where (has_parent parent) 0 n)
  keys = KeysBelow-all (parent_of parent) n (nodes_where (has_parent parent) 0 n) (λ x m.
      f.bounded x (parent_of parent x)
        (has_parent-pos parent x (nodes_where-to (has_parent parent) 0 n x m).0))

  -- The children between the starts of v and of the next node are the nodes with parent v.
  pub children-kids :
      (v : ℕ) → v < n → row_slice (ch_start n parent) (children n parent) v ≡ kids n parent v
  unfolding ch_start children
  children-kids v lt =
      slice-sort_by_key (parent_of parent) n (nodes_where (has_parent parent) 0 n) keys 0 v lt
      ∙ bucket-nodes_where parent v 0 n

  -- As many places as children.
  pub ch_start-suc :
      (v : ℕ)
      → v < n
      → get_or (ch_start n parent) (suc v) 0
        ≡ get_or (ch_start n parent) v 0 + length (kids n parent v)
  unfolding ch_start
  ch_start-suc v lt =
      let next =
        bucket_ptr-suc (parent_of parent) n (nodes_where (has_parent parent) 0 n) keys v lt in
      let size = ap length (bucket-nodes_where parent v 0 n) in omega arith

  pub children-child :
      (v c : ℕ)
      → v < n
      → c < length (kids n parent v)
      → get_or (children n parent) (get_or (ch_start n parent) v 0 + c) 0
        ≡ get_or (kids n parent v) c 0
  children-child v c lt inside =
      let room = ch_start-suc v lt in
      sym (
        get_or-slice (get_or (ch_start n parent) v 0) (get_or (ch_start n parent) (suc v) 0)
          (children n parent) c 0 (omega arith))
      ∙ ap (λ l. get_or l c 0) (children-kids v lt)
