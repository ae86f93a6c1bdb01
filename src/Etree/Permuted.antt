-- ===== src/Etree/Permuted.antt =====
-- solver/src/etree.cpp: etree_from_adjacency gives the tree of the permuted graph.
use opt_solver.Base.{
  ℕ, ◌<◌, ◌≡◌, refl, sym, ap, subst, ◌∙◌, inl, inr, List, [], ◌∷◌, get_elem?, some, arith, some_inj,
}
use opt_solver.Base.Ints.{ℤ, pos, pos_inj}
use opt_solver.Matrix.Csc.{◌>>=◌}
use opt_solver.Etree.{
  left_of, index_of, read_row, nth_row, new_numbers, permuted_row, parents_of_rows,
  etree_from_adjacency,
}
use opt_solver.Etree.Entries.{IsArrays, IsEntry, IsListed, read_row-IsEntry, read_rows_all}
use opt_solver.Etree.Left.{left_of-IsLeft, left_of-to, left_of-from}
use opt_solver.Etree.Laws.{IsEtree, parents_of_rows-IsEtree}
use mathlib.Core.List.{Memᴰ}
use mathlib.Core.List.Memᴰ
use mathlib.Core.List.Memᴰ.{head, tail}

-- perm and iperm are inverse to each other below n.
pub record IsPermutation (n : ℕ) (perm iperm : List ℤ) : Type 0 where
  pub old :
      (k : ℕ)
      → k < n
      → (v : ℕ) × (v < n) × (get_elem? perm k ≡ some (pos v)) × (get_elem? iperm v ≡ some (pos k))
  pub new :
      (v : ℕ)
      → v < n
      → (k : ℕ) × (k < n) × (get_elem? perm k ≡ some (pos v)) × (get_elem? iperm v ≡ some (pos k))

-- Left of the diagonal, the old vertices of k and r are neighbours.
abbrev pub IsEdge : List ℤ → List ℤ → List ℤ → ℕ → ℕ → Type 0
IsEdge xadj adj perm k r =
    (r < k)
    × ((v : ℕ) × ((w : ℕ) × (get_elem? perm k ≡ some (pos v))
          × (get_elem? perm r ≡ some (pos w))
          × IsEntry xadj adj v w))

read_same :
    (xs : List ℤ) (i : ℕ) {a b : ℕ}
    → get_elem? xs i ≡ some (pos a)
    → get_elem? xs i ≡ some (pos b)
    → a ≡ b
read_same xs i e f = pos_inj (some_inj (sym e ∙ f))

abbrev IsNumber : List ℤ → List ℕ → ℕ → Type 0
IsNumber iperm vs r = (w : ℕ) × Memᴰ w vs × (get_elem? iperm w ≡ some (pos r))

IsNumber-cons :
    (iperm : List ℤ) (v r : ℕ) (vs rs : List ℕ)
    → get_elem? iperm v ≡ some (pos r)
    → IsListed (IsNumber iperm vs) rs
    → IsListed (IsNumber iperm (v ∷ vs)) (r ∷ rs)
IsNumber-cons iperm v r vs rs e (to, from) = (there, back)
  where
    there : (x : ℕ) → Memᴰ x (r ∷ rs) → IsNumber iperm (v ∷ vs) x
    there x (head q) = (v, head refl, e ∙ ap (λ z. some (pos z)) (sym q))
    there x (tail m) = let (w, m', g) : IsNumber iperm vs x = to x m in (w, tail m', g)

    back : (x : ℕ) → IsNumber iperm (v ∷ vs) x → Memᴰ x (r ∷ rs)
    back x (w, m, g) = elim (Memᴰ.cases_cons m) [
      | inl q ↦ head (read_same iperm w g (ap (get_elem? iperm) q ∙ e))
      | inr m' ↦ tail (from x (w, m', g))
    ]

new_numbers-IsNumber :
    (iperm : List ℤ) (vs : List ℕ)
    → ((v : ℕ) → Memᴰ v vs → (r : ℕ) × (get_elem? iperm v ≡ some (pos r)))
    → (rs : List ℕ) × (new_numbers iperm vs ≡ some rs) × IsListed (IsNumber iperm vs) rs
unfolding new_numbers
new_numbers-IsNumber iperm [] h = ([], refl, (λ r m. elim m [ ], λ r (w, m, g). elim m [ ]))
new_numbers-IsNumber iperm (v ∷ vs) h =
    let (r, e) = h v (head refl) in
    let (rs, g, q) = new_numbers-IsNumber iperm vs (λ w m. h w (tail m)) in
    (
      r ∷ rs,
      ap
            (λ o.
              o >>= (λ z. index_of z >>= (λ r. new_numbers iperm vs >>= (λ rest. some (r ∷ rest)))))
            e
          ∙ ap (λ o. o >>= (λ rest. some (r ∷ rest))) g,
      IsNumber-cons iperm v r vs rs e q,
    )

module _ {n : ℕ} {xadj adj perm iperm : List ℤ} (a : IsArrays n xadj adj)
    (p : IsPermutation n perm iperm)
    (within : (v w : ℕ) → v < n → IsEntry xadj adj v w → w < n) where
  IsEdge-left_of :
      (k v : ℕ) (ns rs : List ℕ)
      → k < n
      → v < n
      → get_elem? perm k ≡ some (pos v)
      → IsListed (IsEntry xadj adj v) ns
      → IsListed (IsNumber iperm ns) rs
      → IsListed (IsEdge xadj adj perm k) (left_of k rs)
  IsEdge-left_of k v ns rs lt inside e (to, from) (to', from') = (there, back)
    where
      there : (r : ℕ) → Memᴰ r (left_of k rs) → IsEdge xadj adj perm k r
      there r m =
          let m' = left_of-to k rs r m in
          let less = left_of-IsLeft k rs r m in
          let (w, at, g) : IsNumber iperm ns r = to' r m' in
          let (r', below, there', back') = p.new w (within v w inside (to w at)) in
          (
            less,
            (
              v,
              (
                w,
                e,
                subst (λ z. get_elem? perm z ≡ some (pos w)) (read_same iperm w back' g) there',
                to w at,
              ),
            ),
          )

      back : (r : ℕ) → IsEdge xadj adj perm k r → Memᴰ r (left_of k rs)
      back r (less, (v', (w, e', g, entry))) =
          let same : v' ≡ v = read_same perm k e' e in
          let (u, below, there', back') = p.old r (omega arith) in
          let old : u ≡ w = read_same perm r there' g in
          left_of-from k rs r less (
            from' r (
              w,
              from w (subst (λ z. IsEntry xadj adj z w) same entry),
              subst (λ z. get_elem? iperm z ≡ some (pos r)) old back',
            ))

  permuted_row-IsEdge :
      (k : ℕ)
      → k < n
      → (l : List ℕ) × (permuted_row xadj adj perm iperm k ≡ some l)
        × IsListed (IsEdge xadj adj perm k) l
  unfolding permuted_row
  permuted_row-IsEdge k lt =
      let (v, inside, e, e') = p.old k lt in
      let (ns, g, q) = read_row-IsEntry a v inside in
      let (rs, g', q') = new_numbers-IsNumber iperm ns (λ w m.
        let (r, below, there', back') = p.new w (within v w inside (q.0 w m)) in (r, back')) in
      (
        left_of k rs,
        ap
              (λ o. o >>= (λ z. index_of z >>= (λ v.
                read_row xadj adj v
                >>= (λ ns. new_numbers iperm ns >>= (λ rs. some (left_of k rs))))))
              e
            ∙ ap (λ o. o >>= (λ ns. new_numbers iperm ns >>= (λ rs. some (left_of k rs)))) g
            ∙ ap (λ o. o >>= (λ rs. some (left_of k rs))) g',
        IsEdge-left_of k v ns rs lt inside e q q',
      )

-- For a graph on n vertices whose arrays are there and whose neighbours are vertices, and a permutation with its
-- inverse, etree_from_adjacency returns: the parent of s is the first vertex after s, in the new order, that has a
-- neighbour before it in the subtree of s, and a root has no such vertex.
pub etree_from_adjacency-IsEtree :
    (n : ℕ) (xadj adj perm iperm : List ℤ)
    → IsArrays n xadj adj
    → ((v w : ℕ) → v < n → IsEntry xadj adj v w → w < n)
    → IsPermutation n perm iperm
    → (parent : List ℤ) × (etree_from_adjacency n xadj adj perm iperm ≡ some parent)
      × IsEtree n (IsEdge xadj adj perm) parent
unfolding etree_from_adjacency
etree_from_adjacency-IsEtree n xadj adj perm iperm a within p =
    let (rows, e, q) =
      read_rows_all (permuted_row xadj adj perm iperm) (λ k l. IsListed (IsEdge xadj adj perm k) l)
        n (permuted_row-IsEdge a p within) in
    let (parent, g, t) =
      parents_of_rows-IsEtree n (nth_row rows) (IsEdge xadj adj perm)
        (λ k lt r m. ((q k lt).0 r m).0) q in
    (parent, ap (λ o. o >>= (λ rows. parents_of_rows n (nth_row rows))) e ∙ g, t)
