-- ===== src/Etree/Entries.antt =====
-- solver/src/etree.cpp: the reads of the input arrays succeed within their ends, and what they give.
use opt_solver.Base.{
  ℕ, zero, suc, ◌+◌, ◌-◌, ◌≤◌, ◌<◌, ◌≡◌, refl, sym, ap, subst, ◌∙◌, List, [], ◌∷◌, get_elem?,
  get_or, Option, some, arith, ℕ_discrete, some_inj,
}
use opt_solver.Base.Ints.{ℤ, pos, pos_part, difference, pos_inj}
use opt_solver.Matrix.Csc.{◌>>=◌}
use opt_solver.Etree.{index_of, read_places, read_row, read_rows, nth_row}
use mathlib.Core.List.{Memᴰ}
use mathlib.Core.List.Memᴰ.{head, tail}

-- ptr[k]
abbrev pub start : List ℤ → ℕ → ℕ
start ptr k = pos_part (get_or ptr k (pos 0))

-- The pointers 0 to n and the indices that they reach are there and not negative.
pub record IsArrays (n : ℕ) (ptr idx : List ℤ) : Type 0 where
  pub pointers : (k : ℕ) → k ≤ n → get_elem? ptr k ≡ some (pos (start ptr k))
  pub indices :
      (k p : ℕ)
      → k < n
      → start ptr k ≤ p
      → p < start ptr (suc k)
      → (r : ℕ) × (get_elem? idx p ≡ some (pos r))

-- r stands between the pointers of k.
abbrev pub IsEntry : List ℤ → List ℤ → ℕ → ℕ → Type 0
IsEntry ptr idx k r =
    (p : ℕ) × (start ptr k ≤ p) × (p < start ptr (suc k)) × (get_elem? idx p ≡ some (pos r))

-- The list holds what has the property.
abbrev pub IsListed : (ℕ → Type 0) → List ℕ → Type 0
IsListed e l = ((r : ℕ) → Memᴰ r l → e r) × ((r : ℕ) → e r → Memᴰ r l)

abbrev IsAt : List ℤ → ℕ → ℕ → ℕ → Type 0
IsAt idx p rounds r = (i : ℕ) × (p ≤ i) × (i < p + rounds) × (get_elem? idx i ≡ some (pos r))

IsAt-cons :
    (idx : List ℤ) (p rounds c : ℕ) (rest : List ℕ)
    → get_elem? idx p ≡ some (pos c)
    → IsListed (IsAt idx (suc p) rounds) rest
    → IsListed (IsAt idx p (suc rounds)) (c ∷ rest)
IsAt-cons idx p rounds c rest e (to, from) = (there, back)
  where
    there : (r : ℕ) → Memᴰ r (c ∷ rest) → IsAt idx p (suc rounds) r
    there r (head q) = (p, omega arith, omega arith, e ∙ ap (λ z. some (pos z)) (sym q))
    there r (tail m) =
        let (i, lo, hi, g) : IsAt idx (suc p) rounds r = to r m in (i, omega arith, omega arith, g)

    back : (r : ℕ) → IsAt idx p (suc rounds) r → Memᴰ r (c ∷ rest)
    back r (i, lo, hi, g) = elim (ℕ_discrete i p) [
      | yes q ↦ head (pos_inj (some_inj (sym g ∙ ap (get_elem? idx) q ∙ e)))
      | no ne ↦ tail (from r (i, omega arith, omega arith, g))
    ]

read_places-IsAt :
    (idx : List ℤ) (rounds p : ℕ)
    → ((i : ℕ) → p ≤ i → i < p + rounds → (r : ℕ) × (get_elem? idx i ≡ some (pos r)))
    → (l : List ℕ) × (read_places idx rounds (pos p) ≡ some l) × IsListed (IsAt idx p rounds) l
unfolding read_places
read_places-IsAt idx zero p h =
    ([], refl, (λ r m. elim m [ ], λ r (i, lo, hi, g). absurd (omega arith)))
read_places-IsAt idx (suc rounds) p h =
    let (c, e) = h p (omega arith) (omega arith) in
    let (rest, g, q) =
      read_places-IsAt idx rounds (suc p) (λ i lo hi. h i (omega arith) (omega arith)) in
    (
      c ∷ rest,
      ap
            (λ o. o >>= (λ c.
              index_of c
              >>= (λ r. read_places idx rounds (pos (suc p)) >>= (λ rest. some (r ∷ rest)))))
            e
          ∙ ap (λ o. o >>= (λ rest. some (c ∷ rest))) g,
      IsAt-cons idx p rounds c rest e q,
    )

pub read_row-IsEntry :
    {n : ℕ} {ptr idx : List ℤ}
    → IsArrays n ptr idx
    → (k : ℕ) → k < n
    → (l : List ℕ) × (read_row ptr idx k ≡ some l) × IsListed (IsEntry ptr idx k) l
unfolding read_row
read_row-IsEntry {ptr} {idx} a k lt =
    let lo = start ptr k in
    let hi = start ptr (suc k) in
    let (l, e, (to, from)) =
      read_places-IsAt idx (difference (pos hi) (pos lo)) lo
        (λ i s t. a.indices k i lt s (omega arith)) in
    (
      l,
      ap
            (λ o.
              o >>= (λ lo. get_elem? ptr (suc k) >>= (λ hi. read_places idx (difference hi lo) lo)))
            (a.pointers k (omega arith))
          ∙ ap (λ o. o >>= (λ hi. read_places idx (difference hi (pos lo)) (pos lo)))
              (a.pointers (suc k) (omega arith))
          ∙ e,
      (
        λ r m.
            let (i, s, t, g) : IsAt idx lo (difference (pos hi) (pos lo)) r = to r m in
            (i, s, omega arith, g),
        λ r (i, s, t, g). from r (i, s, omega arith, g),
      ),
    )

module _ (row : ℕ → Option (List ℕ)) (wanted : ℕ → List ℕ → Type 0) where
  pub read_rows_lem :
      (count j : ℕ)
      → ((k : ℕ) → j ≤ k → k < j + count → (l : List ℕ) × (row k ≡ some l) × wanted k l)
      → (ls : List (List ℕ)) × (read_rows row j count ≡ some ls)
        × ((k : ℕ) → j ≤ k → k < j + count → wanted k (nth_row ls (k - j)))
  unfolding read_rows
  read_rows_lem zero j h = ([], refl, λ k lo hi. absurd (omega arith))
  read_rows_lem (suc count) j h =
      let (l, e, w) = h j (omega arith) (omega arith) in
      let (ls, g, q) = read_rows_lem count (suc j) (λ k lo hi. h k (omega arith) (omega arith)) in
      (
        l ∷ ls,
        ap (λ o. o >>= (λ r. read_rows row (suc j) count >>= (λ rest. some (r ∷ rest)))) e
            ∙ ap (λ o. o >>= (λ rest. some (l ∷ rest))) g,
        λ k lo hi. elim (ℕ_discrete k j) [
          | yes same ↦
              subst (λ z. wanted z (nth_row (l ∷ ls) (z - j))) (sym same)
                (subst (λ z. wanted j (nth_row (l ∷ ls) z)) {x = 0} (omega arith) w)
          | no ne ↦
              subst (λ z. wanted k (nth_row (l ∷ ls) z)) {x = suc (k - suc j)} (omega arith)
                (q k (omega arith) (omega arith))
        ],
      )

  pub read_rows_all :
      (n : ℕ)
      → ((k : ℕ) → k < n → (l : List ℕ) × (row k ≡ some l) × wanted k l)
      → (ls : List (List ℕ)) × (read_rows row 0 n ≡ some ls)
        × ((k : ℕ) → k < n → wanted k (nth_row ls k))
  read_rows_all n h =
      let (ls, e, q) = read_rows_lem n 0 (λ k lo hi. h k (omega arith)) in
      (
        ls,
        e,
        λ k lt.
            subst (λ z. wanted k (nth_row ls z)) {x = k - 0} (omega arith)
              (q k (omega arith) (omega arith)),
      )
