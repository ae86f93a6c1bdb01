-- ===== src/Etree/Column.antt =====
-- solver/src/etree.cpp: the entries off the diagonal of the columns, and the rows made of them, by membership.
use opt_solver.Base.{
  ℕ, zero, suc, ◌+◌, ◌-◌, ◌≤◌, ◌<◌, ◌≡◌, ◌≢◌, refl, sym, ap, subst, ◌∙◌, ◌⊎◌, inl, inr, List, [],
  ◌∷◌, map, ◌==◌, slice, arith, if_both, ℕ_discrete, take, drop,
}
use opt_solver.Etree.{Offdiag, column_offdiag, offdiag_from}
use opt_solver.Bucket.{bucket}
use opt_solver.Bucket.Counts.{KeysBelow}
use mathlib.Core.List.{Memᴰ}
use mathlib.Core.List.Memᴰ.{head, tail}

module _ {A B : Type 0} (f : A → B) where
  map-take : (n : ℕ) (xs : List A) → take n (map f xs) ≡ map f (take n xs)
  map-take zero xs = refl
  map-take (suc n) [] = refl
  map-take (suc n) (x ∷ xs) = ap (λ l. f x ∷ l) (map-take n xs)

  map-drop : (n : ℕ) (xs : List A) → drop n (map f xs) ≡ map f (drop n xs)
  map-drop zero xs = refl
  map-drop (suc n) [] = refl
  map-drop (suc n) (x ∷ xs) = map-drop n xs

  pub map-slice : (lo hi : ℕ) (xs : List A) → slice lo hi (map f xs) ≡ map f (slice lo hi xs)
  map-slice lo hi xs = ap (take (hi - lo)) (map-drop lo xs) ∙ map-take (hi - lo) (drop lo xs)

module _ {A : Type 0} (key : A → ℕ) where
  pub KeysBelow-all : (n : ℕ) (xs : List A) → ((x : A) → Memᴰ x xs → key x < n) → KeysBelow key n xs
  KeysBelow-all n [] h = tt
  KeysBelow-all n (x ∷ xs) h = (h x (head refl), KeysBelow-all n xs (λ y m. h y (tail m)))

  -- An item of a bucket is an item with its key, and the other way round.
  abbrev IsBucket : ℕ → List A → List A → Type 0
  IsBucket j xs got =
      ((x : A) → Memᴰ x got → Memᴰ x xs × (key x ≡ j))
      × ((x : A) → Memᴰ x xs → key x ≡ j → Memᴰ x got)

  IsBucket-take :
      (j : ℕ) (x : A) (xs got : List A)
      → key x ≡ j
      → IsBucket j xs got
      → IsBucket j (x ∷ xs) (x ∷ got)
  IsBucket-take j x xs got e (to, from) = (there, back)
    where
      there : (y : A) → Memᴰ y (x ∷ got) → Memᴰ y (x ∷ xs) × (key y ≡ j)
      there y (head q) = (head q, ap key q ∙ e)
      there y (tail m) = let (m', e') = to y m in (tail m', e')

      back : (y : A) → Memᴰ y (x ∷ xs) → key y ≡ j → Memᴰ y (x ∷ got)
      back y (head q) e' = head q
      back y (tail m) e' = tail (from y m e')

  IsBucket-skip :
      (j : ℕ) (x : A) (xs got : List A) → key x ≢ j → IsBucket j xs got → IsBucket j (x ∷ xs) got
  IsBucket-skip j x xs got ne (to, from) = (there, back)
    where
      there : (y : A) → Memᴰ y got → Memᴰ y (x ∷ xs) × (key y ≡ j)
      there y m = let (m', e') = to y m in (tail m', e')

      back : (y : A) → Memᴰ y (x ∷ xs) → key y ≡ j → Memᴰ y got
      back y (head q) e' = absurd (ne (sym (ap key q) ∙ e'))
      back y (tail m) e' = from y m e'

  pub bucket-IsBucket : (j : ℕ) (xs : List A) → IsBucket j xs (bucket key j xs)
  unfolding bucket
  bucket-IsBucket j [] = (λ x m. elim m [ ], λ x m e. m)
  bucket-IsBucket j (x ∷ xs) =
      let rest : IsBucket j xs (bucket key j xs) = bucket-IsBucket j xs in
      if_both (IsBucket j (x ∷ xs)) (key x == j) (x ∷ bucket key j xs) (bucket key j xs)
        (λ e. IsBucket-take j x xs _ (ground arith) rest)
        (λ e. IsBucket-skip j x xs _ (ground arith) rest)

abbrev pub off : ℕ → ℕ → Offdiag
off i j = record { row = i; col = j }

-- The entries off the diagonal of column j, and those of the later columns.
abbrev IsColumn : ℕ → List ℕ → List Offdiag → List Offdiag → Type 0
IsColumn j is rest got =
    ((e : Offdiag) → Memᴰ e got → Memᴰ e rest ⊎ ((e.col ≡ j) × Memᴰ e.row is × (e.row ≢ j)))
    × ((e : Offdiag) → Memᴰ e rest → Memᴰ e got)
    × ((i : ℕ) → Memᴰ i is → i ≢ j → Memᴰ (off i j) got)

IsColumn-take :
    (j i : ℕ) (is : List ℕ) (rest more : List Offdiag)
    → i ≢ j
    → IsColumn j is rest more
    → IsColumn j (i ∷ is) rest (off i j ∷ more)
IsColumn-take j i is rest more ne (to, later, from) = (there, λ e m. tail (later e m), back)
  where
    there :
        (e : Offdiag)
        → Memᴰ e (off i j ∷ more)
        → Memᴰ e rest ⊎ ((e.col ≡ j) × Memᴰ e.row (i ∷ is) × (e.row ≢ j))
    there e (head q) = inr (
      ap (λ (x : Offdiag). x.col) q,
      head (ap (λ (x : Offdiag). x.row) q),
      λ g. ne (sym (ap (λ (x : Offdiag). x.row) q) ∙ g),
    )
    there e (tail m) = elim (to e m) [ inl old ↦ inl old | inr (c, m', g) ↦ inr (c, tail m', g) ]

    back : (i' : ℕ) → Memᴰ i' (i ∷ is) → i' ≢ j → Memᴰ (off i' j) (off i j ∷ more)
    back i' (head q) g = head (ap (λ z. off z j) q)
    back i' (tail m) g = tail (from i' m g)

IsColumn-skip :
    (j i : ℕ) (is : List ℕ) (rest more : List Offdiag)
    → i ≡ j
    → IsColumn j is rest more
    → IsColumn j (i ∷ is) rest more
IsColumn-skip j i is rest more q (to, later, from) = (there, later, back)
  where
    there :
        (e : Offdiag)
        → Memᴰ e more
        → Memᴰ e rest ⊎ ((e.col ≡ j) × Memᴰ e.row (i ∷ is) × (e.row ≢ j))
    there e m = elim (to e m) [ inl old ↦ inl old | inr (c, m', g) ↦ inr (c, tail m', g) ]

    back : (i' : ℕ) → Memᴰ i' (i ∷ is) → i' ≢ j → Memᴰ (off i' j) more
    back i' (head q') g = absurd (g (q' ∙ q))
    back i' (tail m) g = from i' m g

column_offdiag-IsColumn :
    (j : ℕ) (is : List ℕ) (rest : List Offdiag) → IsColumn j is rest (column_offdiag j is rest)
unfolding column_offdiag
column_offdiag-IsColumn j [] rest = (λ e m. inl m, λ e m. m, λ i m g. elim m [ ])
column_offdiag-IsColumn j (i ∷ is) rest =
    let more : IsColumn j is rest (column_offdiag j is rest) = column_offdiag-IsColumn j is rest in
    if_both (IsColumn j (i ∷ is) rest) (i == j) (column_offdiag j is rest)
      (off i j ∷ column_offdiag j is rest) (λ e. IsColumn-skip j i is rest _ (ground arith) more)
      (λ e. IsColumn-take j i is rest _ (ground arith) more)

module _ (column : ℕ → List ℕ) where
  pub offdiag_from-to :
      (j count : ℕ) (e : Offdiag)
      → Memᴰ e (offdiag_from column j count)
      → (e.col < j + count) × Memᴰ e.row (column e.col) × (e.row ≢ e.col)
  unfolding offdiag_from
  offdiag_from-to j zero e m = elim m [ ]
  offdiag_from-to j (suc count) e m =
      let (to, later, from) =
        column_offdiag-IsColumn j (column j) (offdiag_from column (suc j) count) in
      elim (to e m) [
        | inl old ↦ let (lt, m', g) = offdiag_from-to (suc j) count e old in (omega arith, m', g)
        | inr (c, m', g) ↦
            (omega arith, subst (λ z. Memᴰ e.row (column z)) (sym c) m', λ q. g (q ∙ c))
      ]

  pub offdiag_from-from :
      (j count r i : ℕ)
      → j ≤ r
      → r < j + count
      → Memᴰ i (column r)
      → i ≢ r
      → Memᴰ (off i r) (offdiag_from column j count)
  unfolding offdiag_from
  offdiag_from-from j zero r i le lt m g = absurd (omega arith)
  offdiag_from-from j (suc count) r i le lt m g =
      let (to, later, from) =
        column_offdiag-IsColumn j (column j) (offdiag_from column (suc j) count) in
      elim (ℕ_discrete r j) [
        | yes q ↦
            subst
              (λ z.
                Memᴰ (off i z) (column_offdiag j (column j) (offdiag_from column (suc j) count)))
              (sym q) (from i (subst (λ z. Memᴰ i (column z)) q m) (λ h. g (h ∙ sym q)))
        | no ne ↦
            later (off i r) (offdiag_from-from (suc j) count r i (omega arith) (omega arith) m g)
      ]
