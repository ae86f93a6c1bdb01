-- ===== src/Bucket/Counts.antt =====
-- What the two passes of the counting sort count: bucket sizes and their prefix sums.
use opt_solver.Base.{
  ℕ, zero, suc, ◌+◌, ◌<◌, ◌≡◌, ◌≢◌, refl, sym, ap, subst, ◌∙◌, List, [], ◌∷◌, ◌++◌, length, get_or,
  set, arith, length-append, length-set, get_or-set,
}
use opt_solver.Bucket.{bucket, counts, prefix_sums}

pub length-prefix_sums :
    (start : ℕ) (count : List ℕ) → length (prefix_sums start count) ≡ suc (length count)
unfolding prefix_sums
length-prefix_sums start [] = refl
length-prefix_sums start (c ∷ count) = ap suc (length-prefix_sums (start + c) count)

pub prefix_sums-zero : (start : ℕ) (count : List ℕ) → get_or (prefix_sums start count) 0 0 ≡ start
unfolding prefix_sums
prefix_sums-zero start [] = refl
prefix_sums-zero start (c ∷ count) = refl

pub prefix_sums-suc :
    (start : ℕ) (count : List ℕ) (j : ℕ)
    → j < length count
    → get_or (prefix_sums start count) (suc j) 0
      ≡ get_or (prefix_sums start count) j 0 + get_or count j 0
unfolding prefix_sums
prefix_sums-suc start [] j h = absurd (omega arith)
prefix_sums-suc start (c ∷ count) zero h = prefix_sums-zero (start + c) count
prefix_sums-suc start (c ∷ count) (suc j) h = prefix_sums-suc (start + c) count j (omega arith)

-- Every key is a bucket's number.
abbrev pub KeysBelow : {A : Type 0} → (A → ℕ) → ℕ → List A → Type 0
KeysBelow key n [] = Unit
KeysBelow key n (x ∷ xs) = (key x < n) × KeysBelow key n xs

module _ {A : Type 0} (key : A → ℕ) where
  pub length-counts : (xs : List A) (count : List ℕ) → length (counts key xs count) ≡ length count
  unfolding counts
  length-counts [] count = refl
  length-counts (x ∷ xs) count = length-counts xs _ ∙ length-set count (key x) _

  pub get_or-counts :
      (xs : List A) (count : List ℕ) (j : ℕ)
      → KeysBelow key (length count) xs
      → get_or (counts key xs count) j 0 ≡ get_or count j 0 + length (bucket key j xs)
  unfolding counts bucket
  get_or-counts [] count j h = omega arith
  get_or-counts (x ∷ xs) count j h =
      let count' = set count (key x) (get_or count (key x) 0 + 1) in
      let keys : KeysBelow key (length count') xs =
        subst (λ k. KeysBelow key k xs) (sym (length-set count (key x) _)) h.1 in
      ground (
        arith,
        get_or-counts xs count' j keys,
        get_or-set count (key x) j (get_or count (key x) 0 + 1) 0 h.0,
      )

  pub bucket-append :
      (xs ys : List A) (j : ℕ) → bucket key j (xs ++ ys) ≡ bucket key j xs ++ bucket key j ys
  unfolding bucket
  bucket-append [] ys j = refl
  bucket-append (x ∷ xs) ys j = ground (arith, bucket-append xs ys j)

  pub bucket_self : (x : A) → bucket key (key x) (x ∷ []) ≡ x ∷ []
  unfolding bucket
  bucket_self x = ground arith

  pub bucket_ne : (x : A) (j : ℕ) → key x ≢ j → bucket key j (x ∷ []) ≡ []
  unfolding bucket
  bucket_ne x j h = ground arith

  -- The length of bucket j.
  abbrev pub size : List A → ℕ → ℕ
  size xs j = length (bucket key j xs)

  pub size-split :
      (xs : List A) (x : A) (ys : List A)
      → size (xs ++ x ∷ ys) (key x) ≡ suc (size xs (key x) + size ys (key x))
  unfolding bucket
  size-split xs x ys = ground (
    arith,
    ap length (bucket-append xs (x ∷ ys) (key x)),
    length-append (bucket key (key x) xs) (x ∷ bucket key (key x) ys),
  )

  pub size-append : (xs ys : List A) (j : ℕ) → size (xs ++ ys) j ≡ size xs j + size ys j
  size-append xs ys j =
      ap length (bucket-append xs ys j) ∙ length-append (bucket key j xs) (bucket key j ys)

  pub KeysBelow-append : (n : ℕ) (xs ys : List A) → KeysBelow key n (xs ++ ys) → KeysBelow key n ys
  KeysBelow-append n [] ys h = h
  KeysBelow-append n (x ∷ xs) ys h = KeysBelow-append n xs ys h.1
