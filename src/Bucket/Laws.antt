-- ===== src/Bucket/Laws.antt =====
-- The counting sort puts each bucket's items, in order, between the bucket's start and the next.
use mathlib.Core.List.{append-nil, append_assoc}
use native.Mathlib.Numerals.{add-one}
use opt_solver.Base.{
  ℕ_discrete, dec_lt, ℕ, suc, ◌+◌, ◌-◌, ◌≤◌, ◌<◌, ◌≡◌, ◌≢◌, refl, sym, ap, subst, ◌∙◌, List, [],
  ◌∷◌, ◌++◌, length, get_or, set, slice, replicate, arith, length-append, length-set,
  length-replicate, length-slice, get_or-set, get_or-set_ne, get_or-replicate, get_or-append,
  get_or_ext, get_or-slice, rising_le_of_le,
}
use opt_solver.Bucket.{bucket, counts, scatter, bucket_ptr, sort_by_key}
use opt_solver.Bucket.Counts.{
  KeysBelow, length-prefix_sums, prefix_sums-zero, prefix_sums-suc, length-counts, get_or-counts,
  bucket-append, bucket_self, bucket_ne, size, size-split, size-append, KeysBelow-append,
}

module _ {A : Type 0} (key : A → ℕ) where
  module _ (n : ℕ) (all : List A) (keys : KeysBelow key n all) where
    abbrev ptr : ℕ → ℕ
    ptr j = get_or (bucket_ptr key n all) j 0

    pub length-bucket_ptr : length (bucket_ptr key n all) ≡ n + 1
    unfolding bucket_ptr
    length-bucket_ptr = omega (
      arith,
      length-prefix_sums 0 (counts key all (replicate n 0)),
      length-counts key all (replicate n 0),
      length-replicate {A = ℕ} n 0,
    )

    pub bucket_ptr-zero : ptr 0 ≡ 0
    unfolding bucket_ptr
    bucket_ptr-zero = prefix_sums-zero 0 (counts key all (replicate n 0))

    -- Each bucket takes as many places as it has items.
    pub bucket_ptr-suc : (j : ℕ) → j < n → ptr (suc j) ≡ ptr j + size key all j
    unfolding bucket_ptr
    bucket_ptr-suc j h =
        let none_yet : List ℕ = replicate n 0 in
        let keys' : KeysBelow key (length none_yet) all =
          subst (λ k. KeysBelow key k all) (sym (length-replicate n 0)) keys in
        omega (
          arith,
          prefix_sums-suc 0 (counts key all none_yet) j
              (omega (arith, length-counts key all none_yet, length-replicate {A = ℕ} n 0)),
          get_or-counts key all none_yet j keys',
          get_or-replicate {A = ℕ} n j 0,
        )

    bucket_ptr_mono : (i j : ℕ) → i ≤ j → j ≤ n → ptr i ≤ ptr j
    bucket_ptr_mono i j h k =
        rising_le_of_le ptr n i j (λ m p. rw (add-one m) (omega (arith, bucket_ptr-suc m p))) h k

    -- The state of the scatter after the items `done`, with `rest` still to come.
    record Scattered (d : A) (done rest out : List A) (cursor : List ℕ) : Type 0 where
      split : done ++ rest ≡ all
      room : length out ≡ ptr n
      cursors : length cursor ≡ suc n
      next : (j : ℕ) → j < n → get_or cursor j 0 ≡ ptr j + size key done j
      placed :
          (j t : ℕ)
          → j < n
          → t < size key done j
          → get_or out (ptr j + t) d ≡ get_or (bucket key j done) t d

    -- Places of different buckets differ.
    places_apart :
        (i j s t : ℕ)
        → i < n
        → j < n
        → i ≢ j
        → s < size key all i
        → t < size key all j
        → ptr i + s ≢ ptr j + t
    places_apart i j s t hi hj ne hs ht e = elim (dec_lt i j) [
      | yes lt ↦ omega (arith, bucket_ptr_mono (suc i) j lt (omega arith), bucket_ptr-suc i hi)
      | no ge ↦
          omega (arith, bucket_ptr_mono (suc j) i (omega arith) (omega arith), bucket_ptr-suc j hj)
    ]

    module _ (d : A) (done : List A) (x : A) (rest out : List A) (cursor : List ℕ)
        (s : Scattered d done (x ∷ rest) out cursor) where
      abbrev at : ℕ
      at = get_or cursor (key x) 0

      key_below : key x < n
      key_below = (KeysBelow-append key n done (x ∷ rest) (rw (← s.split) at keys)).0

      -- The item's place is the next of its bucket.
      at_lem : at ≡ ptr (key x) + size key done (key x)
      at_lem = s.next (key x) key_below

      size_all : size key all (key x) ≡ suc (size key done (key x) + size key rest (key x))
      size_all = ap (λ l. size key l (key x)) (sym s.split) ∙ size-split key done x rest

      at_room : at < length out
      at_room = omega (
        arith,
        at_lem,
        size_all,
        bucket_ptr-suc (key x) key_below,
        bucket_ptr_mono (suc (key x)) n key_below (omega arith),
        s.room,
      )

      size_done-le : (j : ℕ) → size key done j ≤ size key all j
      size_done-le j =
          omega (arith, ap (λ l. size key l j) s.split, size-append key done (x ∷ rest) j)

      bucket_done_self : bucket key (key x) (done ++ x ∷ []) ≡ bucket key (key x) done ++ x ∷ []
      bucket_done_self =
          bucket-append key done (x ∷ []) (key x)
          ∙ ap (λ l. bucket key (key x) done ++ l) (bucket_self key x)

      bucket_done_ne : (j : ℕ) → key x ≢ j → bucket key j (done ++ x ∷ []) ≡ bucket key j done
      bucket_done_ne j ne =
          bucket-append key done (x ∷ []) j
          ∙ (ap (λ l. bucket key j done ++ l) (bucket_ne key x j ne) ∙ append-nil _)

      placed_ne :
          (j t : ℕ)
          → key x ≢ j
          → j < n
          → t < size key done j
          → get_or (set out at x) (ptr j + t) d ≡ get_or (bucket key j done) t d
      placed_ne j t ne h k =
          let apart =
            places_apart (key x) j (size key done (key x)) t key_below h ne
              (omega (arith, size_all)) (omega (arith, size_done-le j)) in
          get_or-set_ne out at (ptr j + t) x d (λ e. apart (sym at_lem ∙ e)) ∙ s.placed j t h k

      placed_self :
          (t : ℕ)
          → t < suc (size key done (key x))
          → get_or (set out at x) (ptr (key x) + t) d
            ≡ get_or (bucket key (key x) done ++ x ∷ []) t d
      placed_self t k =
          let here = get_or-set out at (ptr (key x) + t) x d at_room in
          let ours = get_or-append (bucket key (key x) done) (x ∷ []) t d in
          elim (dec_lt t (size key done (key x))) [
            | yes old ↦ ground (arith, here, ours, at_lem, s.placed (key x) t key_below old)
            | no new ↦
                let last : t - size key done (key x) ≡ 0 = omega arith in
                ground (arith, here, ours, at_lem, ap (λ i. get_or (x ∷ []) i d) last)
          ]

      placed_step :
          (j t : ℕ)
          → j < n
          → t < size key (done ++ x ∷ []) j
          → get_or (set out at x) (ptr j + t) d ≡ get_or (bucket key j (done ++ x ∷ [])) t d
      placed_step j t h k = elim (ℕ_discrete (key x) j) [
        | yes e ↦
            subst Step e
              (λ k'. rw bucket_done_self (
                placed_self t (
                  omega (
                    arith,
                    k',
                    ap length bucket_done_self,
                    length-append (bucket key (key x) done) (x ∷ []),
                  ))))
              k
        | no ne ↦
            rw (bucket_done_ne j ne)
              (placed_ne j t ne h (omega (arith, k, ap length (bucket_done_ne j ne))))
      ]
        where
          Step : ℕ → Type 0
          Step j =
              t < size key (done ++ x ∷ []) j
              → get_or (set out at x) (ptr j + t) d ≡ get_or (bucket key j (done ++ x ∷ [])) t d

      next_step :
          (j : ℕ)
          → j < n
          → get_or (set cursor (key x) (at + 1)) j 0 ≡ ptr j + size key (done ++ x ∷ []) j
      next_step j h =
          let here = get_or-set cursor (key x) j (at + 1) 0 (omega (arith, s.cursors, key_below)) in
          elim (ℕ_discrete (key x) j) [
            | yes e ↦ ground (
              arith,
              here,
              at_lem,
              ap length bucket_done_self,
              length-append (bucket key (key x) done) (x ∷ []),
            )
            | no ne ↦ ground (arith, here, s.next j h, ap length (bucket_done_ne j ne))
          ]

      scatter_step : Scattered d (done ++ x ∷ []) rest (set out at x) (set cursor (key x) (at + 1))
      scatter_step = record {
        split = append_assoc done (x ∷ []) rest ∙ s.split;
        room = length-set out at x ∙ s.room;
        cursors = length-set cursor (key x) (at + 1) ∙ s.cursors;
        next = next_step;
        placed = placed_step;
      }

    start : (d : A) → Scattered d [] all (replicate (ptr n) d) (bucket_ptr key n all)
    start d = record {
      split = refl;
      room = length-replicate (ptr n) d;
      cursors = omega (arith, length-bucket_ptr);
      next = λ j h. unfold bucket in omega arith;
      placed = λ j t h k. absurd (unfold bucket in (omega arith));
    }

    scatter_lem :
        (d : A) (done rest out : List A) (cursor : List ℕ)
        → Scattered d done rest out cursor
        → (j t : ℕ) → j < n
        → t < size key all j
        → (length (scatter key rest out cursor) ≡ ptr n)
          × (get_or (scatter key rest out cursor) (ptr j + t) d ≡ get_or (bucket key j all) t d)
    unfolding scatter
    scatter_lem d done [] out cursor s j t h k =
        let whole : done ≡ all = sym (append-nil done) ∙ s.split in
        (
          s.room,
          subst (λ l. get_or out (ptr j + t) d ≡ get_or (bucket key j l) t d) whole
              (s.placed j t h (omega (arith, k, ap (λ l. size key l j) whole))),
        )
    scatter_lem d done (x ∷ rest) out cursor s j t h k =
        scatter_lem d (done ++ x ∷ []) rest _ _ (scatter_step d done x rest out cursor s) j t h k

    length-scatter :
        (rest out : List A) (cursor : List ℕ) → length (scatter key rest out cursor) ≡ length out
    unfolding scatter
    length-scatter [] out cursor = refl
    length-scatter (x ∷ rest) out cursor = length-scatter rest _ _ ∙ length-set out _ x

    -- The entries between the start of bucket j and that of the next are the items of the bucket,
    -- in the order of the input.
    pub slice-sort_by_key :
        (d : A) (j : ℕ)
        → j < n
        → slice (ptr j) (ptr (suc j)) (sort_by_key key d n all) ≡ bucket key j all
    unfolding sort_by_key
    slice-sort_by_key d j h =
        let out = scatter key all (replicate (ptr n) d) (bucket_ptr key n all) in
        let long : length out ≡ ptr n =
          length-scatter all (replicate (ptr n) d) (bucket_ptr key n all)
          ∙ length-replicate (ptr n) d in
        let width : length (slice (ptr j) (ptr (suc j)) out) ≡ size key all j = omega (
          arith,
          length-slice (ptr j) (ptr (suc j)) out,
          bucket_ptr-suc j h,
          bucket_ptr_mono (suc j) n h (omega arith),
          long,
        ) in
        get_or_ext (slice (ptr j) (ptr (suc j)) out) (bucket key j all) d width (λ t k.
          let inside : t < size key all j = omega (arith, width) in
          get_or-slice (ptr j) (ptr (suc j)) out t d (omega (arith, bucket_ptr-suc j h))
          ∙ (scatter_lem d [] all (replicate (ptr n) d) (bucket_ptr key n all) (start d) j t h
              inside).1)
