-- ===== src/Front/Swap/Laws.antt =====
-- sym_swap_front exchanges two rows and the same two columns of the symmetric front.
use opt_solver.Base.{
  ℕ, zero, suc, ◌+◌, ◌-◌, ◌≤◌, ◌<◌, ◌≡◌, Bool, false, ◌&&◌, ltb, leb, ◌==◌, if◌then◌else◌, arith,
  dec_lt,
}
use opt_solver.Front.Matrix.{Entries, swap_entries, full}
use opt_solver.Front.Swap.{swap_rows, swap_cross, swap_columns, swap_sorted, sym_swap_front}

-- k lies in the range of a loop from m on.
abbrev in_range : ℕ → ℕ → ℕ → Bool
in_range rounds m k = leb m k && ltb k (m + rounds)

-- The exchange of p and q.
abbrev pub exchange : ℕ → ℕ → ℕ → ℕ
exchange p q i = if i == p then q else if i == q then p else i

module _ {V : Type 0} (p q : ℕ) (apart : p < q) where
  swap_rows_lem :
      (rounds m : ℕ) (f : Entries V) (i j : ℕ)
      → swap_rows p q rounds m f i j ≡ (
          if in_range rounds m j
          then (if i == p then f q j else if i == q then f p j else f i j)
          else f i j)
  unfolding swap_rows
  swap_rows_lem zero m f i j = ground arith
  swap_rows_lem (suc rounds) m f i j =
      ground (arith, swap_rows_lem rounds (suc m) (swap_entries f p m q m) i j)

  swap_columns_lem :
      (rounds m : ℕ) (f : Entries V) (i j : ℕ)
      → swap_columns p q rounds m f i j ≡ (
          if in_range rounds m i
          then (if j == p then f i q else if j == q then f i p else f i j)
          else f i j)
  unfolding swap_columns
  swap_columns_lem zero m f i j = ground arith
  swap_columns_lem (suc rounds) m f i j =
      ground (arith, swap_columns_lem rounds (suc m) (swap_entries f m p m q) i j)

  swap_cross_lem :
      (rounds m : ℕ) (f : Entries V) (i j : ℕ)
      → p < m
      → m + rounds ≤ q
      → swap_cross p q rounds m f i j ≡ (
          if j == p && in_range rounds m i
          then f q i
          else if i == q && in_range rounds m j
          then f j p
          else f i j)
  unfolding swap_cross
  swap_cross_lem zero m f i j h k = ground arith
  swap_cross_lem (suc rounds) m f i j h k = ground (
    arith,
    swap_cross_lem rounds (suc m) (swap_entries f m p q m) i j (omega arith) (omega arith),
  )

  module _ (num_fs front_size : ℕ) (inside : q < num_fs) (fits : num_fs ≤ front_size)
      (f : Entries V) where
    abbrev diagonal : Entries V
    diagonal = swap_entries f p p q q

    abbrev left : Entries V
    left = swap_rows p q p 0 diagonal

    abbrev between : Entries V
    between = swap_cross p q (q - (p + 1)) (p + 1) left

    abbrev below : Entries V
    below = swap_columns p q (num_fs - (q + 1)) (q + 1) between

    left_lem :
        (i j : ℕ)
        → left i j ≡ (
            if i == p && j == p
            then f q q
            else if i == q && j == q
            then f p p
            else if i == p && ltb j p
            then f q j
            else if i == q && ltb j p
            then f p j
            else f i j)
    left_lem i j = ground (arith, swap_rows_lem p 0 diagonal i j)

    between_lem :
        (i j : ℕ)
        → between i j ≡ (
            if j == p && (ltb p i && ltb i q)
            then f q i
            else if i == q && (ltb p j && ltb j q)
            then f j p
            else left i j)
    between_lem i j = ground (
      arith,
      swap_cross_lem (q - (p + 1)) (p + 1) left i j (omega arith) (omega arith),
      left_lem q i,
      left_lem j p,
    )

    between_far : (i j : ℕ) → q < i → between i j ≡ f i j
    between_far i j h = ground (arith, between_lem i j, left_lem i j)

    -- A row below q with its columns p and q exchanged.
    abbrev swapped_row : ℕ → ℕ → V
    swapped_row i j = if j == p then f i q else if j == q then f i p else f i j

    below_in : (i j : ℕ) → q < i → i < num_fs → below i j ≡ swapped_row i j
    below_in i j h k = ground (
      arith,
      swap_columns_lem (num_fs - (q + 1)) (q + 1) between i j,
      between_far i j h,
      between_far i p h,
      between_far i q h,
    )

    below_out : (i j : ℕ) → (ltb q i && ltb i num_fs) ≡ false → below i j ≡ between i j
    below_out i j h = ground (arith, swap_columns_lem (num_fs - (q + 1)) (q + 1) between i j)

    columns_in :
        (i j : ℕ)
        → q < i
        → i < front_size
        → swap_sorted front_size p q num_fs f i j ≡ swapped_row i j
    unfolding swap_sorted
    columns_in i j h k = elim (dec_lt i num_fs) [
      | yes summed ↦
          ground
            (arith, swap_columns_lem (front_size - num_fs) num_fs below i j, below_in i j h summed)
      | no extension ↦ ground (
        arith,
        swap_columns_lem (front_size - num_fs) num_fs below i j,
        below_out i j,
        below_out i p,
        below_out i q,
        between_far i j h,
        between_far i p h,
        between_far i q h,
      )
    ]

    columns_out : (i j : ℕ) → i ≤ q → swap_sorted front_size p q num_fs f i j ≡ between i j
    unfolding swap_sorted
    columns_out i j h =
        ground (arith, swap_columns_lem (front_size - num_fs) num_fs below i j, below_out i j)

    swap_sorted_lem :
        (i j : ℕ)
        → i < front_size
        → j ≤ i
        → swap_sorted front_size p q num_fs f i j ≡ full f (exchange p q i) (exchange p q j)
    swap_sorted_lem i j h k = elim (dec_lt q i) [
      | yes far ↦ ground (arith, columns_in i j far h)
      | no near ↦ ground (arith, columns_out i j (omega arith), between_lem i j, left_lem i j)
    ]

-- For two fully summed columns the swapped front, read as a symmetric matrix, is the given one with
-- the two indices exchanged in its rows and in its columns.
pub sym_swap_front_lem :
    {V : Type 0} (front_size p q num_fs : ℕ) (f : Entries V) (i j : ℕ)
    → p < num_fs
    → q < num_fs
    → num_fs ≤ front_size
    → i < front_size
    → j < front_size
    → full (sym_swap_front front_size p q num_fs f) i j ≡ full f (exchange p q i) (exchange p q j)
unfolding sym_swap_front
sym_swap_front_lem front_size p q num_fs f i j hp hq fits hi hj = elim (dec_lt p q) [
  | yes lt ↦ ground (
    arith,
    swap_sorted_lem p q lt num_fs front_size hq fits f i j,
    swap_sorted_lem p q lt num_fs front_size hq fits f j i,
  )
  | no ge ↦ elim (dec_lt q p) [
    | yes gt ↦ ground (
      arith,
      swap_sorted_lem q p gt num_fs front_size hp fits f i j,
      swap_sorted_lem q p gt num_fs front_size hp fits f j i,
    )
    | no le ↦ ground arith
  ]
]
