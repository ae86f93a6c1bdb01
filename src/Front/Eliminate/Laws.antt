-- ===== src/Front/Eliminate/Laws.antt =====
-- In exact arithmetic an eliminated pivot gives back the front: what is left of the trailing columns
-- plus the product of the pivot's columns is what stood there.
use opt_solver.Base.{
  ℕ, zero, suc, ◌+◌, ◌-◌, ◌≤◌, ◌<◌, ◌≡◌, refl, ◌∙◌, ◌⊎◌, ◌≢◌, false, ◌&&◌, ◌||◌, ltb, leb, ◌==◌,
  if◌then◌else◌, arith, ℕ_discrete,
}
use opt_solver.Front.Matrix.{Entries, put}
use opt_solver.Front.Scalar.{Scalar}
use opt_solver.Front.Choose.{scaled_det_2x2}
use opt_solver.Front.Eliminate.{
  Solution, is_zero, solve_2x2_scaled, divide_column, update_column, update_columns, change_1x1,
  apply_pivot_1x1, solve_rows, change_2x2, apply_pivot_2x2,
}

-- The laws of exact subtraction and division that the reconstruction needs.
pub record IsExact {V : Type 0} (s : Scalar V) : Type 0 where
  pub sub_add : (a b : V) → s.add (s.sub a b) b ≡ a

module _ {V : Type 0} (s : Scalar V) (neg : V → V) where
  divide_column_lem :
      (k : ℕ) (d : V) (rounds m : ℕ) (f : Entries V) (i j : ℕ)
      → divide_column s neg k d rounds m f i j
        ≡ (if j == k && (leb m i && ltb i (m + rounds)) then s.div (f i k) d else f i j)
  unfolding divide_column
  divide_column_lem k d zero m f i j = ground arith
  divide_column_lem k d (suc rounds) m f i j =
      ground (arith, divide_column_lem k d rounds (suc m) (put f m k (s.div (f m k) d)) i j)

  -- The loops read `change` only outside the columns from j on.
  update_column_lem :
      (j : ℕ) (change : Entries V → ℕ → V) (rounds m : ℕ) (f : Entries V) (i c : ℕ)
      → ((g : Entries V) (v : V) (r x : ℕ) → change (put g r j v) x ≡ change g x)
      → update_column s neg j change rounds m f i c
        ≡ (if c == j && (leb m i && ltb i (m + rounds)) then s.sub (f i j) (change f i) else f i c)
  unfolding update_column
  update_column_lem j change zero m f i c free = ground arith
  update_column_lem j change (suc rounds) m f i c free = ground (
    arith,
    update_column_lem j change rounds (suc m) (put f m j (s.sub (f m j) (change f m))) i c free,
    free f (s.sub (f m j) (change f m)) m i,
  )

  -- The two fronts agree on the columns before `bound`.
  abbrev Agree : ℕ → Entries V → Entries V → Type 0
  Agree bound f g = (r y : ℕ) → y < bound → f r y ≡ g r y

  module _ (bound size : ℕ) (change : Entries V → ℕ → Entries V → ℕ → V)
      (reads : (f f' g g' : Entries V) (j i : ℕ)
        → Agree bound f f'
        → Agree bound g g'
        → change f j g i ≡ change f' j g' i) where
    Agree-refl : (f : Entries V) → Agree bound f f
    Agree-refl f r y h = refl

    Agree-put : (f : Entries V) (i j : ℕ) (v : V) → bound ≤ j → Agree bound (put f i j v) f
    Agree-put f i j v h r y l = ground arith

    one_column :
        (m : ℕ) (f : Entries V) (i c : ℕ)
        → bound ≤ m
        → update_column s neg m (change f m) (size - m) m f i c
          ≡ (if c == m && (leb m i && ltb i size) then s.sub (f i m) (change f m f i) else f i c)
    one_column m f i c h = ground (
      arith,
      update_column_lem m (change f m) (size - m) m f i c
          (λ g v r x. reads f f (put g r m v) g m x (Agree-refl f) (Agree-put g r m v h)),
    )

    update_columns_lem :
        (rounds m : ℕ) (f : Entries V) (i c : ℕ)
        → bound ≤ m
        → update_columns s neg size change rounds m f i c ≡ (
            if (leb m c && ltb c (m + rounds)) && (leb c i && ltb i size)
            then s.sub (f i c) (change f c f i)
            else f i c)
    unfolding update_columns
    update_columns_lem zero m f i c h = ground arith
    update_columns_lem (suc rounds) m f i c h =
        let next = update_column s neg m (change f m) (size - m) m f in
        let same : Agree bound next f = λ r y l. ground (arith, one_column m f r y h) in
        ground (
          arith,
          update_columns_lem rounds (suc m) next i c (omega arith),
          one_column m f i c h,
          reads next f next f c i same same,
        )

  module _ (front_size num_fs k : ℕ) (f : Entries V) where
    abbrev eliminated : Entries V
    eliminated = apply_pivot_1x1 s neg front_size k num_fs f

    pivot_1x1 :
        (i j : ℕ)
        → eliminated i j ≡ (
            if (leb (k + 1) j && ltb j num_fs) && (leb j i && ltb i front_size)
            then s.sub
                (f i j)
                (s.mul (s.div (f i k) (f k k)) (s.mul (f k k) (s.div (f j k) (f k k))))
            else if j == k && (leb (k + 1) i && ltb i front_size)
            then s.div (f i k) (f k k)
            else f i j)
    unfolding apply_pivot_1x1
    pivot_1x1 i j =
        let d = f k k in
        let divided = divide_column s neg k d (front_size - (k + 1)) (k + 1) f in
        ground (
          arith,
          update_columns_lem (k + 1) front_size (change_1x1 s neg k d)
              (λ g g' h h' c x a b. cc (a c k (omega arith), b x k (omega arith)))
              (num_fs - (k + 1)) (k + 1) divided i j (omega arith),
          divide_column_lem k d (front_size - (k + 1)) (k + 1) f i j,
          divide_column_lem k d (front_size - (k + 1)) (k + 1) f i k,
          divide_column_lem k d (front_size - (k + 1)) (k + 1) f j k,
        )

    -- A 1x1 pivot at column k of a fully summed block within the front leaves the pivot itself, divides
    -- the column below it, and leaves every column but k and the later fully summed ones as it was; in
    -- exact arithmetic each entry of those, in the stored triangle, plus the product of the pivot's
    -- column entries with the pivot is the entry that stood there.
    pub apply_pivot_1x1_lem :
        IsExact s
        → num_fs ≤ front_size
        → (eliminated k k ≡ f k k)
          × ((i : ℕ) → k < i → i < front_size → eliminated i k ≡ s.div (f i k) (f k k))
          × ((i j : ℕ) → (j < k) ⊎ (num_fs ≤ j) × (j ≢ k) → eliminated i j ≡ f i j)
          × ((i j : ℕ)
              → k < j
              → j < num_fs
              → j ≤ i
              → i < front_size
              → s.add
                  (eliminated i j)
                  (s.mul (eliminated i k) (s.mul (eliminated k k) (eliminated j k)))
                ≡ f i j)
    apply_pivot_1x1_lem exact fits = (
      ground (arith, pivot_1x1 k k),
      λ i h l. ground (arith, pivot_1x1 i k),
      λ i j o. ground (arith, pivot_1x1 i j, o),
      λ i j a b h l. ground (
        arith,
        pivot_1x1 i j,
        pivot_1x1 i k,
        pivot_1x1 j k,
        pivot_1x1 k k,
        exact.sub_add (f i j)
            (s.mul (s.div (f i k) (f k k)) (s.mul (f k k) (s.div (f j k) (f k k)))),
      ),
    )

  module _ (front_size num_fs k : ℕ) (small : V) (f : Entries V) where
    abbrev eliminated_pair : Entries V
    eliminated_pair = apply_pivot_2x2 s neg front_size k num_fs small f

    -- The pair's determinant passes the guard.
    abbrev pub IsSound : Type 0
    IsSound =
        let det = scaled_det_2x2 s (f k k) (f (k + 1) k) (f (k + 1) (k + 1)) in
        (is_zero s neg det.1 || s.le (s.abs det.0) small) ≡ false

    abbrev pub solved_at : ℕ → Solution V
    solved_at i =
        solve_2x2_scaled s neg (f k k) (f (k + 1) k) (f (k + 1) (k + 1)) (f i k) (f i (k + 1))

    -- The entry (i, j) after a loop over the rows from m on that replaces two entries by `solve`.
    abbrev after_rows : (V → V → Solution V) → ℕ → ℕ → Entries V → ℕ → ℕ → V
    after_rows solve rounds m g i j =
        if leb m i && ltb i (m + rounds)
        then (if j == k
            then (solve (g i k) (g i (k + 1))).y0
            else if j == k + 1
            then (solve (g i k) (g i (k + 1))).y1
            else g i j)
        else g i j

    row_step :
        (solve : V → V → Solution V) (rounds m : ℕ) (g : Entries V) (i j : ℕ)
        → after_rows solve rounds
            (suc m)
            (put
              (put g m k (solve (g m k) (g m (k + 1))).y0)
              m
              (k + 1)
              (solve (g m k) (g m (k + 1))).y1)
            i
            j
          ≡ after_rows solve (suc rounds) m g i j
    row_step solve rounds m g i j = elim (ℕ_discrete i m) [
      | yes here ↦ ground (arith, here)
      | no other ↦ ground (arith, other)
    ]

    solve_rows_lem :
        (d00 d10 d11 : V) (rounds m : ℕ) (g : Entries V) (i j : ℕ)
        → solve_rows s neg k d00 d10 d11 rounds m g i j
          ≡ after_rows (solve_2x2_scaled s neg d00 d10 d11) rounds m g i j
    unfolding solve_rows
    solve_rows_lem d00 d10 d11 zero m g i j = ground arith
    solve_rows_lem d00 d10 d11 (suc rounds) m g i j =
        let l = solve_2x2_scaled s neg d00 d10 d11 (g m k) (g m (k + 1)) in
        solve_rows_lem d00 d10 d11 rounds (suc m) (put (put g m k l.y0) m (k + 1) l.y1) i j
        ∙ row_step (solve_2x2_scaled s neg d00 d10 d11) rounds m g i j

    abbrev solved : Entries V
    solved =
        solve_rows s neg k (f k k) (f (k + 1) k) (f (k + 1) (k + 1)) (front_size - (k + 2)) (k + 2)
          f

    pivot_2x2 :
        (i j : ℕ)
        → IsSound
        → eliminated_pair i j ≡ (
            if (leb (k + 2) j && ltb j num_fs) && (leb j i && ltb i front_size)
            then s.sub
                (solved i j)
                (change_2x2 s neg k (f k k) (f (k + 1) k) (f (k + 1) (k + 1)) solved j solved i)
            else solved i j)
    unfolding apply_pivot_2x2
    pivot_2x2 i j sound = ground (
      arith,
      sound,
      update_columns_lem (k + 2) front_size
          (change_2x2 s neg k (f k k) (f (k + 1) k) (f (k + 1) (k + 1)))
          (λ g g' h h' c x a b. cc (
            a c k (omega arith),
            b x k (omega arith),
            a c (k + 1) (omega arith),
            b x (k + 1) (omega arith),
          ))
          (num_fs - (k + 2)) (k + 2) solved i j (omega arith),
    )

    solved_lem :
        (i j : ℕ)
        → solved i j ≡ (
            if leb (k + 2) i && ltb i front_size
            then (if j == k
                then (solved_at i).y0
                else if j == k + 1
                then (solved_at i).y1
                else f i j)
            else f i j)
    solved_lem i j = ground (
      arith,
      solve_rows_lem (f k k) (f (k + 1) k) (f (k + 1) (k + 1)) (front_size - (k + 2)) (k + 2) f i j,
    )

    -- A 2x2 pivot whose determinant passes the guard leaves the pivot itself and solves the two entries
    -- of every row below it; in exact arithmetic each entry of the later fully summed columns, in the
    -- stored triangle, plus the product of the pivot's columns with the pivot is what stood there.
    apply_pivot_2x2_lem :
        IsExact s
        → IsSound
        → num_fs ≤ front_size
        → ((i j : ℕ) → i < k + 2 → eliminated_pair i j ≡ f i j)
          × ((i : ℕ)
              → k + 1 < i
              → i < front_size
              → (eliminated_pair i k ≡ (solved_at i).y0)
                × (eliminated_pair i (k + 1) ≡ (solved_at i).y1))
          × ((i j : ℕ)
              → k + 1 < j
              → j < num_fs
              → j ≤ i
              → i < front_size
              → s.add (eliminated_pair i j) (
                  change_2x2 s neg k
                    (f k k)
                    (f (k + 1) k)
                    (f (k + 1) (k + 1))
                    eliminated_pair
                    j
                    eliminated_pair
                    i)
                ≡ f i j)
    apply_pivot_2x2_lem exact sound fits = (
      λ i j h. ground (arith, pivot_2x2 i j sound, solved_lem i j),
      λ i h l. (
        ground (arith, pivot_2x2 i k sound, solved_lem i k),
        ground (arith, pivot_2x2 i (k + 1) sound, solved_lem i (k + 1)),
      ),
      λ i j a b h l.
          let keeps = λ (r c : ℕ) (p : c < k + 2). pivot_2x2 r c sound in
          let whole : change_2x2 s neg k (f k k) (f (k + 1) k) (f (k + 1) (k + 1)) eliminated_pair j
                eliminated_pair i
              ≡ change_2x2 s neg k (f k k) (f (k + 1) k) (f (k + 1) (k + 1)) solved j solved i =
            cc (
              same i k (omega arith),
              same j k (omega arith),
              same i (k + 1) (omega arith),
              same j (k + 1) (omega arith),
            ) in
          ground (
            arith,
            pivot_2x2 i j sound,
            solved_lem i j,
            whole,
            exact.sub_add (solved i j)
                (change_2x2 s neg k (f k k) (f (k + 1) k) (f (k + 1) (k + 1)) solved j solved i),
          ),
    )
      where
        same : (r c : ℕ) → c < k + 2 → eliminated_pair r c ≡ solved r c
        same r c p = ground (arith, pivot_2x2 r c sound)
